-- ===== src/Roles/Tokens.antt =====
-- The counter of the lease tokens: it is never set back, and each token is taken from it once.
use msys_core.Common.{
  ℕ, suc, ◌≤◌, ◌≡◌, ◌⊎◌, refl, true, Option, List, [], ◌∷◌, arith, all, elem, leb, ltb, filter,
  nat_eq, Bool-cases, Option-cases, inl, inr,
}
use msys_core.Common.Result.{Result-cases}
use msys_core.Common.Sorting.{IsSorted}
use msys_core.Common.Text.{Text, text_eq, text_beq}
use msys_core.Common.Dict.{get, values}
use msys_core.Roles.Types.{RoleLease, RoleRegistry}
use msys_core.Roles.Registry.{get_state, get_candidate, select_preferred, reset_preferred}
use msys_core.Roles.Leases.{
  LeaseRef, by_lease, ref_token, is_other, acquire, acquire_checks, grant, drop_lease, release,
  release_all, release_provider,
}
use msys_core.Roles.Runs.{
  Call, select_call, reset_call, acquire_call, release_call, stop_call, after, granted_by, granted,
}

module _ (reg : RoleRegistry) where
  select_preferred-next :
      (role provider_id : Text)
      → (select_preferred reg role provider_id).1.next_lease_token ≡ reg.next_lease_token
  unfolding select_preferred
  select_preferred-next role provider_id =
      ground (arith, Result-cases (get_candidate reg role provider_id))

  reset_preferred-next :
      (role : Text) → (reset_preferred reg role).1.next_lease_token ≡ reg.next_lease_token
  unfolding reset_preferred
  reset_preferred-next role = ground (arith, Result-cases (get_state reg role))

  drop_lease-next :
      (token : ℕ) (stored : RoleLease)
      → (drop_lease reg token stored).1.next_lease_token ≡ reg.next_lease_token
  unfolding drop_lease
  drop_lease-next token stored = elim (Option-cases (get stored.role reg.role_leases)) [
    | inl e ↦ rw (e, drop_lease) refl
    | inr (tokens, e) ↦ elim (Bool-cases (elem token tokens)) [
      | inl f ↦ rw (e, f, drop_lease) refl
      | inr f ↦ rw (e, f, drop_lease) refl
    ]
  ]

  release-next : (ref : LeaseRef) → (release reg ref).1.next_lease_token ≡ reg.next_lease_token
  unfolding release
  release-next ref = elim (Option-cases (get (ref_token ref) reg.leases)) [
    | inl e ↦ rw (e, release) refl
    | inr (stored, e) ↦ elim (Bool-cases (is_other ref stored)) [
      | inl f ↦ rw (e, f, release) refl
      | inr f ↦ rw (e, f, release) (drop_lease-next (ref_token ref) stored)
    ]
  ]

  -- A granted token is the counter, which then is one more; a refusal leaves it.
  acquire-next :
      (role : Text) (provider_id holder : Option Text)
      → ((granted_by reg (acquire_call role provider_id holder) ≡ [])
          × ((acquire reg role provider_id holder).1.next_lease_token ≡ reg.next_lease_token))
        ⊎ ((granted_by reg (acquire_call role provider_id holder) ≡ reg.next_lease_token ∷ [])
            × ((acquire reg role provider_id holder).1.next_lease_token ≡ suc reg.next_lease_token))
  unfolding granted_by acquire grant
  acquire-next role provider_id holder = elim (Result-cases (acquire_checks reg role provider_id)) [
    | inl ((c, ts), e) ↦ rw (e, acquire, granted_by) (inr (refl, ground arith))
    | inr (x, e) ↦ rw (e, acquire, granted_by) (inl (refl, refl))
  ]

release_all-next :
    (reg : RoleRegistry) (leases : List RoleLease)
    → (release_all reg leases).1.next_lease_token ≡ reg.next_lease_token
unfolding release_all
release_all-next reg [] = refl
release_all-next reg (lease ∷ rest) = ground (
  arith,
  Result-cases (release reg (by_lease lease)).0,
  release-next reg (by_lease lease),
  release_all-next (release reg (by_lease lease)).1 rest,
)

release_provider-next :
    (reg : RoleRegistry) (provider_id : Text)
    → (release_provider reg provider_id).1.next_lease_token ≡ reg.next_lease_token
unfolding release_provider
release_provider-next reg provider_id =
    let matching = filter (λ lease. text_beq lease.provider_id provider_id) (values reg.leases) in
    ground (arith, Result-cases (release_all reg matching).0, release_all-next reg matching)

after-next :
    (reg : RoleRegistry) (c : Call)
    → ((granted_by reg c ≡ []) × ((after reg c).next_lease_token ≡ reg.next_lease_token))
      ⊎ ((granted_by reg c ≡ reg.next_lease_token ∷ [])
          × ((after reg c).next_lease_token ≡ suc reg.next_lease_token))
unfolding after granted_by
after-next reg (select_call role p) = inl (refl, select_preferred-next reg role p)
after-next reg (reset_call role) = inl (refl, reset_preferred-next reg role)
after-next reg (acquire_call role p holder) = acquire-next reg role p holder
after-next reg (release_call ref) = inl (refl, release-next reg ref)
after-next reg (stop_call p) = inl (refl, release_provider-next reg p)

all_weaken : (a b : ℕ) (ts : List ℕ) → a ≤ b → all (leb b) ts ≡ true → all (leb a) ts ≡ true
all_weaken a b [] h k = refl
all_weaken a b (t ∷ ts) h k = ground (arith, all_weaken a b ts)

all_later : (a : ℕ) (ts : List ℕ) → all (leb (suc a)) ts ≡ true → all (ltb a) ts ≡ true
all_later a [] k = refl
all_later a (t ∷ ts) k = ground (arith, all_later a ts)

-- No call grants a token below the counter.
granted-next :
    (reg : RoleRegistry) (cs : List Call) → all (leb reg.next_lease_token) (granted reg cs) ≡ true
unfolding granted
granted-next reg [] = refl
granted-next reg (c ∷ cs) =
    let later = granted-next (after reg c) cs in
    elim (after-next reg c) [
      | inl (e, f) ↦ rw (e) (all_weaken _ _ (granted (after reg c) cs) (ground arith) later)
      | inr (e, f) ↦ rw (e) (
          ground (
            arith,
            all_weaken reg.next_lease_token (after reg c).next_lease_token
                (granted (after reg c) cs) (ground arith) later,
          ))
    ]

-- Each token that is granted is larger than all that were granted before it.
pub granted-IsSorted : (reg : RoleRegistry) (cs : List Call) → IsSorted ltb (granted reg cs)
unfolding granted
granted-IsSorted reg [] = tt
granted-IsSorted reg (c ∷ cs) =
    let rest = granted-IsSorted (after reg c) cs in
    elim (after-next reg c) [
      | inl (e, f) ↦ rw (e) rest
      | inr (e, f) ↦ rw (e) (
        all_later reg.next_lease_token (granted (after reg c) cs) (
            all_weaken _ _ (granted (after reg c) cs) (ground arith)
              (granted-next (after reg c) cs)),
        rest,
      )
    ]
