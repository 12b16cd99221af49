-- ===== src/Roles/Acquiring.antt =====
-- What `acquire` does on a consistent registry, branch by branch, and that `release` undoes it.
use msys_core.Common.{
  ℕ, ◌≡◌, refl, sym, ap, ◌∙◌, true, false, not, Option, none, some, List, [], ◌∷◌, ◌⊎◌, inl, inr,
  arith, ◌==◌, elem, nat_eq, nat_beq_iff, if◌then◌else◌, Bool-cases, Option-cases,
}
use msys_core.Common.Result.{Result-cases, ok, err}
use msys_core.Common.Text.{Text, text_eq, text_beq_iff}
use msys_core.Common.Dict.{get, get-put}
use msys_core.Roles.Types.{
  RoleError, lease_conflict, RoleCandidate, RoleLease, RoleState, RoleRegistry, lease_beq,
  lease_beq_refl,
}
use msys_core.Roles.Registry.{get_state, get_candidate, preferred_provider, resolve_candidate}
use msys_core.Roles.Leases.{
  chosen_candidate, check_conflict, acquire_checks, grant, acquire, by_lease, release,
}
use msys_core.Roles.Invariant.{IsConsistent, lease_has_role, tokens_of, is_exclusive}
use msys_core.Roles.Granting.{fresh, acquire-IsConsistent, acquire_checks-IsGrantable}
use msys_core.Roles.Releasing.{release_stored}

-- A role with a candidate is in the catalog.
known_role :
    (reg : RoleRegistry) (role : Text) (p : Option Text) {c : RoleCandidate}
    → chosen_candidate reg role p ≡ ok c
    → (state : RoleState) × (get role reg.roles ≡ some state)
unfolding chosen_candidate resolve_candidate preferred_provider get_candidate
known_role reg role p {c} e = elim (Option-cases (get role reg.roles)) [
  | inr k ↦ k
  | inl n ↦ absurd (go p e n)
]
  where
    go : (p : Option Text) → chosen_candidate reg role p ≡ ok c → get role reg.roles ≡ none → ⊥
    go none e n = ground arith
    go (some x) e n = ground arith

module _ (reg : RoleRegistry) (role : Text) (p : Option Text) where
  -- No candidate: the checks raise the same exception, also for an unknown role.
  checks_without_candidate :
      (e : RoleError) → chosen_candidate reg role p ≡ err e → acquire_checks reg role p ≡ err e
  unfolding acquire_checks get_state chosen_candidate resolve_candidate preferred_provider
      get_candidate
  checks_without_candidate e h = elim (Option-cases (get role reg.roles)) [
    | inr (s, k) ↦ ground arith
    | inl n ↦ unknown p h n
  ]
    where
      unknown :
          (p : Option Text)
          → chosen_candidate reg role p ≡ err e
          → get role reg.roles ≡ none
          → acquire_checks reg role p ≡ err e
      unknown none h n = ground arith
      unknown (some x) h n = ground arith

  module _ (h : IsConsistent reg) {c : RoleCandidate}
      (chosen : chosen_candidate reg role p ≡ ok c) where
    active_list : get role reg.role_leases ≡ some (tokens_of reg role)
    unfolding tokens_of
    active_list =
        let (s, k) = known_role reg role p chosen in
        elim (Option-cases (get role reg.role_leases)) [
          | inl n ↦ absurd (ground (arith, h.tracked role))
          | inr (ts, e) ↦ ground arith
        ]

    -- The lease of a listed token is stored under it.
    stored_lease :
        (t : ℕ) (ts : List ℕ)
        → tokens_of reg role ≡ t ∷ ts
        → (l : RoleLease) × (get t reg.leases ≡ some l) × (l.role ≡ role) × (l.token ≡ t)
    stored_lease t ts e = elim (Option-cases (get t reg.leases)) [
      | inl n ↦ absurd (ground (arith, h.agree role t))
      | inr (l, k) ↦ (
        l,
        k,
        ground (arith, h.agree role t, text_beq_iff l.role role),
        ground (arith, h.sound t),
      )
    ]

    checks_free :
        (is_exclusive reg role ≡ true → tokens_of reg role ≡ [])
        → acquire_checks reg role p ≡ ok (c, tokens_of reg role)
    unfolding acquire_checks get_state is_exclusive check_conflict
    checks_free free =
        let (s, k) = known_role reg role p chosen in go (tokens_of reg role) active_list s k free
      where
        go :
            (ts : List ℕ)
            → get role reg.role_leases ≡ some ts
            → (s : RoleState) → get role reg.roles ≡ some s
            → (is_exclusive reg role ≡ true → ts ≡ [])
            → acquire_checks reg role p ≡ ok (c, ts)
        go [] e s k free = ground arith
        go (t ∷ ts) e s k free = ground arith

    checks_conflict :
        (t : ℕ) (ts : List ℕ) (l : RoleLease)
        → is_exclusive reg role ≡ true
        → tokens_of reg role ≡ t ∷ ts
        → get t reg.leases ≡ some l
        → acquire_checks reg role p ≡ err (lease_conflict role l.provider_id)
    unfolding acquire_checks get_state is_exclusive check_conflict
    checks_conflict t ts l x e k =
        let (s, known) = known_role reg role p chosen in ground (arith, active_list)

-- The lease that `acquire` grants.
abbrev pub granted : RoleRegistry → Text → RoleCandidate → Option Text → RoleLease
granted reg role c holder = record {
  token = reg.next_lease_token;
  role = role;
  provider_id = c.provider_id;
  holder = holder;
}

abbrev pub WithoutCandidate : RoleRegistry → Text → Option Text → Option Text → Type 0
WithoutCandidate reg role p holder =
    (e : RoleError) × (chosen_candidate reg role p ≡ err e)
    × (acquire reg role p holder ≡ (err e, reg))

abbrev pub InConflict : RoleRegistry → Text → Option Text → Option Text → Type 0
InConflict reg role p holder =
    (active : RoleLease) × (is_exclusive reg role ≡ true)
    × (elem active.token (tokens_of reg role) ≡ true)
    × (get active.token reg.leases ≡ some active)
    × (acquire reg role p holder ≡ (err (lease_conflict role active.provider_id), reg))

abbrev pub Grants : RoleRegistry → Text → Option Text → Option Text → Type 0
Grants reg role p holder =
    (c : RoleCandidate) × (chosen_candidate reg role p ≡ ok c)
    × (is_exclusive reg role ≡ true → tokens_of reg role ≡ [])
    × (acquire reg role p holder ≡ (
      ok (granted reg role c holder),
      (grant reg role c.provider_id (tokens_of reg role) holder).1,
    ))

-- On a consistent registry `acquire` has three outcomes. Without a candidate it raises what the
-- choice of one raised; for an exclusive role with an active lease it raises a conflict that names
-- the provider of an active lease of the role; both change nothing. Else it grants the lease with
-- the next token, and an exclusive role had none. No other exception is raised.
pub acquire_outcome :
    (reg : RoleRegistry) (role : Text) (p holder : Option Text)
    → IsConsistent reg
    → WithoutCandidate reg role p holder ⊎ (InConflict reg role p holder ⊎ Grants reg role p holder)
unfolding acquire grant
acquire_outcome reg role p holder h = elim (Result-cases (chosen_candidate reg role p)) [
  | inr (e, k) ↦ inl (e, k, rw (checks_without_candidate reg role p e k, acquire) refl)
  | inl (c, k) ↦ elim (Bool-cases (is_exclusive reg role)) [
    | inr x ↦
        let free : is_exclusive reg role ≡ true → tokens_of reg role ≡ [] = λ y. cc in
        inr (inr (c, k, free, rw (checks_free reg role p h k free, acquire) refl))
    | inl x ↦ split c k x (tokens_of reg role) refl
  ]
]
  where
    split :
        (c : RoleCandidate) (k : chosen_candidate reg role p ≡ ok c)
        → is_exclusive reg role ≡ true
        → (ts : List ℕ) → tokens_of reg role ≡ ts
        → WithoutCandidate reg role p holder
          ⊎ (InConflict reg role p holder ⊎ Grants reg role p holder)
    split c k x [] e =
        inr (inr (c, k, λ y. e, rw (checks_free reg role p h k (λ y. e), acquire) refl))
    split c k x (t ∷ ts) e =
        let (l, stored, same_role, same_token) = stored_lease reg role p h k t ts e in
        inr (
          inl (
            l,
            x,
            ground arith,
            rw same_token stored,
            rw (checks_conflict reg role p h k t ts l x e stored, acquire) refl,
          ))

-- A granted lease is stored under a new token, beside the leases that there were.
acquired :
    (reg : RoleRegistry) (role : Text) (p holder : Option Text) {lease : RoleLease}
    → IsConsistent reg
    → (acquire reg role p holder).0 ≡ ok lease
    → (get lease.token reg.leases ≡ none)
      × ((t : ℕ)
          → get t (acquire reg role p holder).1.leases
            ≡ (if lease.token == t then some lease else get t reg.leases))
unfolding acquire grant
acquired reg role p holder {lease} h e = elim (Result-cases (acquire_checks reg role p)) [
  | inr (x, k) ↦ absurd (ground arith)
  | inl ((c, tokens), k) ↦
      let g = acquire_checks-IsGrantable reg role p k in
      let same : lease ≡ granted reg role c holder = ground arith in
      (
        rw same (fresh reg h role c.provider_id tokens holder g.active g.listed g.free),
        λ t.
            rw (k, acquire, same)
              (get-put reg.next_lease_token t (granted reg role c holder) reg.leases),
      )
]

-- After a successful `acquire` on a consistent registry the release of the lease returns it, and
-- the stored leases and the tokens of every role are what they were.
pub release-acquire :
    (reg : RoleRegistry) (role : Text) (p holder : Option Text) {lease : RoleLease}
    → IsConsistent reg
    → (acquire reg role p holder).0 ≡ ok lease
    → ((release (acquire reg role p holder).1 (by_lease lease)).0 ≡ ok lease)
      × ((t : ℕ)
          → get t (release (acquire reg role p holder).1 (by_lease lease)).1.leases
            ≡ get t reg.leases)
      × ((r : Text) (t : ℕ)
          → elem t (tokens_of (release (acquire reg role p holder).1 (by_lease lease)).1 r)
            ≡ elem t (tokens_of reg r))
release-acquire reg role p holder {lease} h e =
    let (new, leases) = acquired reg role p holder h e in
    let after = (acquire reg role p holder).1 in
    let own : not (lease_beq lease lease) ≡ false = ground (arith, lease_beq_refl lease) in
    let (returned, released) =
      release_stored after (acquire-IsConsistent reg role p holder h) (by_lease lease) lease
        (ground (arith, leases lease.token)) own in
    let restored : (t : ℕ) → get t (release after (by_lease lease)).1.leases ≡ get t reg.leases =
      λ t. ground (arith, released.gone t, leases t, new, nat_beq_iff lease.token t) in
    (
      returned,
      restored,
      λ r t. released.consistent.agree r t ∙ ap (lease_has_role r) (restored t) ∙ sym (h.agree r t),
    )
