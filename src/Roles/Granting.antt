-- ===== src/Roles/Granting.antt =====
-- `acquire` keeps the invariant of `RoleRegistry`, and grants exactly where it should.
use msys_core.Common.{
  ℕ, ◌≤◌, ◌≡◌, refl, true, false, Option, none, some, List, [], ◌∷◌, ◌++◌, arith, elem, elem-append,
  length, nat_eq, IsNodup, Bool-cases, Option-cases, inl, inr,
}
use msys_core.Common.Result.{Result-cases, ok}
use msys_core.Common.Text.{Text, text_eq, text_beq, text_beq_iff}
use msys_core.Common.Dict.{get, has, get-put, keys-put-IsNodup}
use msys_core.Roles.Types.{RoleCandidate, RoleState, RoleRegistry}
use msys_core.Roles.Registry.{get_candidate, get_state, resolve_candidate, preferred_provider}
use msys_core.Roles.Leases.{acquire_checks, grant, acquire, check_conflict, chosen_candidate}
use msys_core.Roles.Invariant.{
  tokens_of, is_listed, is_exclusive, IsConsistent, lease_has_role, lease_is_sound,
  get_candidate_lem, preference_is_sound,
}

append-IsNodup : (ts : List ℕ) (t : ℕ) → elem t ts ≡ false → IsNodup ts → IsNodup (ts ++ (t ∷ []))
append-IsNodup [] t n h = (refl, tt)
append-IsNodup (x ∷ ts) t n h = ground (arith, elem-append x ts (t ∷ []), append-IsNodup ts t)

module _ (reg : RoleRegistry) (h : IsConsistent reg) (role provider_id : Text) (tokens : List ℕ)
    (holder : Option Text) (active : get role reg.role_leases ≡ some tokens)
    (listed : is_listed reg role provider_id ≡ true)
    (free : is_exclusive reg role ≡ true → tokens ≡ []) where
  -- The next token is not in use.
  pub fresh : get reg.next_lease_token reg.leases ≡ none
  fresh = elim (Option-cases (get reg.next_lease_token reg.leases)) [
    | inl e ↦ e
    | inr (l, e) ↦ absurd (ground (arith, h.sound reg.next_lease_token))
  ]

  tokens_of-active : tokens_of reg role ≡ tokens
  unfolding tokens_of
  tokens_of-active = rw (active, tokens_of)

  grant-agree :
      (r : Text) (t : ℕ)
      → elem t (tokens_of (grant reg role provider_id tokens holder).1 r)
        ≡ lease_has_role r (get t (grant reg role provider_id tokens holder).1.leases)
  unfolding grant tokens_of
  grant-agree r t = ground (
    arith,
    get-put role r (tokens ++ (reg.next_lease_token ∷ [])) reg.role_leases,
    get-put reg.next_lease_token t (grant reg role provider_id tokens holder).0 reg.leases,
    elem-append t tokens (reg.next_lease_token ∷ []),
    h.agree r t,
    h.agree role t,
    fresh,
    active,
    text_beq_iff role r,
  )

  grant-distinct : (r : Text) → IsNodup (tokens_of (grant reg role provider_id tokens holder).1 r)
  unfolding grant tokens_of
  grant-distinct r = elim (Bool-cases (text_beq role r)) [
    | inl e ↦
        rw (get-put role r, e)
          (append-IsNodup tokens reg.next_lease_token
            (ground (arith, h.agree role reg.next_lease_token, fresh, active))
            (rw tokens_of-active at (h.distinct_tokens role)))
    | inr e ↦ rw (get-put role r, e) (unfold tokens_of in h.distinct_tokens r)
  ]

  grant-single :
      (r : Text)
      → is_exclusive (grant reg role provider_id tokens holder).1 r ≡ true
      → length (tokens_of (grant reg role provider_id tokens holder).1 r) ≤ 1
  unfolding grant tokens_of is_exclusive
  grant-single r x = ground (
    arith,
    get-put role r (tokens ++ (reg.next_lease_token ∷ [])) reg.role_leases,
    text_beq_iff role r,
    free,
    h.single r,
  )

  grant_sound :
      (t : ℕ)
      → lease_is_sound
          (grant reg role provider_id tokens holder).1
          t
          (get t (grant reg role provider_id tokens holder).1.leases)
        ≡ true
  unfolding grant is_listed
  grant_sound t = ground (
    arith,
    get-put reg.next_lease_token t (grant reg role provider_id tokens holder).0 reg.leases,
    h.sound t,
  )

  grant-tracked :
      (r : Text)
      → has r reg.roles ≡ true
      → has r (grant reg role provider_id tokens holder).1.role_leases ≡ true
  unfolding grant
  grant-tracked r x =
      ground
        (arith, get-put role r (tokens ++ (reg.next_lease_token ∷ [])) reg.role_leases, h.tracked r)

  grant-preferred :
      (r : Text)
      → preference_is_sound
          (grant reg role provider_id tokens holder).1
          r
          (get r (grant reg role provider_id tokens holder).1.preferred)
        ≡ true
  unfolding grant is_listed
  grant-preferred r = h.preferred_sound r

  grant-IsConsistent : IsConsistent (grant reg role provider_id tokens holder).1
  grant-IsConsistent = record {
    distinct_leases = unfold grant in keys-put-IsNodup _ _ reg.leases h.distinct_leases;
    distinct_preferred = unfold grant in h.distinct_preferred;
    agree = grant-agree;
    distinct_tokens = grant-distinct;
    tracked = λ r x. grant-tracked r (unfold grant in x);
    single = grant-single;
    sound = grant_sound;
    preferred_sound = grant-preferred;
  }

-- The candidate that `acquire` takes is a candidate of the role.
chosen_candidate-is_listed :
    (reg : RoleRegistry) (role : Text) (p : Option Text) {c : RoleCandidate}
    → chosen_candidate reg role p ≡ ok c
    → is_listed reg role c.provider_id ≡ true
unfolding chosen_candidate resolve_candidate
chosen_candidate-is_listed reg role (some provider_id) {c} e =
    let (listed, name) = get_candidate_lem reg role provider_id e in rw name listed
chosen_candidate-is_listed reg role none {c} e = elim (Result-cases (preferred_provider reg role)) [
  | inr (x, k) ↦ absurd (ground arith)
  | inl (none, k) ↦ absurd (ground arith)
  | inl (some provider_id, k) ↦
      let found : get_candidate reg role provider_id ≡ ok c = ground arith in
      let (listed, name) = get_candidate_lem reg role provider_id found in rw name listed
]

pub record IsGrantable (reg : RoleRegistry) (role : Text) (c : RoleCandidate) (tokens : List ℕ)
    : Type 0 where
  pub active : get role reg.role_leases ≡ some tokens
  pub listed : is_listed reg role c.provider_id ≡ true
  pub free : is_exclusive reg role ≡ true → tokens ≡ []

check_conflict-ok :
    (reg : RoleRegistry) (role : Text) (state : RoleState) (tokens : List ℕ)
    → check_conflict reg role state tokens ≡ ok tt
    → state.exclusive ≡ true
    → tokens ≡ []
unfolding check_conflict
check_conflict-ok reg role state [] e x = refl
check_conflict-ok reg role state (t ∷ ts) e x = absurd (ground arith)

pub acquire_checks-IsGrantable :
    (reg : RoleRegistry) (role : Text) (p : Option Text) {c : RoleCandidate} {tokens : List ℕ}
    → acquire_checks reg role p ≡ ok (c, tokens)
    → IsGrantable reg role c tokens
unfolding acquire_checks get_state is_exclusive
acquire_checks-IsGrantable reg role p {c} {tokens} e = elim (Option-cases (get role reg.roles)) [
  | inl n ↦ absurd (ground arith)
  | inr (state, e1) ↦ elim (Result-cases (chosen_candidate reg role p)) [
    | inr (x, n) ↦ absurd (ground arith)
    | inl (candidate, e2) ↦ elim (Option-cases (get role reg.role_leases)) [
      | inl n ↦ absurd (ground arith)
      | inr (active, e3) ↦ elim (Result-cases (check_conflict reg role state active)) [
        | inr (x, n) ↦ absurd (ground arith)
        | inl (u, e4) ↦ ground (
          arith,
          chosen_candidate-is_listed reg role p e2,
          check_conflict-ok reg role state active,
        )
      ]
    ]
  ]
]

-- `acquire` keeps the invariant, whether it grants or raises.
pub acquire-IsConsistent :
    (reg : RoleRegistry) (role : Text) (p holder : Option Text)
    → IsConsistent reg
    → IsConsistent (acquire reg role p holder).1
unfolding acquire
acquire-IsConsistent reg role p holder h = elim (Result-cases (acquire_checks reg role p)) [
  | inr (x, e) ↦ rw (e, acquire) h
  | inl ((c, tokens), e) ↦
      let g = acquire_checks-IsGrantable reg role p e in
      rw (e, acquire)
        (grant-IsConsistent reg h role c.provider_id tokens holder g.active g.listed g.free)
]
