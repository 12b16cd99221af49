-- ===== src/Roles/Invariant.antt =====
-- The invariant of `RoleRegistry`, and that every method keeps it.
use msys_core.Common.{
  ℕ, ◌≤◌, ◌≡◌, Bool, true, false, ◌&&◌, Option, none, some, List, [], ◌∷◌, arith, elem, length, any,
  find, nat_eq, nat_beq, ltb, IsNodup, Option-cases, inl, inr,
}
use msys_core.Common.Result.{Result-cases, ok}
use msys_core.Common.Text.{Text, text_eq, text_beq, text_beq_iff}
use msys_core.Common.Dict.{
  get, put, remove, keys, has, get-put, get-remove, keys-put-IsNodup, keys-remove-IsNodup,
}
use msys_core.Roles.Types.{RoleCandidate, RoleLease, RoleState, RoleRegistry}
use msys_core.Roles.Registry.{
  get_state, is_provider, get_candidate, select_preferred, reset_preferred,
}

-- The tokens that stand for a role, as the registry lists them.
abbrev pub tokens_or_none : Option (List ℕ) → List ℕ
tokens_or_none none = []
tokens_or_none (some ts) = ts

unfoldable pub tokens_of : RoleRegistry → Text → List ℕ
tokens_of reg role = tokens_or_none (get role reg.role_leases)

abbrev pub lease_has_role : Text → Option RoleLease → Bool
lease_has_role role none = false
lease_has_role role (some lease) = text_beq lease.role role

abbrev pub lists : Text → Option RoleState → Bool
lists provider_id none = false
lists provider_id (some state) = any (is_provider provider_id) state.candidates

-- The component is a candidate for the role.
unfoldable pub is_listed : RoleRegistry → Text → Text → Bool
is_listed reg role provider_id = lists provider_id (get role reg.roles)

abbrev pub exclusive_or_none : Option RoleState → Bool
exclusive_or_none none = false
exclusive_or_none (some state) = state.exclusive

unfoldable pub is_exclusive : RoleRegistry → Text → Bool
is_exclusive reg role = exclusive_or_none (get role reg.roles)

abbrev pub lease_is_sound : RoleRegistry → ℕ → Option RoleLease → Bool
lease_is_sound reg token none = true
lease_is_sound reg token (some lease) =
    nat_beq lease.token token
    && ltb token reg.next_lease_token
    && is_listed reg lease.role lease.provider_id

abbrev pub preference_is_sound : RoleRegistry → Text → Option Text → Bool
preference_is_sound reg role none = true
preference_is_sound reg role (some provider_id) = is_listed reg role provider_id

pub record IsConsistent (reg : RoleRegistry) : Type 0 where
  -- no lease and no preference is stored twice
  pub distinct_leases : IsNodup (keys reg.leases)
  pub distinct_preferred : IsNodup (keys reg.preferred)
  -- a role lists a token exactly when a lease of the role is stored under it, and once
  pub agree :
      (role : Text) (token : ℕ)
      → elem token (tokens_of reg role) ≡ lease_has_role role (get token reg.leases)
  pub distinct_tokens : (role : Text) → IsNodup (tokens_of reg role)
  -- each role of the catalog has its list of tokens
  pub tracked : (role : Text) → has role reg.roles ≡ true → has role reg.role_leases ≡ true
  -- an exclusive role has one lease at most
  pub single : (role : Text) → is_exclusive reg role ≡ true → length (tokens_of reg role) ≤ 1
  -- a lease has its own token, an old one, and is held by a candidate of its role
  pub sound : (token : ℕ) → lease_is_sound reg token (get token reg.leases) ≡ true
  -- a preferred component is a candidate
  pub preferred_sound : (role : Text) → preference_is_sound reg role (get role reg.preferred) ≡ true

any_of_find :
    (p : RoleCandidate → Bool) (cs : List RoleCandidate) (c : RoleCandidate)
    → find p cs ≡ some c
    → (any p cs ≡ true) × (p c ≡ true)
any_of_find p [] c h = cc
any_of_find p (x ∷ cs) c h = ground (arith, any_of_find p cs c)

-- A candidate that `get_candidate` returns is listed, under the name asked for.
pub get_candidate_lem :
    (reg : RoleRegistry) (role provider_id : Text) {c : RoleCandidate}
    → get_candidate reg role provider_id ≡ ok c
    → (is_listed reg role provider_id ≡ true) × (c.provider_id ≡ provider_id)
unfolding get_candidate is_listed
get_candidate_lem reg role provider_id {c} h = elim (Option-cases (get role reg.roles)) [
  | inl e ↦ absurd (ground arith)
  | inr (s, e) ↦ elim (Option-cases (find (is_provider provider_id) s.candidates)) [
    | inl n ↦ absurd (ground arith)
    | inr (x, f) ↦ ground (
      arith,
      any_of_find (is_provider provider_id) s.candidates x f,
      text_beq_iff x.provider_id provider_id,
    )
  ]
]

module _ (reg : RoleRegistry) (h : IsConsistent reg) where
  prefer-IsConsistent :
      (role provider_id : Text)
      → is_listed reg role provider_id ≡ true
      → IsConsistent (record reg { preferred = put role provider_id reg.preferred })
  unfolding is_listed tokens_of is_exclusive
  prefer-IsConsistent role provider_id listed = record {
    distinct_leases = h.distinct_leases;
    distinct_preferred = keys-put-IsNodup role provider_id reg.preferred h.distinct_preferred;
    agree = h.agree;
    distinct_tokens = h.distinct_tokens;
    tracked = h.tracked;
    single = h.single;
    sound = h.sound;
    preferred_sound = λ r.
        rw (get-put role r provider_id reg.preferred)
          (ground (arith, text_beq_iff role r, h.preferred_sound r));
  }

  forget-IsConsistent :
      (role : Text) → IsConsistent (record reg { preferred = remove role reg.preferred })
  unfolding is_listed tokens_of is_exclusive
  forget-IsConsistent role = record {
    distinct_leases = h.distinct_leases;
    distinct_preferred = keys-remove-IsNodup role reg.preferred h.distinct_preferred;
    agree = h.agree;
    distinct_tokens = h.distinct_tokens;
    tracked = h.tracked;
    single = h.single;
    sound = h.sound;
    preferred_sound = λ r.
        rw (get-remove role r reg.preferred h.distinct_preferred)
          (ground (arith, h.preferred_sound r));
  }

  pub select_preferred-IsConsistent :
      (role provider_id : Text) → IsConsistent (select_preferred reg role provider_id).1
  unfolding select_preferred
  select_preferred-IsConsistent role provider_id =
      elim (Result-cases (get_candidate reg role provider_id)) [
        | inl (c, e) ↦
            rw (e, select_preferred)
              (prefer-IsConsistent role provider_id (get_candidate_lem reg role provider_id e).0)
        | inr (x, e) ↦ rw (e, select_preferred) h
      ]

  pub reset_preferred-IsConsistent : (role : Text) → IsConsistent (reset_preferred reg role).1
  unfolding reset_preferred
  reset_preferred-IsConsistent role = elim (Result-cases (get_state reg role)) [
    | inl (s, e) ↦ rw (e, reset_preferred) (forget-IsConsistent role)
    | inr (x, e) ↦ rw (e, reset_preferred) h
  ]
