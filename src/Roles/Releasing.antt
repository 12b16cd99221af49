-- ===== src/Roles/Releasing.antt =====
-- `release` and `release_provider` keep the invariant of `RoleRegistry`, and find what they drop.
use msys_core.Common.{
  ℕ, ◌≤◌, ◌≡◌, ◌⊎◌, refl, true, false, not, ◌&&◌, none, some, List, [], ◌∷◌, arith, ◌==◌, elem,
  length, nat_eq, IsNodup, if◌then◌else◌, Bool-cases, Option-cases, inl, inr,
}
use msys_core.Common.Result.{ok, err}
use msys_core.Common.Text.{Text, text_eq, text_beq, text_beq_iff}
use msys_core.Common.Dict.{get, put, remove, has, get-put, get-remove, keys-remove-IsNodup}
use msys_core.Roles.Types.{unknown_lease, RoleLease, RoleRegistry}
use msys_core.Roles.Leases.{LeaseRef, ref_token, is_other, remove_first, drop_lease, release}
use msys_core.Roles.Invariant.{
  tokens_of, is_listed, is_exclusive, IsConsistent, lease_has_role, lease_is_sound,
  preference_is_sound,
}

elem-remove_first :
    (t token : ℕ) (ts : List ℕ)
    → IsNodup ts
    → elem t (remove_first token ts) ≡ (elem t ts && not (token == t))
elem-remove_first t token [] h = refl
elem-remove_first t token (x ∷ ts) h = ground (arith, elem-remove_first t token ts)

remove_first-IsNodup : (token : ℕ) (ts : List ℕ) → IsNodup ts → IsNodup (remove_first token ts)
remove_first-IsNodup token [] h = h
remove_first-IsNodup token (x ∷ ts) h =
    ground (arith, elem-remove_first x token ts, remove_first-IsNodup token ts)

length-remove_first : (token : ℕ) (ts : List ℕ) → length (remove_first token ts) ≤ length ts
length-remove_first token [] = omega arith
length-remove_first token (x ∷ ts) = ground (arith, length-remove_first token ts)

-- What `drop_lease` writes where it finds the token.
abbrev dropped : RoleRegistry → ℕ → RoleLease → List ℕ → RoleRegistry
dropped reg token stored tokens = record reg {
  leases = remove token reg.leases;
  role_leases = put stored.role (remove_first token tokens) reg.role_leases;
}

module _ (reg : RoleRegistry) (h : IsConsistent reg) (token : ℕ) (stored : RoleLease)
    (found : get token reg.leases ≡ some stored) where
  -- The role of a stored lease lists its token.
  listed_token :
      (tokens : List ℕ) × (get stored.role reg.role_leases ≡ some tokens)
      × (elem token tokens ≡ true)
  unfolding tokens_of
  listed_token = elim (Option-cases (get stored.role reg.role_leases)) [
    | inl e ↦
        absurd (ground (arith, h.agree stored.role token, text_beq_iff stored.role stored.role))
    | inr (ts, e) ↦
        (ts, e, ground (arith, h.agree stored.role token, text_beq_iff stored.role stored.role))
  ]

  drop_lease-dropped :
      drop_lease reg token stored ≡ (ok stored, dropped reg token stored listed_token.0)
  unfolding drop_lease
  drop_lease-dropped = let (ts, e, m) = listed_token in rw (e, drop_lease, m) refl

  distinct_here : IsNodup listed_token.0
  unfolding tokens_of
  distinct_here = rw listed_token.1 at (h.distinct_tokens stored.role)

  dropped-agree :
      (r : Text) (t : ℕ)
      → elem t (tokens_of (dropped reg token stored listed_token.0) r)
        ≡ lease_has_role r (get t (remove token reg.leases))
  unfolding tokens_of
  dropped-agree r t = ground (
    arith,
    get-put stored.role r (remove_first token listed_token.0) reg.role_leases,
    get-remove token t reg.leases h.distinct_leases,
    elem-remove_first t token listed_token.0 distinct_here,
    h.agree r t,
    listed_token.1,
    found,
    text_beq_iff stored.role r,
  )

  dropped-distinct : (r : Text) → IsNodup (tokens_of (dropped reg token stored listed_token.0) r)
  unfolding tokens_of
  dropped-distinct r = elim (Bool-cases (text_beq stored.role r)) [
    | inl e ↦
        rw (get-put stored.role r, e) (remove_first-IsNodup token listed_token.0 distinct_here)
    | inr e ↦ rw (get-put stored.role r, e) (h.distinct_tokens r)
  ]

  dropped-single :
      (r : Text)
      → is_exclusive (dropped reg token stored listed_token.0) r ≡ true
      → length (tokens_of (dropped reg token stored listed_token.0) r) ≤ 1
  unfolding tokens_of is_exclusive
  dropped-single r x = ground (
    arith,
    get-put stored.role r (remove_first token listed_token.0) reg.role_leases,
    length-remove_first token listed_token.0,
    listed_token.1,
    text_beq_iff stored.role r,
    h.single r,
  )

  dropped_sound :
      (t : ℕ)
      → lease_is_sound (dropped reg token stored listed_token.0) t (get t (remove token reg.leases))
        ≡ true
  unfolding is_listed
  dropped_sound t = ground (arith, get-remove token t reg.leases h.distinct_leases, h.sound t)

  dropped-tracked :
      (r : Text)
      → has r reg.roles ≡ true
      → has r (dropped reg token stored listed_token.0).role_leases ≡ true
  dropped-tracked r x = ground (
    arith,
    get-put stored.role r (remove_first token listed_token.0) reg.role_leases,
    h.tracked r,
  )

  dropped-preferred :
      (r : Text)
      → preference_is_sound (dropped reg token stored listed_token.0) r (get r reg.preferred) ≡ true
  unfolding is_listed
  dropped-preferred r = h.preferred_sound r

  dropped-IsConsistent : IsConsistent (dropped reg token stored listed_token.0)
  dropped-IsConsistent = record {
    distinct_leases = keys-remove-IsNodup token reg.leases h.distinct_leases;
    distinct_preferred = h.distinct_preferred;
    agree = dropped-agree;
    distinct_tokens = dropped-distinct;
    tracked = dropped-tracked;
    single = dropped-single;
    sound = dropped_sound;
    preferred_sound = dropped-preferred;
  }

-- What a successful release leaves: the registry is consistent, and no other lease is touched.
pub record Released (reg : RoleRegistry) (token : ℕ) (after : RoleRegistry) : Type 0 where
  pub consistent : IsConsistent after
  pub gone : (t : ℕ) → get t after.leases ≡ (if token == t then none else get t reg.leases)

module _ (reg : RoleRegistry) (h : IsConsistent reg) (ref : LeaseRef) where
  pub release_stored :
      (stored : RoleLease)
      → get (ref_token ref) reg.leases ≡ some stored
      → is_other ref stored ≡ false
      → ((release reg ref).0 ≡ ok stored) × Released reg (ref_token ref) (release reg ref).1
  unfolding release
  release_stored stored found own =
      rw (found, release, own, drop_lease-dropped reg h (ref_token ref) stored found)
        (
          refl,
          record {
            consistent = dropped-IsConsistent reg h (ref_token ref) stored found;
            gone = λ t. get-remove (ref_token ref) t reg.leases h.distinct_leases;
          },
        )

  -- On a consistent registry `release` either refuses a token that is not leased, or a lease that
  -- is not the stored one, and changes nothing; or it returns the stored lease and takes it, and
  -- no other, out of the registry, which stays consistent. No other exception is raised.
  pub release_outcome :
      ((release reg ref ≡ (err (unknown_lease (ref_token ref)), reg))
        × ((get (ref_token ref) reg.leases ≡ none)
            ⊎ ((stored : RoleLease) × (get (ref_token ref) reg.leases ≡ some stored)
                × (is_other ref stored ≡ true))))
      ⊎ ((stored : RoleLease) × (get (ref_token ref) reg.leases ≡ some stored)
          × (is_other ref stored ≡ false)
          × ((release reg ref).0 ≡ ok stored)
          × Released reg (ref_token ref) (release reg ref).1)
  unfolding release
  release_outcome = elim (Option-cases (get (ref_token ref) reg.leases)) [
    | inl e ↦ inl (rw (e, release) refl, inl e)
    | inr (stored, e) ↦ elim (Bool-cases (is_other ref stored)) [
      | inl other ↦ inl (rw (e, release, other) refl, inr (stored, e, other))
      | inr own ↦
          let (returned, released) = release_stored stored e own in
          inr (stored, e, own, returned, released)
    ]
  ]

  -- `release` keeps the invariant, whether it returns or raises.
  pub release-IsConsistent : IsConsistent (release reg ref).1
  release-IsConsistent = elim release_outcome [
    | inl (e, _) ↦ rw e h
    | inr (stored, e, own, returned, released) ↦ released.consistent
  ]
