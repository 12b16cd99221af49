-- ===== src/Roles/Stopping.antt =====
-- `release_provider`, which Core calls for a component that stopped: what it releases, exactly.
use msys_core.Common.{
  ℕ, ◌≡◌, refl, sym, subst, Bool, false, not, Option, none, some, List, [], ◌∷◌, map, arith, ◌==◌,
  elem, filter, nat_eq, nat_beq_iff, IsNodup, All, if◌then◌else◌,
}
use msys_core.Common.Result.{ok}
use msys_core.Common.Text.{Text, text_eq, text_beq}
use msys_core.Common.Dict.{Dict, get, keys, values, has-elem-keys}
use msys_core.Roles.Types.{RoleLease, RoleRegistry, lease_beq, lease_beq_refl}
use msys_core.Roles.Leases.{by_lease, release, release_all, release_provider}
use msys_core.Roles.Invariant.{IsConsistent}
use msys_core.Roles.Releasing.{release_stored}

abbrev token_of : RoleLease → ℕ
token_of lease = lease.token

-- Each lease of the list is stored under its token.
abbrev AllStored : Dict ℕ RoleLease → List RoleLease → Type 0
AllStored leases = All (λ lease. get lease.token leases ≡ some lease)

-- A release of one lease leaves those with other tokens stored.
stored_after :
    (before after : Dict ℕ RoleLease) (token : ℕ) (ls : List RoleLease)
    → ((t : ℕ) → get t after ≡ (if token == t then none else get t before))
    → elem token (map token_of ls) ≡ false
    → AllStored before ls
    → AllStored after ls
stored_after before after token [] gone n h = h
stored_after before after token (l ∷ ls) gone n h = (
  ground (arith, gone l.token, h.0, nat_beq_iff token l.token, nat_beq_iff l.token token),
  stored_after before after token ls gone (ground arith) h.1,
)

-- The loop over stored leases with distinct tokens raises nothing and drops just those tokens.
record AllReleased (reg : RoleRegistry) (ls : List RoleLease) : Type 0 where
  returned : (release_all reg ls).0 ≡ ok tt
  consistent : IsConsistent (release_all reg ls).1
  gone :
      (t : ℕ)
      → get t (release_all reg ls).1.leases
        ≡ (if elem t (map token_of ls) then none else get t reg.leases)

release_all_lem :
    (reg : RoleRegistry) (ls : List RoleLease)
    → IsConsistent reg
    → IsNodup (map token_of ls)
    → AllStored reg.leases ls
    → AllReleased reg ls
unfolding release_all
release_all_lem reg [] h n s = record { returned = refl; consistent = h; gone = λ t. refl }
release_all_lem reg (l ∷ ls) h n s =
    let own : not (lease_beq l l) ≡ false = ground (arith, lease_beq_refl l) in
    let (returned, first) = release_stored reg h (by_lease l) l s.0 own in
    let after = (release reg (by_lease l)).1 in
    let stored = stored_after reg.leases after.leases l.token ls first.gone n.0 s.1 in
    let rest = release_all_lem after ls first.consistent n.1 stored in
    record {
      returned = rw (returned, release_all) rest.returned;
      consistent = rw (returned, release_all) rest.consistent;
      gone = λ t. rw (returned, release_all) (ground (arith, rest.gone t, first.gone t));
    }

-- The tokens of the stored leases are the keys under which they are stored.
map-token_of-values :
    (d : Dict ℕ RoleLease)
    → IsNodup (keys d)
    → ((t : ℕ) (l : RoleLease) → get t d ≡ some l → l.token ≡ t)
    → (map token_of (values d) ≡ keys d) × AllStored d (values d)
unfolding get
map-token_of-values [] n own = (refl, tt)
map-token_of-values ((k, v) ∷ d) n own =
    let head : v.token ≡ k = own k v (ground arith) in
    let later =
      map-token_of-values d n.1
        (λ t l e. own t l (ground (arith, has-elem-keys t d, nat_beq_iff k t))) in
    (cc (head, later.0), (ground arith, weaken (values d) (ground (arith, later.0)) later.1))
  where
    -- what is stored in the rest is stored behind an entry with another key
    weaken :
        (ls : List RoleLease)
        → elem k (map token_of ls) ≡ false
        → AllStored d ls
        → AllStored ((k, v) ∷ d) ls
    weaken [] m s = tt
    weaken (l ∷ ls) m s = (ground (arith, nat_beq_iff k l.token, s.0), weaken ls (ground arith) s.1)

abbrev pub held_by : Text → RoleLease → Bool
held_by provider_id lease = text_beq lease.provider_id provider_id

module _ (p : RoleLease → Bool) where
  filter-AllStored :
      (d : Dict ℕ RoleLease) (ls : List RoleLease) → AllStored d ls → AllStored d (filter p ls)
  filter-AllStored d [] s = tt
  filter-AllStored d (l ∷ ls) s = ground (arith, filter-AllStored d ls s.1)

  elem-tokens-filter :
      (t : ℕ) (ls : List RoleLease)
      → elem t (map token_of ls) ≡ false
      → elem t (map token_of (filter p ls)) ≡ false
  elem-tokens-filter t [] h = refl
  elem-tokens-filter t (l ∷ ls) h = ground (arith, elem-tokens-filter t ls)

  tokens-filter-IsNodup :
      (ls : List RoleLease) → IsNodup (map token_of ls) → IsNodup (map token_of (filter p ls))
  tokens-filter-IsNodup [] h = tt
  tokens-filter-IsNodup (l ∷ ls) h =
      ground (arith, tokens-filter-IsNodup ls h.1, elem-tokens-filter l.token ls)

  abbrev passes : Option RoleLease → Bool
  passes none = false
  passes (some l) = p l

  -- A stored lease is among those that pass the test exactly when it passes.
  elem-tokens-matching :
      (d : Dict ℕ RoleLease) (t : ℕ)
      → IsNodup (keys d)
      → ((t : ℕ) (l : RoleLease) → get t d ≡ some l → l.token ≡ t)
      → elem t (map token_of (filter p (values d))) ≡ passes (get t d)
  unfolding get
  elem-tokens-matching [] t n own = refl
  elem-tokens-matching ((k, v) ∷ d) t n own =
      let smaller : (t : ℕ) (l : RoleLease) → get t d ≡ some l → l.token ≡ t =
        λ t l e. own t l (ground (arith, has-elem-keys t d, nat_beq_iff k t)) in
      let head : v.token ≡ k = own k v (ground arith) in
      ground (
        arith,
        elem-tokens-matching d t n.1 smaller,
        has-elem-keys t d,
        nat_beq_iff k t,
        elem-tokens-filter k (values d),
        (map-token_of-values d n.1 smaller).0,
      )

-- What is left of a stored lease when the leases of a provider are dropped.
abbrev pub unless_held : Text → Option RoleLease → Option RoleLease
unless_held provider_id none = none
unless_held provider_id (some l) = if text_beq l.provider_id provider_id then none else some l

module _ (reg : RoleRegistry) (h : IsConsistent reg) (provider_id : Text) where
  own_token : (t : ℕ) (l : RoleLease) → get t reg.leases ≡ some l → l.token ≡ t
  own_token t l e = ground (arith, h.sound t)

  abbrev matching : List RoleLease
  matching = filter (held_by provider_id) (values reg.leases)

  released_matching : AllReleased reg matching
  released_matching =
      let (tokens, stored) = map-token_of-values reg.leases h.distinct_leases own_token in
      release_all_lem reg matching h
        (tokens-filter-IsNodup (held_by provider_id) (values reg.leases)
          (subst IsNodup (sym tokens) h.distinct_leases))
        (filter-AllStored (held_by provider_id) reg.leases (values reg.leases) stored)

  -- On a consistent registry `release_provider` raises nothing, returns the leases of the
  -- provider, leaves none of them, keeps every other lease, and keeps the invariant.
  pub release_provider_lem :
      ((release_provider reg provider_id).0 ≡ ok (filter (held_by provider_id) (values reg.leases)))
      × ((t : ℕ)
          → get t (release_provider reg provider_id).1.leases
            ≡ unless_held provider_id (get t reg.leases))
      × IsConsistent (release_provider reg provider_id).1
  unfolding release_provider
  release_provider_lem =
      let r = released_matching in
      (
        rw (r.returned, release_provider) refl,
        λ t.
            rw (r.returned, release_provider, r.gone t)
              (ground (
                arith,
                elem-tokens-matching (held_by provider_id) reg.leases t h.distinct_leases own_token,
              )),
        rw (r.returned, release_provider) r.consistent,
      )
