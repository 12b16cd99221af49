-- ===== src/Roles/Ranks.antt =====
-- The candidates of a role, one by one: the rank of each is its place in the profile's ids, and its
-- priority is the one that is declared for it.
use msys_core.Common.{
  ℕ, suc, ◌≡◌, refl, ◌∙◌, Bool, true, false, not, ◌||◌, Option, none, some, List, [], ◌∷◌, ◌++◌,
  map, arith, elem, filter, All, IsNodup, is_some, if◌then◌else◌, Bool-cases, inl, inr,
}
use msys_core.Common.Text.{Text, text_eq, text_beq, text_beq_iff}
use msys_core.Common.Dict.{Dict, get, keys, has, has-elem-keys}
use msys_core.Common.Sorting.{insert_sorted, sorted}
use msys_core.Manifest.Types.{Components}
use msys_core.Roles.Types.{RoleCandidate}
use msys_core.Roles.Build.{
  Declared, priority_of, exclusive_of, explicit_candidate, explicit_candidates, before,
  remaining_candidate, remaining_candidates, candidates_of,
}
use msys_core.Roles.Catalog.{provider_of, elem-explicit}

-- The first place of an id, counted from a number.
unfoldable pub index_from : ℕ → Text → List Text → Option ℕ
index_from k pid [] = none
index_from k pid (i ∷ ids) = if text_beq i pid then some k else index_from (suc k) pid ids

module _ {ℓ κ μ} {A : Type ℓ} {P : A → Type κ} where
  pub All-map : {Q : A → Type μ} → ((x : A) → P x → Q x) → (xs : List A) → All P xs → All Q xs
  All-map f [] h = tt
  All-map f (x ∷ xs) h = (f x h.0, All-map f xs h.1)

module _ {ℓ κ} {A : Type ℓ} (P : A → Type κ) where
  All-append : (xs ys : List A) → All P xs → All P ys → All P (xs ++ ys)
  All-append [] ys h k = k
  All-append (x ∷ xs) ys h k = (h.0, All-append xs ys h.1 k)

  All-filter : (p : A → Bool) (xs : List A) → All P xs → All (λ x. P x × (p x ≡ true)) (filter p xs)
  All-filter p [] h = tt
  All-filter p (x ∷ xs) h = elim (Bool-cases (p x)) [
    | inl e ↦ rw (e) ((h.0, e), All-filter p xs h.1)
    | inr e ↦ rw (e) (All-filter p xs h.1)
  ]

  All-insert_sorted :
      (le : A → A → Bool) (a : A) (xs : List A) → P a → All P xs → All P (insert_sorted le a xs)
  unfolding insert_sorted
  All-insert_sorted le a [] p h = (p, tt)
  All-insert_sorted le a (x ∷ xs) p h = elim (Bool-cases (le a x)) [
    | inl e ↦ rw (e, insert_sorted) (p, h)
    | inr e ↦ rw (e, insert_sorted) (h.0, All-insert_sorted le a xs p h.1)
  ]

  All-sorted : (le : A → A → Bool) (xs : List A) → All P xs → All P (sorted le xs)
  unfolding sorted
  All-sorted le [] h = tt
  All-sorted le (x ∷ xs) h = All-insert_sorted le x (sorted le xs) h.0 (All-sorted le xs h.1)

index_from-absent :
    (k : ℕ) (pid : Text) (ids : List Text) → elem pid ids ≡ false → index_from k pid ids ≡ none
unfolding index_from
index_from-absent k pid [] h = refl
index_from-absent k pid (i ∷ ids) h = ground (arith, index_from-absent (suc k) pid ids)

-- An item of a dictionary is what its key finds.
get-items : (d : Dict Text Declared) → IsNodup (keys d) → All (λ item. get item.0 d ≡ some item.1) d
unfolding get
get-items [] h = tt
get-items ((k, v) ∷ d) h = (
  ground (arith, text_beq_iff k k),
  All-map (λ item e. ground (arith, text_beq_iff k item.0, has-elem-keys k d)) d (get-items d h.1),
)

module _ (components : Components) (role : Text) where
  -- The candidate that a component is for the role: `declared` is what its manifest says, `ids` what
  -- the profile lists.
  unfoldable pub candidate_for : (Text → Option Declared) → ℕ → List Text → Text → RoleCandidate
  candidate_for declared k ids pid = record {
    role = role;
    provider_id = pid;
    priority = priority_of (declared pid);
    exclusive = exclusive_of (declared pid);
    profile_rank = if has pid components then index_from k pid ids else none;
    declared = is_some (declared pid);
  }

  candidate_for-later :
      (declared : Text → Option Declared) (k : ℕ) (i : Text) (ids : List Text) (pid : Text)
      → text_beq i pid ≡ false
      → candidate_for declared (suc k) ids pid ≡ candidate_for declared k (i ∷ ids) pid
  unfolding candidate_for index_from
  candidate_for-later declared k i ids pid e = rw (e) refl

  pub candidate_for-declared :
      (declared other : Text → Option Declared) (k : ℕ) (ids : List Text) (pid : Text)
      → declared pid ≡ other pid
      → candidate_for declared k ids pid ≡ candidate_for other k ids pid
  unfolding candidate_for
  candidate_for-declared declared other k ids pid e = rw (e) refl

  candidate_for-first :
      (declared : Text → Option Declared) (k : ℕ) (i : Text) (ids : List Text)
      → has i components ≡ true
      → explicit_candidate role i k (declared i) ≡ candidate_for declared k (i ∷ ids) i
  unfolding candidate_for index_from explicit_candidate
  candidate_for-first declared k i ids h = rw (h, (text_beq_iff i i).1 refl) refl

  module _ (metadata : Dict Text Declared) where
    abbrev found : Text → Option Declared
    found pid = get pid metadata

    record IsExplicit (k : ℕ) (seen ids : List Text) (c : RoleCandidate) : Type 0 where
      unseen : elem c.provider_id seen ≡ false
      installed : has c.provider_id components ≡ true
      as_listed : c ≡ candidate_for found k ids c.provider_id

    later :
        (before after : List Text) (i : Text) (ids : List Text) (k : ℕ) (c : RoleCandidate)
        → IsExplicit (suc k) before ids c
        → text_beq i c.provider_id ≡ false
        → elem c.provider_id after ≡ false
        → IsExplicit k after (i ∷ ids) c
    later before after i ids k c h e f = record {
      unseen = f;
      installed = h.installed;
      as_listed = h.as_listed ∙ candidate_for-later found k i ids c.provider_id e;
    }

    first :
        (seen : List Text) (i : Text) (ids : List Text) (k : ℕ)
        → elem i seen ≡ false
        → has i components ≡ true
        → IsExplicit k seen (i ∷ ids) (explicit_candidate role i k (get i metadata))
    unfolding explicit_candidate
    first seen i ids k e h = record {
      unseen = e;
      installed = h;
      as_listed = candidate_for-first found k i ids h;
    }

    explicit-IsExplicit :
        (k : ℕ) (seen ids : List Text)
        → All (IsExplicit k seen ids) (explicit_candidates components role metadata k seen ids)
    unfolding explicit_candidates
    explicit-IsExplicit k seen [] = tt
    explicit-IsExplicit k seen (i ∷ ids) =
        elim (Bool-cases (elem i seen || not (has i components))) [
          | inl e ↦
              rw (e, explicit_candidates)
                (All-map
                  (λ c h.
                    later seen seen i ids k c h
                      (ground (arith, text_beq_iff i c.provider_id, h.unseen, h.installed))
                      h.unseen)
                  (explicit_candidates components role metadata (suc k) seen ids)
                  (explicit-IsExplicit (suc k) seen ids))
          | inr e ↦
              rw (e, explicit_candidates)
                (
                  first seen i ids k (ground arith) (ground arith),
                  All-map
                      (λ c h.
                        later (i ∷ seen) seen i ids k c h (ground (arith, h.unseen))
                          (ground (arith, h.unseen)))
                      (explicit_candidates components role metadata (suc k) (i ∷ seen) ids)
                      (explicit-IsExplicit (suc k) (i ∷ seen) ids),
                )
        ]

    module _ (ids : List Text) where
      abbrev listed : List Text
      listed = map provider_of (explicit_candidates components role metadata 0 [] ids)

      abbrev unlisted : List (Text × Declared)
      unlisted = filter (λ item. not (elem item.0 listed)) metadata

      -- A candidate is what the declarations and the profile say of its component.
      abbrev AsListed : RoleCandidate → Type 0
      AsListed c = c ≡ candidate_for found 0 ids c.provider_id

      -- A component that the profile does not list, or that is not installed, has no rank.
      remaining-as_listed :
          (item : Text × Declared)
          → (get item.0 metadata ≡ some item.1) × (elem item.0 listed ≡ false)
          → remaining_candidate role item ≡ candidate_for found 0 ids item.0
      unfolding candidate_for remaining_candidate
      remaining-as_listed (pid, (priority, exclusive)) (e, f) =
          let unranked : (if has pid components then index_from 0 pid ids else none) ≡ none =
            ground (
              arith,
              elem-explicit components role metadata pid 0 [] ids,
              index_from-absent 0 pid ids,
              f,
            ) in
          rw (e, unranked) refl

      remaining-All :
          (items : List (Text × Declared))
          → All (λ item. (get item.0 metadata ≡ some item.1) × (elem item.0 listed ≡ false)) items
          → All AsListed (map (remaining_candidate role) items)
      unfolding remaining_candidate
      remaining-All [] h = tt
      remaining-All ((pid, (priority, exclusive)) ∷ xs) h =
          (remaining-as_listed (pid, (priority, exclusive)) h.0, remaining-All xs h.1)

      pub candidates_of-All :
          IsNodup (keys metadata) → All AsListed (candidates_of components role metadata ids)
      unfolding candidates_of remaining_candidates
      candidates_of-All n =
          All-append AsListed (explicit_candidates components role metadata 0 [] ids)
            (map (remaining_candidate role) (sorted before unlisted))
            (All-map (λ c h. h.as_listed) (explicit_candidates components role metadata 0 [] ids)
              (explicit-IsExplicit 0 [] ids))
            (remaining-All (sorted before unlisted) (
              All-sorted
                (λ item. (get item.0 metadata ≡ some item.1) × (elem item.0 listed ≡ false)) before
                unlisted
                (All-map (λ item h. (h.0, ground (arith, h.1))) unlisted
                  (All-filter (λ item. get item.0 metadata ≡ some item.1)
                    (λ item. not (elem item.0 listed)) metadata (get-items metadata n)))))
