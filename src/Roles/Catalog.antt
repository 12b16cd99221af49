-- ===== src/Roles/Catalog.antt =====
-- The candidate list of a role: who is in it, once, and in which order.
use msys_core.Common.{
  ℕ, suc, ◌≤◌, ◌≡◌, refl, ap, ◌∙◌, Bool, true, false, not, ◌&&◌, ◌||◌, Option, none, some, List, [],
  ◌∷◌, map, arith, elem, filter, IsNodup, all, leb, ltb, Bool-cases, inl, inr,
}
use msys_core.Common.Int.{ltb_ℤ, ℤ_beq}
use msys_core.Common.Text.{Text, text_eq, text_beq_iff, text_leb, text_leb_total, text_leb_trans}
use msys_core.Common.Dict.{Dict, get, keys, has, has-elem-keys}
use msys_core.Common.Sorting.{IsSorted, sorted-IsSorted, elem-map-sorted, sorted-IsNodup}
use msys_core.Manifest.Types.{Components}
use msys_core.Roles.Types.{RoleCandidate}
use msys_core.Roles.Build.{
  Declared, explicit_candidate, explicit_candidates, before, remaining_candidate,
  remaining_candidates,
}

abbrev pub provider_of : RoleCandidate → Text
provider_of c = c.provider_id

-- `a` comes before `b`: candidates that the profile ranks, by rank; then the others by descending
-- priority and by id.
abbrev pub ranked_before : Option ℕ → Option ℕ → Bool → Bool
ranked_before (some i) (some j) tie = ltb i j
ranked_before (some i) none tie = true
ranked_before none (some j) tie = false
ranked_before none none tie = tie

unfoldable pub precedes : RoleCandidate → RoleCandidate → Bool
precedes a b = ranked_before a.profile_rank b.profile_rank (
    ltb_ℤ b.priority a.priority
    || ℤ_beq a.priority b.priority && text_leb a.provider_id b.provider_id)

before_total : (x y : Text × Declared) → before x y ≡ false → before y x ≡ true
unfolding before
before_total (a, (p, _)) (b, (q, _)) h = ground (arith, text_leb_total a b)

before_trans : (x y z : Text × Declared) → before x y ≡ true → before y z ≡ true → before x z ≡ true
unfolding before
before_trans (a, (p, _)) (b, (q, _)) (c, (r, _)) h k = ground (arith, text_leb_trans a b c)

-- Ranked at a position or later.
abbrev pub is_ranked_from : ℕ → Option ℕ → Bool
is_ranked_from k none = false
is_ranked_from k (some i) = leb k i

-- An explicit candidate precedes those that are ranked later, and each that has no rank.
ranked_later :
    (c : RoleCandidate) (rank : ℕ) (cs : List RoleCandidate)
    → c.profile_rank ≡ some rank
    → all (λ d. is_ranked_from (suc rank) d.profile_rank) cs ≡ true
    → all (precedes c) cs ≡ true
unfolding precedes
ranked_later c rank [] r h = refl
ranked_later c rank (d ∷ cs) r h = ground (arith, ranked_later c rank cs)

all-precedes-remaining :
    (role : Text) (x : Text × Declared) (xs : List (Text × Declared))
    → all (before x) xs ≡ true
    → all (precedes (remaining_candidate role x)) (map (remaining_candidate role) xs) ≡ true
unfolding precedes before remaining_candidate
all-precedes-remaining role (a, (p, b)) [] h = refl
all-precedes-remaining role (a, (p, b)) ((a', (p', b')) ∷ xs) h =
    ground (arith, all-precedes-remaining role (a, (p, b)) xs)

map-IsSorted :
    (role : Text) (xs : List (Text × Declared))
    → IsSorted before xs
    → IsSorted precedes (map (remaining_candidate role) xs)
map-IsSorted role [] h = tt
map-IsSorted role (x ∷ xs) h = (all-precedes-remaining role x xs h.0, map-IsSorted role xs h.1)

abbrev name_of : Text × Declared → Text
name_of item = item.0

providers-remaining :
    (role : Text) (xs : List (Text × Declared))
    → map provider_of (map (remaining_candidate role) xs) ≡ map name_of xs
unfolding remaining_candidate
providers-remaining role [] = refl
providers-remaining role ((a, (p, b)) ∷ xs) = ap (◌∷◌ a) (providers-remaining role xs)

elem-map-filter :
    (pid : Text) (seen : List Text) (d : Dict Text Declared)
    → elem pid (map name_of (filter (λ item. not (elem item.0 seen)) d))
      ≡ (has pid d && not (elem pid seen))
unfolding get
elem-map-filter pid seen [] = refl
elem-map-filter pid seen ((k, v) ∷ d) =
    ground (arith, text_beq_iff k pid, elem-map-filter pid seen d)

filter-names-IsNodup :
    (seen : List Text) (d : Dict Text Declared)
    → IsNodup (keys d)
    → IsNodup (map name_of (filter (λ item. not (elem item.0 seen)) d))
filter-names-IsNodup seen [] h = tt
filter-names-IsNodup seen ((k, v) ∷ d) h =
    ground (arith, filter-names-IsNodup seen d h.1, elem-map-filter k seen d, has-elem-keys k d)

module _ (components : Components) (role : Text) (metadata : Dict Text Declared) where
  pub elem-explicit :
      (pid : Text) (rank : ℕ) (seen ids : List Text)
      → elem pid (map provider_of (explicit_candidates components role metadata rank seen ids))
        ≡ (elem pid ids && has pid components && not (elem pid seen))
  unfolding explicit_candidates
  elem-explicit pid rank seen [] = refl
  elem-explicit pid rank seen (i ∷ ids) = ground (
    arith,
    text_beq_iff i pid,
    elem-explicit pid (suc rank) seen ids,
    elem-explicit pid (suc rank) (i ∷ seen) ids,
  )

  pub explicit-IsNodup :
      (rank : ℕ) (seen ids : List Text)
      → IsNodup (map provider_of (explicit_candidates components role metadata rank seen ids))
  unfolding explicit_candidates
  explicit-IsNodup rank seen [] = tt
  explicit-IsNodup rank seen (i ∷ ids) = ground (
    arith,
    text_beq_iff i i,
    elem-explicit i (suc rank) (i ∷ seen) ids,
    explicit-IsNodup (suc rank) seen ids,
    explicit-IsNodup (suc rank) (i ∷ seen) ids,
  )

  pub explicit_ranks :
      (k rank : ℕ) (seen ids : List Text)
      → k ≤ rank
      → all
          (λ c. is_ranked_from k c.profile_rank)
          (explicit_candidates components role metadata rank seen ids)
        ≡ true
  unfolding explicit_candidates
  explicit_ranks k rank seen [] h = refl
  explicit_ranks k rank seen (i ∷ ids) h =
      ground
        (arith, explicit_ranks k (suc rank) seen ids, explicit_ranks k (suc rank) (i ∷ seen) ids)

  pub explicit-IsSorted :
      (rank : ℕ) (seen ids : List Text)
      → IsSorted precedes (explicit_candidates components role metadata rank seen ids)
  unfolding explicit_candidates
  explicit-IsSorted rank seen [] = tt
  explicit-IsSorted rank seen (i ∷ ids) =
      elim (Bool-cases (elem i seen || not (has i components))) [
        | inl e ↦ rw (e, explicit_candidates) (explicit-IsSorted (suc rank) seen ids)
        | inr e ↦
            rw (e, explicit_candidates)
              (
                ranked_later (explicit_candidate role i rank (get i metadata)) rank _
                    (unfold explicit_candidate in refl)
                    (explicit_ranks (suc rank) (suc rank) (i ∷ seen) ids (omega arith)),
                explicit-IsSorted (suc rank) (i ∷ seen) ids,
              )
      ]

  pub remaining-IsSorted :
      (seen : List Text) → IsSorted precedes (remaining_candidates role metadata seen)
  unfolding remaining_candidates
  remaining-IsSorted seen = map-IsSorted role _ (
      sorted-IsSorted before before_total before_trans
        (filter (λ item. not (elem item.0 seen)) metadata))

  pub elem-remaining :
      (pid : Text) (seen : List Text)
      → elem pid (map provider_of (remaining_candidates role metadata seen))
        ≡ (has pid metadata && not (elem pid seen))
  unfolding remaining_candidates
  elem-remaining pid seen = rw providers-remaining (
      elem-map-sorted before name_of pid (filter (λ item. not (elem item.0 seen)) metadata)
      ∙ elem-map-filter pid seen metadata)

  pub remaining-IsNodup :
      (seen : List Text)
      → IsNodup (keys metadata)
      → IsNodup (map provider_of (remaining_candidates role metadata seen))
  unfolding remaining_candidates
  remaining-IsNodup seen h = rw providers-remaining (
      sorted-IsNodup before name_of (filter (λ item. not (elem item.0 seen)) metadata)
        (filter-names-IsNodup seen metadata h))
