-- ===== src/Roles/Order.antt =====
-- The candidate list that `_build_roles` makes of one role, as a whole.
use mathlib.Core.List.{map-append}
use msys_core.Common.{
  ◌≡◌, refl, Bool, true, false, not, ◌&&◌, ◌||◌, List, [], ◌∷◌, ◌++◌, map, arith, elem, filter,
  IsNodup, all, is_some, elem-append,
}
use msys_core.Common.Text.{Text, text_eq, text_beq_iff}
use msys_core.Common.Dict.{Dict, keys, has}
use msys_core.Common.Sorting.{sorted, IsSorted}
use msys_core.Manifest.Types.{Components}
use msys_core.Roles.Types.{RoleCandidate}
use msys_core.Roles.Build.{
  Declared, explicit_candidates, remaining_candidate, remaining_candidates, candidates_of, before,
}
use msys_core.Roles.Catalog.{
  provider_of, precedes, is_ranked_from, elem-explicit, explicit-IsNodup, explicit_ranks,
  explicit-IsSorted, remaining-IsSorted, elem-remaining, remaining-IsNodup,
}

abbrev is_unranked : RoleCandidate → Bool
is_unranked c = not (is_some c.profile_rank)

unranked-remaining :
    (role : Text) (xs : List (Text × Declared))
    → all is_unranked (map (remaining_candidate role) xs) ≡ true
unfolding remaining_candidate
unranked-remaining role [] = refl
unranked-remaining role ((a, (p, b)) ∷ xs) = unranked-remaining role xs

remaining-unranked :
    (role : Text) (metadata : Dict Text Declared) (seen : List Text)
    → all is_unranked (remaining_candidates role metadata seen) ≡ true
unfolding remaining_candidates
remaining-unranked role metadata seen =
    unranked-remaining role (sorted before (filter (λ item. not (elem item.0 seen)) metadata))

-- A ranked candidate precedes each that has no rank.
ranked-precedes-unranked :
    (c : RoleCandidate) (ys : List RoleCandidate)
    → is_ranked_from 0 c.profile_rank ≡ true
    → all is_unranked ys ≡ true
    → all (precedes c) ys ≡ true
unfolding precedes
ranked-precedes-unranked c [] r h = refl
ranked-precedes-unranked c (y ∷ ys) r h = ground (arith, ranked-precedes-unranked c ys)

all-append :
    (p : RoleCandidate → Bool) (xs ys : List RoleCandidate)
    → all p xs ≡ true
    → all p ys ≡ true
    → all p (xs ++ ys) ≡ true
all-append p [] ys h k = k
all-append p (x ∷ xs) ys h k = ground (arith, all-append p xs ys)

append-IsSorted :
    (xs ys : List RoleCandidate)
    → IsSorted precedes xs
    → IsSorted precedes ys
    → all (λ c. is_ranked_from 0 c.profile_rank) xs ≡ true
    → all is_unranked ys ≡ true
    → IsSorted precedes (xs ++ ys)
append-IsSorted [] ys h k r u = k
append-IsSorted (x ∷ xs) ys h k r u = (
  all-append (precedes x) xs ys h.0 (ranked-precedes-unranked x ys (ground arith) u),
  append-IsSorted xs ys h.1 k (ground arith) u,
)

append-IsNodup :
    (xs ys : List Text)
    → IsNodup xs
    → IsNodup ys
    → ((t : Text) → elem t xs ≡ true → elem t ys ≡ false)
    → IsNodup (xs ++ ys)
append-IsNodup [] ys h k apart = k
append-IsNodup (x ∷ xs) ys h k apart = (
  ground (arith, elem-append x xs ys, apart x, text_beq_iff x x),
  append-IsNodup xs ys h.1 k (λ t m. apart t (ground arith)),
)

module _ (components : Components) (role : Text) (metadata : Dict Text Declared)
    (ids : List Text) where
  -- The ids that the profile lists come first, in its order and each at its first place; then the
  -- other declared components, by descending priority and then by id.
  pub candidates_of-IsSorted : IsSorted precedes (candidates_of components role metadata ids)
  unfolding candidates_of
  candidates_of-IsSorted =
      append-IsSorted _ _ (explicit-IsSorted components role metadata 0 [] ids)
        (remaining-IsSorted components role metadata _)
        (explicit_ranks components role metadata 0 0 [] ids (omega arith))
        (remaining-unranked role metadata _)

  -- The candidates are the installed components that the profile lists, and the components that
  -- declare the role.
  pub elem-candidates_of :
      (pid : Text)
      → elem pid (map provider_of (candidates_of components role metadata ids))
        ≡ ((elem pid ids && has pid components) || has pid metadata)
  unfolding candidates_of
  elem-candidates_of pid = rw map-append (
      ground (
        arith,
        elem-append pid (map provider_of (explicit_candidates components role metadata 0 [] ids)) (
            map provider_of (
              remaining_candidates role metadata
                (map provider_of (explicit_candidates components role metadata 0 [] ids)))),
        elem-explicit components role metadata pid 0 [] ids,
        elem-remaining components role metadata pid
            (map provider_of (explicit_candidates components role metadata 0 [] ids)),
      ))

  -- No component is a candidate twice.
  pub candidates_of-IsNodup :
      IsNodup (keys metadata)
      → IsNodup (map provider_of (candidates_of components role metadata ids))
  unfolding candidates_of
  candidates_of-IsNodup h = rw map-append (
      append-IsNodup _ _ (explicit-IsNodup components role metadata 0 [] ids)
        (remaining-IsNodup components role metadata _ h)
        (λ t m. ground (
          arith,
          elem-remaining components role metadata t
              (map provider_of (explicit_candidates components role metadata 0 [] ids)),
        )))
