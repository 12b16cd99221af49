-- ===== src/Common/Sorting.antt =====
-- Python's `sorted`: stable, by a Boolean order on the elements.
use mathlib.Core.Path.{◌≡◌, refl, sym, ap, ◌∙◌}
use mathlib.Core.Bool.{Bool, true, false, ◌||◌}
use mathlib.Core.List.{List, [], ◌∷◌, map, map-id}
use native.Mathlib.Omega.{arith}
use msys_core.Common.Tests.{PyEq, ◌==◌, if◌then◌else◌}
use msys_core.Common.Lists.{all, elem, IsNodup}

module _ {ℓ} {A : Type ℓ} (le : A → A → Bool) where
  unfoldable pub insert_sorted : A → List A → List A
  insert_sorted a [] = a ∷ []
  insert_sorted a (x ∷ xs) = if le a x then a ∷ x ∷ xs else x ∷ insert_sorted a xs

  -- Elements are inserted from the right, before those that are equal: a stable sort.
  unfoldable pub sorted : List A → List A
  unfolding insert_sorted
  sorted [] = []
  sorted (x ∷ xs) = insert_sorted x (sorted xs)

  -- Each element is in order with each later one.
  abbrev pub IsSorted : List A → Type 0
  IsSorted [] = Unit
  IsSorted (x ∷ xs) = (all (le x) xs ≡ true) × IsSorted xs

  module _ (total : (x y : A) → le x y ≡ false → le y x ≡ true)
      (trans : (x y z : A) → le x y ≡ true → le y z ≡ true → le x z ≡ true) where
    all_mono : (a x : A) (xs : List A) → le a x ≡ true → all (le x) xs ≡ true → all (le a) xs ≡ true
    all_mono a x [] p q = refl
    all_mono a x (y ∷ xs) p q = ground (arith, trans a x y, all_mono a x xs)

    all-insert_sorted :
        (x a : A) (xs : List A)
        → le x a ≡ true
        → all (le x) xs ≡ true
        → all (le x) (insert_sorted a xs) ≡ true
    unfolding insert_sorted
    all-insert_sorted x a [] p q = ground arith
    all-insert_sorted x a (y ∷ xs) p q = ground (arith, all-insert_sorted x a xs)

    insert_sorted-IsSorted : (a : A) (xs : List A) → IsSorted xs → IsSorted (insert_sorted a xs)
    unfolding insert_sorted
    insert_sorted-IsSorted a [] h = (refl, tt)
    insert_sorted-IsSorted a (x ∷ xs) h = ground (
      arith,
      total a x,
      all_mono a x xs,
      all-insert_sorted x a xs,
      insert_sorted-IsSorted a xs h.1,
    )

    pub sorted-IsSorted : (xs : List A) → IsSorted (sorted xs)
    unfolding sorted
    sorted-IsSorted [] = tt
    sorted-IsSorted (x ∷ xs) = insert_sorted-IsSorted x (sorted xs) (sorted-IsSorted xs)

  module _ {κ} {B : Type κ} ⦃e : PyEq B⦄ (f : A → B) where
    pub elem-map-insert_sorted :
        (b : B) (a : A) (xs : List A)
        → elem b (map f (insert_sorted a xs)) ≡ (f a == b || elem b (map f xs))
    unfolding insert_sorted
    elem-map-insert_sorted b a [] = refl
    elem-map-insert_sorted b a (x ∷ xs) = ground (arith, elem-map-insert_sorted b a xs)

    -- A sort keeps the elements, and their keys.
    pub elem-map-sorted : (b : B) (xs : List A) → elem b (map f (sorted xs)) ≡ elem b (map f xs)
    unfolding sorted
    elem-map-sorted b [] = refl
    elem-map-sorted b (x ∷ xs) =
        ground (arith, elem-map-insert_sorted b x (sorted xs), elem-map-sorted b xs)

    insert_sorted-IsNodup :
        (a : A) (xs : List A)
        → elem (f a) (map f xs) ≡ false
        → IsNodup (map f xs)
        → IsNodup (map f (insert_sorted a xs))
    unfolding insert_sorted
    insert_sorted-IsNodup a [] p h = (refl, tt)
    insert_sorted-IsNodup a (x ∷ xs) p h = ground (
      arith,
      elem-map-insert_sorted (f x) a xs,
      e.same_iff (f a) (f x),
      e.same_iff (f x) (f a),
      insert_sorted-IsNodup a xs,
    )

    pub sorted-IsNodup : (xs : List A) → IsNodup (map f xs) → IsNodup (map f (sorted xs))
    unfolding sorted
    sorted-IsNodup [] h = tt
    sorted-IsNodup (x ∷ xs) h =
        insert_sorted-IsNodup x (sorted xs) (ground (arith, elem-map-sorted (f x) xs))
          (sorted-IsNodup xs h.1)

pub elem-sorted {ℓ} :
    {A : Type ℓ} ⦃e : PyEq A⦄ (le : A → A → Bool) (a : A) (xs : List A)
    → elem a (sorted le xs) ≡ elem a xs
elem-sorted le a xs =
    ap (elem a) (sym (map-id (sorted le xs)))
    ∙ elem-map-sorted le (λ x. x) a xs
    ∙ ap (elem a) (map-id xs)
