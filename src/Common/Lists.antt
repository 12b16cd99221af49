-- ===== src/Common/Lists.antt =====
-- Lists measured by native numbers, under the library's names, and Python's `in` and `any`.
use Prim.Native.Nat.{ℕ, suc, ◌+◌}
use mathlib.Core.Path.{◌≡◌, refl, ap}
use mathlib.Core.Bool.{Bool, true, false, not, ◌||◌, ◌&&◌}
use mathlib.Core.Option.{Option, none, some}
use mathlib.Core.List.{List, [], ◌∷◌, ◌++◌, map}
use native.Mathlib.Omega.{arith}
use msys_core.Common.Tests.{PyEq, ◌==◌, if◌then◌else◌}

module _ {ℓ} {A : Type ℓ} where
  abbrev pub length : List A → ℕ
  length [] = 0
  length (x ∷ xs) = suc (length xs)

  pub length-append : (xs ys : List A) → length (xs ++ ys) ≡ length xs + length ys
  length-append [] ys = omega arith
  length-append (x ∷ xs) ys = omega (arith, length-append xs ys)

  -- `any(p(x) for x in xs)` and `all(p(x) for x in xs)`
  abbrev pub any : (A → Bool) → List A → Bool
  any p [] = false
  any p (x ∷ xs) = p x || any p xs

  abbrev pub all : (A → Bool) → List A → Bool
  all p [] = true
  all p (x ∷ xs) = p x && all p xs

  -- `[x for x in xs if p(x)]`
  abbrev pub filter : (A → Bool) → List A → List A
  filter p [] = []
  filter p (x ∷ xs) = let rest = filter p xs in if p x then x ∷ rest else rest

  abbrev pub head? : List A → Option A
  head? [] = none
  head? (x ∷ xs) = some x

  -- The first element that passes the test.
  abbrev pub find : (A → Bool) → List A → Option A
  find p [] = none
  find p (x ∷ xs) = if p x then some x else find p xs

  abbrev pub All {κ} : (A → Type κ) → List A → Type κ
  All P [] = Unit
  All P (x ∷ xs) = P x × All P xs

module _ {ℓ} {A : Type ℓ} ⦃e : PyEq A⦄ where
  -- `a in xs`
  abbrev pub elem : A → List A → Bool
  elem a [] = false
  elem a (x ∷ xs) = x == a || elem a xs

  abbrev pub IsNodup : List A → Type 0
  IsNodup [] = Unit
  IsNodup (x ∷ xs) = (elem x xs ≡ false) × IsNodup xs

  abbrev pub remove_all : A → List A → List A
  remove_all a [] = []
  remove_all a (x ∷ xs) = let rest = remove_all a xs in if x == a then rest else x ∷ rest

  -- `list(dict.fromkeys(xs))`: the first occurrence of each value, in order.
  abbrev pub distinct : List A → List A
  distinct [] = []
  distinct (x ∷ xs) = x ∷ remove_all x (distinct xs)

  pub elem-remove_all :
      (a b : A) (xs : List A) → elem b (remove_all a xs) ≡ (elem b xs && not (a == b))
  elem-remove_all a b [] = refl
  elem-remove_all a b (x ∷ xs) =
      ground (arith, elem-remove_all a b xs, e.same_iff x a, e.same_iff x b, e.same_iff a b)

  pub remove_all_absent : (a : A) (xs : List A) → elem a xs ≡ false → remove_all a xs ≡ xs
  remove_all_absent a [] h = refl
  remove_all_absent a (x ∷ xs) h = ground (arith, remove_all_absent a xs)

  pub remove_all-IsNodup : (a : A) (xs : List A) → IsNodup xs → IsNodup (remove_all a xs)
  remove_all-IsNodup a [] h = tt
  remove_all-IsNodup a (x ∷ xs) h =
      ground (arith, elem-remove_all a x xs, remove_all-IsNodup a xs h.1)

  pub distinct-IsNodup : (xs : List A) → IsNodup (distinct xs)
  distinct-IsNodup [] = tt
  distinct-IsNodup (x ∷ xs) = (
    ground (arith, elem-remove_all x x (distinct xs), e.same_iff x x),
    remove_all-IsNodup x (distinct xs) (distinct-IsNodup xs),
  )

  pub elem-append : (a : A) (xs ys : List A) → elem a (xs ++ ys) ≡ (elem a xs || elem a ys)
  elem-append a [] ys = refl
  elem-append a (x ∷ xs) ys = ground (arith, elem-append a xs ys)

  pub elem-filter : (p : A → Bool) (a : A) (xs : List A) → elem a (filter p xs) ≡ (p a && elem a xs)
  elem-filter p a [] = ground arith
  elem-filter p a (x ∷ xs) = ground (arith, elem-filter p a xs, e.same_iff x a)

pub length-map {ℓ κ} :
    {A : Type ℓ} {B : Type κ} (f : A → B) (xs : List A) → length (map f xs) ≡ length xs
length-map f [] = refl
length-map f (x ∷ xs) = ap suc (length-map f xs)
