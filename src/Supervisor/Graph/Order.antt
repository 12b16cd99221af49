-- ===== src/Supervisor/Graph/Order.antt =====
-- Orders in which each component stands after those that it depends on.
use msys_core.Common.{
  ◌≡◌, refl, Bool, true, false, none, some, List, [], ◌∷◌, all, elem, arith, IsNodup, if◌then◌else◌,
  ◌==◌, Bool-cases, inl, inr, subst,
}
use msys_core.Common.Text.{Text, text_eq, text_beq_iff}
use msys_core.Common.Dict.{get}
use msys_core.Manifest.Types.{Components}
use msys_core.Supervisor.Graph.{ordering_dependencies}

-- What a key depends on: what its component requires, and the components that it comes after.
abbrev pub depends_on : Components → Text → List Text
depends_on components key = elim (get key components) [
  | none ↦ []
  | some c ↦ ordering_dependencies components c
]

-- The last to start stands first: what each key depends on stands after it in the list.
abbrev pub IsOrdered : Components → List Text → Type 0
IsOrdered components [] = Unit
IsOrdered components (key ∷ order) =
    (all (λ d. elem d order) (depends_on components key) ≡ true) × IsOrdered components order

-- The keys that stand after a key.
abbrev pub after : Text → List Text → List Text
after key [] = []
after key (k ∷ order) = if k == key then order else after key order

pub elem_of_all :
    (p : Text → Bool) (d : Text) (ds : List Text) → all p ds ≡ true → elem d ds ≡ true → p d ≡ true
elem_of_all p d [] h e = cc
elem_of_all p d (x ∷ ds) h e = ground (arith, elem_of_all p d ds, text_beq_iff x d)

pub elem_of_after :
    (key d : Text) (order : List Text) → elem d (after key order) ≡ true → elem d order ≡ true
elem_of_after key d [] h = h
elem_of_after key d (k ∷ order) h = ground (arith, elem_of_after key d order)

-- In an order without repetition no key stands after itself.
pub after_irrefl :
    (key : Text) (order : List Text) → IsNodup order → elem key (after key order) ≡ false
after_irrefl key [] n = refl
after_irrefl key (k ∷ order) n = ground (arith, after_irrefl key order n.1, text_beq_iff k key)

pub after_trans :
    (u v w : Text) (order : List Text)
    → IsNodup order
    → elem v (after u order) ≡ true
    → elem w (after v order) ≡ true
    → elem w (after u order) ≡ true
after_trans u v w [] n p q = p
after_trans u v w (k ∷ order) n p q = ground (
  arith,
  after_trans u v w order n.1,
  elem_of_after v w order,
  elem_of_after u v order,
  text_beq_iff k u,
  text_beq_iff k v,
)

module _ (components : Components) where
  -- What a key of an order depends on stands after it.
  pub depends_after :
      (key d : Text) (order : List Text)
      → IsOrdered components order
      → elem key order ≡ true
      → elem d (depends_on components key) ≡ true
      → elem d (after key order) ≡ true
  depends_after key d [] h e p = e
  depends_after key d (k ∷ order) h e p = elim (Bool-cases (k == key)) [
    | inl here ↦
        let same : k ≡ key = (text_beq_iff k key).0 here in
        rw (here) (
          elem_of_all (λ x. elem x order) d (depends_on components key)
            (subst (λ j. all (λ x. elem x order) (depends_on components j) ≡ true) same h.0) p)
    | inr there ↦ rw (there) (depends_after key d order h.1 (ground arith) p)
  ]
