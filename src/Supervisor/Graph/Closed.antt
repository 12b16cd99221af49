-- ===== src/Supervisor/Graph/Closed.antt =====
-- Catalogs in which every required component is there.
use msys_core.Common.{
  ◌≡◌, refl, subst, Bool, true, not, ◌&&◌, some, List, [], ◌∷◌, ◌++◌, all, filter, arith, ◌==◌,
  Bool-cases, inl, inr,
}
use msys_core.Common.Result.{ok}
use msys_core.Common.Text.{Text, text_eq}
use msys_core.Common.Dict.{get, has}
use msys_core.Manifest.Types.{Component, Components}
use msys_core.Supervisor.Graph.{check_requires}

-- Every required component is there.
abbrev pub are_closed : Components → Components → Bool
are_closed components [] = true
are_closed components ((key, c) ∷ checked) =
    all (λ dependency. has dependency components) c.requires && are_closed components checked

none_missing :
    (p : Text → Bool) (ds : List Text) → filter (λ d. not (p d)) ds ≡ [] → all p ds ≡ true
none_missing p [] h = refl
none_missing p (d ∷ ds) h = ground (arith, none_missing p ds)

missing_none :
    (p : Text → Bool) (ds : List Text) → all p ds ≡ true → filter (λ d. not (p d)) ds ≡ []
missing_none p [] h = refl
missing_none p (d ∷ ds) h = ground (arith, missing_none p ds)

pub check_requires-closed :
    (components checked : Components)
    → check_requires components checked ≡ ok tt
    → are_closed components checked ≡ true
unfolding check_requires
check_requires-closed components [] h = refl
check_requires-closed components ((key, c) ∷ checked) h = ground (
  arith,
  none_missing (λ d. has d components) c.requires,
  check_requires-closed components checked,
)

pub closed-check_requires :
    (components checked : Components)
    → are_closed components checked ≡ true
    → check_requires components checked ≡ ok tt
unfolding check_requires
closed-check_requires components [] h = refl
closed-check_requires components ((key, c) ∷ checked) h = ground (
  arith,
  missing_none (λ d. has d components) c.requires,
  closed-check_requires components checked,
)

pub closed_at :
    (components checked : Components) (key : Text) {c : Component}
    → are_closed components checked ≡ true
    → get key checked ≡ some c
    → all (λ d. has d components) c.requires ≡ true
unfolding get
closed_at components [] key h e = cc
closed_at components ((k, b) ∷ checked) key {c} h e = elim (Bool-cases (k == key)) [
  | inl here ↦
      let same : b ≡ c = ground arith in
      subst (λ x. all (λ d. has d components) x.requires ≡ true) same (ground arith)
  | inr there ↦ closed_at components checked key {c = c} (ground arith) (ground arith)
]

pub all-append : (p : Text → Bool) (xs ys : List Text) → all p (xs ++ ys) ≡ (all p xs && all p ys)
all-append p [] ys = refl
all-append p (x ∷ xs) ys = ground (arith, all-append p xs ys)

pub all-filter : (p : Text → Bool) (xs : List Text) → all p (filter p xs) ≡ true
all-filter p [] = refl
all-filter p (x ∷ xs) = ground (arith, all-filter p xs)
