-- ===== src/Services/Catalog.antt =====
-- The providers of a service, and the one that a call gets.
use msys_core.Common.{
  ◌≡◌, refl, Bool, true, false, Option, none, some, List, [], ◌∷◌, map, arith, find, elem, IsNodup,
  pair_eq, if◌then◌else◌,
}
use msys_core.Common.Text.{Text, text_eq, text_beq, text_beq_iff, text_leb_total, text_leb_trans}
use msys_core.Common.Dict.{Dict, get, keys, values, has-elem-keys}
use msys_core.Common.Sorting.{sorted, insert_sorted, elem-map-sorted}
use msys_core.Services.{ServiceProvider, ServiceKey, Folded, before, order_all}

pub before_total : (x y : ServiceProvider) → before x y ≡ false → before y x ≡ true
unfolding before
before_total x y h = ground (arith, text_leb_total x.component y.component)

pub before_trans :
    (x y z : ServiceProvider) → before x y ≡ true → before y z ≡ true → before x z ≡ true
unfolding before
before_trans x y z h k = ground (arith, text_leb_trans x.component y.component z.component)

abbrev pub component_of : ServiceProvider → Text
component_of p = p.component

abbrev pub is_component : Text → ServiceProvider → Bool
is_component pid p = text_beq p.component pid

find-absent :
    (pid : Text) (xs : List ServiceProvider)
    → elem pid (map component_of xs) ≡ false
    → find (is_component pid) xs ≡ none
find-absent pid [] h = refl
find-absent pid (x ∷ xs) h = ground (arith, find-absent pid xs)

find-insert_sorted :
    (pid : Text) (a : ServiceProvider) (xs : List ServiceProvider)
    → elem a.component (map component_of xs) ≡ false
    → find (is_component pid) (insert_sorted before a xs)
      ≡ (if is_component pid a then some a else find (is_component pid) xs)
unfolding insert_sorted
find-insert_sorted pid a [] h = refl
find-insert_sorted pid a (x ∷ xs) h = ground (
  arith,
  find-insert_sorted pid a xs,
  text_beq_iff a.component pid,
  text_beq_iff x.component pid,
  text_beq_iff x.component a.component,
)

-- With one provider for each component, the sort moves no search.
pub find-sorted :
    (pid : Text) (xs : List ServiceProvider)
    → IsNodup (map component_of xs)
    → find (is_component pid) (sorted before xs) ≡ find (is_component pid) xs
unfolding sorted
find-sorted pid [] h = refl
find-sorted pid (x ∷ xs) h = ground (
  arith,
  find-insert_sorted pid x (sorted before xs),
  elem-map-sorted before component_of x.component xs,
  find-sorted pid xs h.1,
)

-- Each provider stands under the id of its component.
abbrev pub IsNamed : Dict Text ServiceProvider → Type 0
IsNamed d = (pid : Text) (s : ServiceProvider) → get pid d ≡ some s → s.component ≡ pid

IsNamed-tail :
    (k : Text) (v : ServiceProvider) (d : Dict Text ServiceProvider)
    → IsNodup (keys ((k, v) ∷ d))
    → IsNamed ((k, v) ∷ d)
    → IsNamed d
unfolding get
IsNamed-tail k v d n named pid s e =
    named pid s (ground (arith, has-elem-keys pid d, text_beq_iff k pid))

pub components-values :
    (d : Dict Text ServiceProvider)
    → IsNodup (keys d)
    → IsNamed d
    → map component_of (values d) ≡ keys d
unfolding get
components-values [] n named = refl
components-values ((k, v) ∷ d) n named =
    ground
      (arith, named k v, text_beq_iff k k, components-values d n.1 (IsNamed-tail k v d n named))

pub find-values :
    (pid : Text) (d : Dict Text ServiceProvider)
    → IsNodup (keys d)
    → IsNamed d
    → find (is_component pid) (values d) ≡ get pid d
unfolding get
find-values pid [] n named = refl
find-values pid ((k, v) ∷ d) n named =
    ground (arith, named k v, text_beq_iff k k, find-values pid d n.1 (IsNamed-tail k v d n named))

abbrev pub ordered : Option (Dict Text ServiceProvider) → Option (List ServiceProvider)
ordered none = none
ordered (some d) = some (sorted before (values d))

pub get-order_all : (key : ServiceKey) (f : Folded) → get key (order_all f) ≡ ordered (get key f)
unfolding get order_all
get-order_all key [] = refl
get-order_all key ((k, d) ∷ f) = ground (arith, get-order_all key f)
