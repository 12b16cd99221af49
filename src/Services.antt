-- ===== src/Services.antt =====
-- msys_core/services.py: the catalog of the interfaces and capabilities that components provide.
mod Folding
mod Catalog
pub mod Providers
mod Samples
use msys_core.Common.{
  Bool, true, false, not, ◌&&◌, ◌||◌, Option, none, some, List, [], ◌∷◌, ◌++◌, map, find, filter,
  pair_eq, if◌then◌else◌, ◌==◌,
}
use msys_core.Common.Int.{ℤ, ltb_ℤ, ℤ_beq, max_ℤ}
use msys_core.Common.Result.{Result, ok, err, ◌>>=◌}
use msys_core.Common.Text.{Text, text_eq, text_beq, text_leb, codes}
use msys_core.Common.Dict.{Dict, get, put, keys, values}
use msys_core.Common.Sorting.{sorted}
use msys_core.Manifest.Types.{Component, Components, Provide}

pub data ServiceError : Type 0 where
  unknown_service : Text → Text → ServiceError
  unknown_provider : Text → Text → Text → ServiceError
  unsupported_kind : Text → ServiceError
  -- `providers[0]` of an empty tuple
  index_error : ServiceError

pub record ServiceProvider : Type 0 where
  pub kind : Text
  pub name : Text
  pub component : Text
  pub priority : ℤ
  pub exclusive : Bool

abbrev pub ServiceKey : Type 0
ServiceKey = Text × Text

abbrev pub Folded : Type 0
Folded = Dict ServiceKey (Dict Text ServiceProvider)

abbrev pub Services : Type 0
Services = Dict ServiceKey (List ServiceProvider)

unfoldable pub is_service_kind : Text → Bool
is_service_kind kind = text_beq kind (codes "interface") || text_beq kind (codes "capability")

abbrev pub or_empty : Option (Dict Text ServiceProvider) → Dict Text ServiceProvider
or_empty none = []
or_empty (some d) = d

-- Duplicate provides of one component are folded.
pub merge_provider : Option ServiceProvider → ServiceProvider → ServiceProvider
merge_provider none candidate = candidate
merge_provider (some previous) candidate = record {
  kind = candidate.kind;
  name = candidate.name;
  component = candidate.component;
  priority = max_ℤ previous.priority candidate.priority;
  exclusive = previous.exclusive || candidate.exclusive;
}

abbrev pub provider_of : Text → Provide → ServiceProvider
provider_of component_id p = record {
  kind = p.kind;
  name = p.name;
  component = component_id;
  priority = p.priority;
  exclusive = p.exclusive;
}

-- One turn of the loop over the provides of a component.
pub fold_provide : Text → Folded → Provide → Folded
fold_provide component_id folded p =
    if not (is_service_kind p.kind)
    then folded
    else (let per_service = or_empty (get (p.kind, p.name) folded) in
        put (p.kind, p.name)
          (put component_id
            (merge_provider (get component_id per_service) (provider_of component_id p))
            per_service)
          folded)

pub fold_provides : Text → Folded → List Provide → Folded
fold_provides component_id folded [] = folded
fold_provides component_id folded (p ∷ ps) =
    fold_provides component_id (fold_provide component_id folded p) ps

pub fold_components : Folded → Components → Folded
fold_components folded [] = folded
fold_components folded ((component_id, component) ∷ rest) =
    fold_components (fold_provides component_id folded component.provides) rest

-- The key `(-priority, component)`
pub before : ServiceProvider → ServiceProvider → Bool
before a b =
    ltb_ℤ b.priority a.priority || ℤ_beq a.priority b.priority && text_leb a.component b.component

pub order_all : Folded → Services
order_all [] = []
order_all ((key, providers) ∷ rest) = (key, sorted before (values providers)) ∷ order_all rest

-- `_build`
pub build : Components → Services
build components = order_all (fold_components [] components)

unfoldable pub checked_kind : Text → Result ServiceError Text
checked_kind kind = if not (is_service_kind kind) then err (unsupported_kind kind) else ok kind

-- The order of tuples of two texts.
abbrev pub key_leb : ServiceKey → ServiceKey → Bool
key_leb a b = (text_leb a.0 b.0 && not (text_beq a.0 b.0)) || (text_beq a.0 b.0 && text_leb a.1 b.1)

pub names : Services → Text → Result ServiceError (List Text)
unfolding checked_kind
names services kind = do
  checked ← checked_kind kind
  ok (map (λ key. key.1) (filter (λ key. text_beq key.0 checked) (sorted key_leb (keys services))))

unfoldable pub providers : Services → Text → Text → Result ServiceError (List ServiceProvider)
unfolding checked_kind
providers services kind name = do
  checked ← checked_kind kind
  elim (get (checked, name) services) [
    | none ↦ err (unknown_service checked name)
    | some found ↦ ok found
  ]

unfoldable pub provider_ids : Services → Text → Text → Result ServiceError (List Text)
provider_ids services kind name = do
  found ← providers services kind name
  ok (map (λ p. p.component) found)

abbrev pub first_of_providers : List ServiceProvider → Result ServiceError ServiceProvider
first_of_providers [] = err index_error
first_of_providers (p ∷ ps) = ok p

pub choose_provider :
    Text → Text → Option Text → List ServiceProvider → Result ServiceError ServiceProvider
choose_provider kind name none found = first_of_providers found
choose_provider kind name (some component) found =
    elim (find (λ p. text_beq p.component component) found) [
      | none ↦ err (unknown_provider component kind name)
      | some p ↦ ok p
    ]

pub get_provider : Services → Text → Text → Option Text → Result ServiceError ServiceProvider
unfolding choose_provider
get_provider services kind name component = do
  found ← providers services kind name
  choose_provider kind name component found

abbrev pub entry_leb : ServiceKey × List ServiceProvider → ServiceKey × List ServiceProvider → Bool
entry_leb a b = key_leb a.0 b.0

abbrev pub is_wanted : Option Text → ServiceKey → Bool
is_wanted none key = true
is_wanted (some checked) key = text_beq key.0 checked

pub collect_entries : Option Text → Services → List ServiceProvider
collect_entries wanted [] = []
collect_entries wanted ((key, found) ∷ rest) =
    let later = collect_entries wanted rest in
    if is_wanted wanted key then found ++ later else later

pub checked_option : Option Text → Result ServiceError (Option Text)
unfolding checked_kind
checked_option none = ok none
checked_option (some kind) = do checked ← checked_kind kind; ok (some checked)

pub entries : Services → Option Text → Result ServiceError (List ServiceProvider)
unfolding checked_option collect_entries
entries services kind = do
  wanted ← checked_option kind
  ok (collect_entries wanted (sorted entry_leb services))
