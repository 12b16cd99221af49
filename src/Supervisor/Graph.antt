-- ===== src/Supervisor/Graph.antt =====
-- `_validate_dependency_graph`: which catalogs of components can be started in some order. The
-- depth of the search is bounded by fuel. The shared list `path` is as long after a call as before
-- it, so that each call gets it as a value.
pub mod Order
pub mod Search
pub mod Closed
pub mod Accepted
mod Samples
use msys_core.Common.{
  ℕ, zero, suc, Bool, true, false, not, Option, none, some, List, [], ◌∷◌, ◌++◌, ◌≡◌, all, elem,
  filter, length, remove_all, if◌then◌else◌, ◌==◌, IsNodup,
}
use msys_core.Common.Result.{Result, ok, err, ◌>>=◌, ◌>>◌}
use msys_core.Common.Text.{Text, text_eq}
use msys_core.Common.Dict.{Dict, get, has, keys}
use msys_core.Manifest.Types.{Component, Components}

pub data GraphError : Type 0 where
  requires_missing : Text → List Text → GraphError
  dependency_cycle : List Text → GraphError
  key_error : GraphError
  -- the fuel of the model: see Search.visit_ends
  out_of_fuel : GraphError

-- The sets `visiting` and `visited`, the last key first.
pub record Visits : Type 0 where
  pub visiting : List Text
  pub visited : List Text

-- The first loop: `checked` are the components still to check.
pub check_requires : Components → Components → Result GraphError (Unit {0})
check_requires components [] = ok tt
check_requires components ((key, c) ∷ checked) =
    let later = check_requires components checked in
    elim (filter (λ dependency. not (has dependency components)) c.requires) [
      | [] ↦ later
      | m ∷ ms ↦ err (requires_missing key (m ∷ ms))
    ]

abbrev pub ordering_dependencies : Components → Component → List Text
ordering_dependencies components c =
    c.requires ++ filter (λ dependency. has dependency components) c.after

-- `path[path.index(key):]`, or the whole path without the key.
pub from_key : Text → List Text → Option (List Text)
from_key key [] = none
from_key key (k ∷ path) = if k == key then some (k ∷ path) else from_key key path

pub cycle_of : Text → List Text → List Text
unfolding from_key
cycle_of key path = elim (from_key key path) [
  | none ↦ path ++ (key ∷ [])
  | some cycle ↦ cycle ++ (key ∷ [])
]

abbrev pub Visit : Type 0
Visit = Visits → Result GraphError Visits

-- The loop over the dependencies of a component.
pub visit_each : (Text → Visit) → List Text → Visit
visit_each visit [] s = ok s
visit_each visit (d ∷ ds) s = do s' ← visit d s; visit_each visit ds s'

abbrev pub enter : Text → Visits → Visits
enter key s = record s { visiting = key ∷ s.visiting }

abbrev pub leave : Text → Visits → Visits
leave key s = record { visiting = remove_all key s.visiting; visited = key ∷ s.visited }

pub visit : Components → ℕ → List Text → Text → Visit
unfolding cycle_of
visit components zero path key s = err out_of_fuel
visit components (suc fuel) path key s = elim (elem key s.visiting) [
  | true ↦ err (dependency_cycle (cycle_of key path))
  | false ↦ elim (elem key s.visited) [
    | true ↦ ok s
    | false ↦ elim (get key components) [
      | none ↦ err key_error
      | some c ↦
          visit_each (visit components fuel (path ++ (key ∷ [])))
            (ordering_dependencies components c) (enter key s)
          >>= λ s'. ok (leave key s')
    ]
  ]
]

abbrev pub no_visits : Visits
no_visits = record { visiting = []; visited = [] }

pub validate_dependency_graph : Components → Result GraphError (Unit {0})
unfolding check_requires visit_each visit
validate_dependency_graph components = do
  check_requires components components
  s ← visit_each (visit components (suc (length components)) []) (keys components) no_visits
  ok tt
