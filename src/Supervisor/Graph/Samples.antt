-- ===== src/Supervisor/Graph/Samples.antt =====
-- Small catalogs of components, and the theorems at them.
use msys_core.Common.{◌≡◌, ◌↔◌, ◌≢◌, refl, true, List, [], ◌∷◌}
use msys_core.Common.Result.{ok, err}
use msys_core.Common.Text.{Text, codes}
use msys_core.Common.Dict.{get}
use msys_core.Manifest.Types.{Component, Components}
use msys_core.Manifest.Example.{provider}
use msys_core.Supervisor.Graph.{
  requires_missing, dependency_cycle, out_of_fuel, check_requires, from_key, cycle_of, visit_each,
  visit, validate_dependency_graph,
}
use msys_core.Supervisor.Graph.Closed.{are_closed}
use msys_core.Supervisor.Graph.Accepted.{IsStartOrder, validate_ends, validate_dependency_graph_iff}

program : Unit {0}
unfolding get check_requires visit_each visit from_key cycle_of validate_dependency_graph
program = tt

abbrev component : Text → List Text → List Text → Component
component id required later = record (provider id []) { requires = required; after = later }

abbrev wm : Text
wm = codes "wm"

abbrev shell : Text
shell = codes "shell"

abbrev panel : Text
panel = codes "panel"

-- The shell requires the window manager, the panel comes after the shell and one that is not there.
abbrev session : Components
session =
    (shell, component shell (wm ∷ []) [])
    ∷ (panel, component panel [] (shell ∷ codes "tray" ∷ []))
    ∷ (wm, component wm [] [])
    ∷ []

-- The window manager comes after the panel: a cycle that the shell leads into.
abbrev cyclic : Components
cyclic =
    (codes "chrome", component (codes "chrome") (shell ∷ []) [])
    ∷ (shell, component shell (wm ∷ []) [])
    ∷ (wm, component wm [] (shell ∷ []))
    ∷ []

session_accepted : validate_dependency_graph session ≡ ok tt
unfolding program
session_accepted = refl

cyclic_refused : validate_dependency_graph cyclic ≡ err (dependency_cycle (shell ∷ wm ∷ shell ∷ []))
unfolding program
cyclic_refused = refl

missing_refused :
    validate_dependency_graph ((shell, component shell (wm ∷ panel ∷ []) []) ∷ [])
    ≡ err (requires_missing shell (wm ∷ panel ∷ []))
unfolding program
missing_refused = refl

validate_ends_example : validate_dependency_graph cyclic ≢ err out_of_fuel
validate_ends_example = validate_ends cyclic

validate_dependency_graph_iff_example :
    (validate_dependency_graph session ≡ ok tt)
    ↔ ((are_closed session session ≡ true) × (order : List Text) × IsStartOrder session order)
validate_dependency_graph_iff_example = validate_dependency_graph_iff session
