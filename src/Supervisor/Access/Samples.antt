-- ===== src/Supervisor/Access/Samples.antt =====
-- A manager that calls a component directly, and the theorems at it.
use msys_core.Common.{◌≡◌, ◌↔◌, ◌⊎◌, refl, true, false, none, some, List, [], ◌∷◌}
use msys_core.Common.Int.{pos}
use msys_core.Common.Text.{Text, codes}
use msys_core.Common.Dict.{get}
use msys_core.Acl.{
  after_colon, permission_set, narrowed, interface_resources, call_permission_candidates,
  allows_call,
}
use msys_core.Manifest.Example.{provider}
use msys_core.Manifest.Types.{Component, Components, component_key}
use msys_core.Supervisor.Access.{
  text_field, grants_interface, allows_provider, required_permission, authorize_component_call,
}
use msys_core.Supervisor.Access.Authorised.{Provided, authorize_component_call_iff}
use msys_core.Supervisor.Access.Required.{authorize_component_call-required}
use msys_core.Supervisor.Errors.{
  ComponentError, optional_request_id, nonempty, component_error, access_denied,
}
use msys_core.Supervisor.Policies.{permissions_of}
use msys_core.Value.{Value, Fields, str, field, end}

program : Unit {0}
unfolding get after_colon permission_set narrowed interface_resources call_permission_candidates
    allows_call component_key grants_interface allows_provider required_permission
    authorize_component_call optional_request_id nonempty component_error access_denied
program = tt

abbrev to_text : Value → Text
to_text (str t) = t
to_text _ = []

abbrev panel : Text
panel = codes "shell:panel"

abbrev inventory : Text
inventory = codes "org.example.inventory.v1"

abbrev catalog : Components
catalog =
    (
      panel,
      provider (codes "panel") (
          record { kind = codes "interface"; name = inventory; exclusive = false; priority = pos 0 }
          ∷ []),
    )
    ∷ []

abbrev manager : List Text → Component
manager permissions = record (provider (codes "manager") []) { permissions = permissions }

abbrev list_panel : Fields
list_panel =
    field (str (codes "target")) (str (codes "component:shell:panel"))
      (field (str (codes "method")) (str (codes "list")) end)

authorised :
    authorize_component_call to_text catalog
      (manager (codes "mipc.call:org.example.inventory.v1" ∷ []))
      list_panel
    ≡ none
unfolding program
authorised = refl

abbrev denial : ComponentError
denial = record {
  id = pos 0;
  code = codes "ACCESS_DENIED";
  operation = codes "call";
  component = codes "shell:manager";
  resource = codes "component:shell:panel.list";
  required = some (codes "mipc.call:component:shell:panel.list");
}

denied : authorize_component_call to_text catalog (manager []) list_panel ≡ some denial
unfolding program
denied = refl

authorize_component_call_iff_example :
    let target = text_field to_text (codes "target") list_panel in
    let method = text_field to_text (codes "method") list_panel in
    (authorize_component_call to_text catalog (manager []) list_panel ≡ none) ↔ (
      (allows_call (permissions_of (manager [])) target method ≡ true)
      ⊎ Provided catalog (permissions_of (manager [])) target method)
authorize_component_call_iff_example =
    authorize_component_call_iff to_text catalog (manager []) list_panel

authorize_component_call-required_example :
    (permission : Text) × (denial.required ≡ some permission)
    × (authorize_component_call to_text catalog
          (record (manager []) { permissions = permission ∷ [] })
          list_panel
        ≡ none)
authorize_component_call-required_example =
    authorize_component_call-required to_text catalog (manager []) list_panel denial denied
