-- ===== src/Supervisor/Access.antt =====
-- Which calls of a component are dispatched.
pub mod Authorised
pub mod Required
mod Samples
use msys_core.Common.{
  ℕ, Bool, true, false, not, ◌&&◌, ◌||◌, Option, none, some, List, [], ◌∷◌, ◌++◌, any,
  if◌then◌else◌,
}
use msys_core.Common.Text.{Text, codes, text_beq, text_eq, starts_with}
use msys_core.Common.Dict.{get}
use msys_core.Acl.{allows_call, call_permission_candidates, after_colon}
use msys_core.Manifest.Types.{Provide, Component, Components}
use msys_core.Supervisor.Errors.{ComponentError, access_denied}
use msys_core.Supervisor.Policies.{permissions_of}
use msys_core.Value.{Value, Fields, str, get_or}

-- `str(message.get(name, ""))`
abbrev pub text_field : (Value → Text) → Text → Fields → Text
text_field to_text name message = to_text (get_or name (str []) message)

-- One turn of the loop over the provides of the component that is called.
pub grants_interface : List Value → Text → Provide → Bool
grants_interface permissions method provide =
    if not (text_beq provide.kind (codes "interface"))
    then false
    else allows_call permissions (codes "interface:" ++ provide.name) method

-- The target is a component that provides an interface whose calls are permitted.
pub allows_provider : Components → List Value → Text → Text → Bool
unfolding grants_interface
allows_provider components permissions target method =
    if not (starts_with (codes "component:") target)
    then false
    else elim (get (after_colon target) components) [
      | none ↦ false
      | some provider ↦ any (grants_interface permissions method) provider.provides
    ]

-- `f"{target}.{method}" if method else target`
abbrev pub call_detail : Text → Text → Text
call_detail target [] = target
call_detail target (c ∷ method) = target ++ (b'.' ∷ c ∷ method)

-- `candidates[0] if candidates else f"mipc.call:{target}"`
unfoldable pub required_permission : Text → Text → Text
required_permission target method = elim (call_permission_candidates target method) [
  | [] ↦ codes "mipc.call:" ++ target
  | candidate ∷ candidates ↦ candidate
]

-- The error, or None for a call that is permitted.
pub authorize_component_call :
    (Value → Text) → Components → Component → Fields → Option ComponentError
unfolding allows_provider required_permission
authorize_component_call to_text components c message =
    let target = text_field to_text (codes "target") message in
    let method = text_field to_text (codes "method") message in
    if allows_call (permissions_of c) target method
    then none
    else if allows_provider components (permissions_of c) target method
    then none
    else some (
        access_denied c message (codes "call") (call_detail target method)
          (required_permission target method))
