-- ===== src/Supervisor/Errors.antt =====
-- The errors that a component gets for a frame it may not send. What is logged is left out.
use msys_core.Common.{Option, none, some, [], ◌∷◌}
use msys_core.Common.Int.{ℤ, pos}
use msys_core.Common.Text.{Text, codes}
use msys_core.Manifest.Types.{Component, component_key}
use msys_core.Value.{Fields, int, get_field}

-- `{"type": "error", …}`: its id, its code, and its payload. `message` names the operation.
pub record ComponentError : Type 0 where
  pub id : ℤ
  pub code : Text
  pub operation : Text
  pub component : Text
  pub resource : Text
  pub required : Option Text

unfoldable pub optional_request_id : Fields → Option ℤ
optional_request_id message = elim (get_field (codes "id") message) [
  | some (int n) ↦ some n
  | some _ ↦ none
  | none ↦ none
]

-- `if required: payload["required"] = required`
unfoldable pub nonempty : Text → Option Text
nonempty [] = none
nonempty (c ∷ t) = some (c ∷ t)

unfoldable pub component_error :
    Component → Fields → Text → Text → Text → Option Text → ComponentError
unfolding optional_request_id nonempty
component_error c message code operation detail required = record {
  id = elim (optional_request_id message) [ none ↦ pos 0 | some n ↦ n ];
  code = code;
  operation = operation;
  component = component_key c;
  resource = detail;
  required = elim required [ none ↦ none | some permission ↦ nonempty permission ];
}

abbrev pub access_denied_code : Text
access_denied_code = codes "ACCESS_DENIED"

unfoldable pub access_denied : Component → Fields → Text → Text → Text → ComponentError
unfolding component_error
access_denied c message operation detail required =
    component_error c message access_denied_code operation detail (some required)
