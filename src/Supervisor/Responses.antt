-- ===== src/Supervisor/Responses.antt =====
-- The responses that dispatch reads and makes.
use msys_core.Common.{Bool, false, ◌&&◌, ◌||◌, none, some, List, [], ◌∷◌}
use msys_core.Common.Int.{ℤ}
use msys_core.Common.Text.{Text, codes, text_beq}
use msys_core.Value.{Value, Fields, str, int, field, end, get_or, get_field, is_str, put_field}

abbrev pub retry_safe_methods : List Text
retry_safe_methods =
    codes "list_windows"
    ∷ codes "recents"
    ∷ codes "list"
    ∷ codes "status"
    ∷ codes "capabilities"
    ∷ []

abbrev pub no_provider_socket : Text
no_provider_socket = codes "NO_PROVIDER_SOCKET"

abbrev pub call_timeout : Text
call_timeout = codes "CALL_TIMEOUT"

abbrev pub liveness_errors : List Text
liveness_errors =
    call_timeout
    ∷ codes "CALL_SEND_FAILED"
    ∷ no_provider_socket
    ∷ codes "PROVIDER_EXITED"
    ∷ codes "PROVIDER_STOPPED"
    ∷ []

abbrev pub deadline_expired_message : Text
deadline_expired_message = codes "call deadline already expired"

-- `response.get(name) == text`
abbrev pub field_is : Text → Text → Fields → Bool
field_is name text response = elim (get_field name response) [
  | none ↦ false
  | some v ↦ is_str text v
]

unfoldable pub is_error : Fields → Bool
is_error = field_is (codes "type") (codes "error")

unfoldable pub expired_before_provider_delivery : Fields → Bool
unfolding is_error
expired_before_provider_delivery response =
    is_error response
    && field_is (codes "code") call_timeout response
    && field_is (codes "message") deadline_expired_message response

-- `str(response.get("code", ""))`
unfoldable pub code_of : (Value → Text) → Fields → Text
code_of to_text response = to_text (get_or (codes "code") (str []) response)

unfoldable pub error_response : ℤ → Text → Text → Fields
error_response id code message = field (str (codes "type")) (str (codes "error")) (
    field (str (codes "id")) (int id)
      (field (str (codes "code")) (str code) (field (str (codes "message")) (str message) end)))

-- `response["id"] = request_id`
unfoldable pub with_id : ℤ → Fields → Fields
with_id id response = put_field (codes "id") (int id) response

unfoldable pub is_role_noop : Text → Text → Bool
is_role_noop role method =
    text_beq role (codes "input-method") && text_beq method (codes "hide")
    || text_beq role (codes "notification-center") && text_beq method (codes "hide")
