-- ===== src/Supervisor/Forward.antt =====
-- `_forward_call`: one call sent to one instance, its deadline and its answer. Times are in
-- milliseconds of the monotonic clock.
pub mod Reported
pub mod Balance
mod Samples
use msys_core.Common.{
  ℕ, suc, ◌-◌, Bool, true, false, not, ◌&&◌, ◌||◌, Option, none, some, List, [], ◌∷◌, leb, nat_beq,
  all, length, if◌then◌else◌,
}
use msys_core.Common.Int.{ℤ, pos, pos_part}
use msys_core.Common.Text.{Text, codes, starts_with}
use msys_core.Acl.{after_colon, is_ascii_alnum, is_topic_char}
use msys_core.Manifest.Types.{component_key}
use msys_core.Supervisor.Idle.{Idle, begin_forward_call, finish_forward_call}
use msys_core.Supervisor.Responses.{
  error_response, with_id, no_provider_socket, call_timeout, deadline_expired_message,
}
use msys_core.Value.{Value, Fields, str, int, float, field, dict, end, null, get_or, get_field}

abbrev pub max_forward_timeout_ms : ℕ
max_forward_timeout_ms = 300000

abbrev pub default_timeout_ms : ℕ
default_timeout_ms = 5000

abbrev pub min : ℕ → ℕ → ℕ
min a b = if leb a b then a else b

-- `deadline_ms` of a message, in whole milliseconds: `round_float` rounds a float. None for what is
-- no number.
unfoldable pub deadline_of : (Value → ℤ) → Fields → Option ℤ
deadline_of round_float message = elim (get_field (codes "deadline_ms") message) [
  | some (int n) ↦ some n
  | some (float finite t) ↦ some (round_float (float finite t))
  | some _ ↦ none
  | none ↦ none
]

unfoldable pub forwarded_timeout : (Value → ℤ) → ℕ → Fields → ℕ
unfolding deadline_of
forwarded_timeout round_float now message = elim (deadline_of round_float message) [
  | none ↦ min max_forward_timeout_ms default_timeout_ms
  | some deadline ↦ min max_forward_timeout_ms (pos_part deadline - now)
]

abbrev pub max_logical_target_length : ℕ
max_logical_target_length = 192

-- `[A-Za-z0-9][A-Za-z0-9._:-]{0,190}`
unfoldable pub is_target_name : Text → Bool
is_target_name [] = false
is_target_name (c ∷ t) = is_ascii_alnum c && all is_topic_char t && leb (length t) 190

unfoldable pub is_logical_target : Text → Bool
unfolding is_target_name
is_logical_target t =
    leb (length t) max_logical_target_length
    && (starts_with (codes "role:") t
        || starts_with (codes "interface:") t
        || starts_with (codes "component:") t)
    && is_target_name (after_colon t)

-- `{"type": "call", …}`
pub record Forwarded : Type 0 where
  pub id : ℕ
  pub target : Text
  pub method : Value
  pub payload : Value
  pub source : Text
  pub logical_target : Option Text
  pub deadline : Option Value

abbrev pub checked_target : Option Value → Option Text
checked_target (some (str t)) = if is_logical_target t then some t else none
checked_target _ = none

unfoldable pub forwarded : Text → ℕ → Text → Fields → Forwarded
unfolding is_logical_target
forwarded key request_id source message = record {
  id = request_id;
  target = key;
  method = get_or (codes "method") null message;
  payload = get_or (codes "payload") (dict end) message;
  source = source;
  logical_target = checked_target (get_field (codes "target") message);
  deadline = get_field (codes "deadline_ms") message;
}

-- What leaves `send_packet` or `wait_for`: a timeout, an `OSError` with its text, or any other
-- exception, as the `ProtocolError` of a frame that is too large.
pub data Failure : Type 0 where
  timed_out : Failure
  os_error : Text → Failure
  raised : Failure

-- `send_packet` on the frame: the socket takes the whole packet or nothing of it.
pub data Sending : Type 0 where
  taken : Sending
  refused : Failure → Sending

-- `wait_for` on the future of the call.
pub data Answer : Type 0 where
  answered : Fields → Answer
  broken : Failure → Answer

-- The two `except` clauses; none where the exception leaves the method.
unfoldable pub failure_response : ℤ → Text → Failure → Option Fields
unfolding error_response
failure_response id key timed_out = some (error_response id call_timeout key)
failure_response id key (os_error problem) =
    some (error_response id (codes "CALL_SEND_FAILED") problem)
failure_response id key raised = none

-- `return` of the `try`: the id is that of the message.
unfoldable pub answer_response : ℤ → Text → Answer → Option Fields
unfolding with_id failure_response
answer_response id key (answered response) = some (with_id id response)
answer_response id key (broken failure) = failure_response id key failure

pub record Forwarding : Type 0 where
  -- what is returned, or none where an exception leaves the method
  pub response : Option Fields
  -- the frame that the socket took
  pub sent : Option Forwarded
  pub next_request_id : ℕ
  pub state : Idle

-- The channel is open, and the instance the one of its key.
unfoldable pub is_reachable : Idle → Bool
is_reachable s = s.instance_of.sock && s.current

-- `send` gives a frame to the socket, and `wait` waits for its answer, while other calls begin and
-- end. `id` is what `int` reads as the id of the message, none where it raises. The `finally` block
-- is run on each path behind `begin_forward_call`.
unfoldable pub forward_call :
    (Value → ℤ)
    → (Forwarded → Sending)
    → (Forwarded → ℕ → Idle → Answer × Idle)
    → ℕ
    → Option ℤ
    → Text
    → Fields
    → ℕ
    → Idle
    → Forwarding
unfolding is_reachable forwarded_timeout forwarded answer_response failure_response error_response
forward_call round_float send wait now id source message next_request_id s =
    let key = component_key s.instance_of.component in
    let begun = begin_forward_call s in
    let frame = forwarded key next_request_id source message in
    let timeout = forwarded_timeout round_float now message in
    if not (is_reachable s)
    then record {
      response = some (
          field (str (codes "type")) (str (codes "error")) (
            field (str (codes "id")) (get_or (codes "id") (int (pos 0)) message)
              (field (str (codes "code")) (str no_provider_socket) end)));
      sent = none;
      next_request_id = next_request_id;
      state = s;
    }
    else elim id [
      | none ↦ record {
        response = none;
        sent = none;
        next_request_id = next_request_id;
        state = finish_forward_call begun;
      }
      | some public_id ↦
          if nat_beq timeout 0
          then record {
            response = some (error_response public_id call_timeout deadline_expired_message);
            sent = none;
            next_request_id = suc next_request_id;
            state = finish_forward_call begun;
          }
          else elim (send frame) [
            | refused failure ↦ record {
              response = failure_response public_id key failure;
              sent = none;
              next_request_id = suc next_request_id;
              state = finish_forward_call begun;
            }
            | taken ↦
                let (answer, waited) = wait frame timeout begun in
                record {
                  response = answer_response public_id key answer;
                  sent = some frame;
                  next_request_id = suc next_request_id;
                  state = finish_forward_call waited;
                }
          ]
    ]
