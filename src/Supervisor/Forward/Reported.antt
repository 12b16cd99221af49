-- ===== src/Supervisor/Forward/Reported.antt =====
-- The responses to a call whose frame was refused, or that was sent.
use msys_core.Common.{◌≡◌, refl, Option, true, some, none}
use msys_core.Common.Int.{ℤ}
use msys_core.Common.Text.{Text, codes, text_beq_iff}
use msys_core.Supervisor.Forward.{
  Failure, timed_out, os_error, raised, Answer, answered, broken, answer_response, failure_response,
}
use msys_core.Supervisor.Responses.{field_is, error_response, is_error, with_id}
use msys_core.Value.{Fields, int, get_field, put_field}

-- An error response with an id, a code and a message.
abbrev IsErrorOf : ℤ → Text → Text → Option Fields → Type 0
IsErrorOf id code message response =
    (r : Fields) × (response ≡ some r)
    × (is_error r ≡ true)
    × (get_field (codes "id") r ≡ some (int id))
    × (field_is (codes "code") code r ≡ true)
    × (field_is (codes "message") message r ≡ true)

-- The response to a failure: none for what is neither a timeout nor an `OSError`.
abbrev pub Reports : ℤ → Text → Failure → Option Fields → Type 0
Reports id key timed_out response = IsErrorOf id (codes "CALL_TIMEOUT") key response
Reports id key (os_error problem) response =
    IsErrorOf id (codes "CALL_SEND_FAILED") problem response
Reports id key raised response = response ≡ none

-- The response to a call that was sent: the answer, under the id of the message.
abbrev pub Answers : ℤ → Text → Answer → Option Fields → Type 0
Answers id key (answered response) r = r ≡ some (put_field (codes "id") (int id) response)
Answers id key (broken failure) r = Reports id key failure r

pub failure_response-Reports :
    (id : ℤ) (key : Text) (failure : Failure)
    → Reports id key failure (failure_response id key failure)
unfolding failure_response error_response is_error
failure_response-Reports id key timed_out =
    (_, refl, refl, refl, refl, (text_beq_iff key key).1 refl)
failure_response-Reports id key (os_error problem) =
    (_, refl, refl, refl, refl, (text_beq_iff problem problem).1 refl)
failure_response-Reports id key raised = refl

pub answer_response-Answers :
    (id : ℤ) (key : Text) (answer : Answer) → Answers id key answer (answer_response id key answer)
unfolding answer_response with_id
answer_response-Answers id key (answered response) = refl
answer_response-Answers id key (broken failure) = failure_response-Reports id key failure
