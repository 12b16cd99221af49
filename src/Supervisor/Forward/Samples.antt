-- ===== src/Supervisor/Forward/Samples.antt =====
-- Calls to one instance, and the theorems at them.
use msys_core.Common.{ℕ, ◌≡◌, refl, true, false, Option, none, some, []}
use msys_core.Common.Int.{ℤ, pos}
use msys_core.Common.Text.{codes}
use msys_core.Acl.{after_colon, is_ascii_alnum, is_topic_char}
use msys_core.Manifest.Example.{provider}
use msys_core.Manifest.Types.{component_key}
use msys_core.Supervisor.Forward.{
  deadline_of, forwarded_timeout, is_target_name, is_logical_target, Forwarded, forwarded, Answer,
  Sending, taken, refused, os_error, raised, answered, answer_response, failure_response,
  is_reachable, forward_call,
}
use msys_core.Supervisor.Forward.Balance.{forwarding}
use msys_core.Supervisor.Idle.{
  Idle, cancel_idle_task, is_kept, is_pending, schedule_idle_task, begin_forward_call,
  finish_forward_call,
}
use msys_core.Supervisor.Policies.{idle_timeout}
use msys_core.Supervisor.Responses.{
  is_error, expired_before_provider_delivery, error_response, with_id,
}
use msys_core.Value.{Value, Fields, str, int, field, end, put_field}

program : Unit {0}
unfolding after_colon is_ascii_alnum is_topic_char component_key deadline_of forwarded_timeout
    is_target_name is_logical_target forwarded answer_response failure_response is_reachable
    forward_call idle_timeout cancel_idle_task is_kept is_pending schedule_idle_task
    begin_forward_call finish_forward_call is_error expired_before_provider_delivery error_response
    with_id put_field
program = tt

abbrev state : Idle
state = record {
  instance_of = record {
    component = provider (codes "audio") [];
    generation = 1;
    running = true;
    sock = true;
    ready = true;
    started_at = 0;
    subscriptions = [];
    in_flight_calls = 0;
    idle_task = none;
    finalized = false;
  };
  current = true;
  stop_requested = false;
  stopping = false;
  sleeping = [];
  next_task = 0;
}

abbrev played : Fields
played = field (str (codes "type")) (str (codes "return")) end

abbrev wait : Forwarded → ℕ → Idle → Answer × Idle
wait frame timeout s = (answered played, s)

abbrev no_floats : Value → ℤ
no_floats v = pos 0

abbrev play : ℕ → Fields
play deadline =
    field (str (codes "target")) (str (codes "role:audio"))
      (field (str (codes "deadline_ms")) (int (pos deadline)) end)

-- A socket that takes every frame, and two that do not.
abbrev open_socket : Forwarded → Sending
open_socket frame = taken

abbrev closed_socket : Forwarded → Sending
closed_socket frame = refused (os_error (codes "Broken pipe"))

abbrev oversize : Forwarded → Sending
oversize frame = refused raised

abbrev five : Option ℤ
five = some (pos 5)

forwards :
    ((forwarding no_floats open_socket wait 1000 five
        (codes "public")
        (play 900000)
        7
        state).response
      ≡ some (
          field
            (str (codes "type"))
            (str (codes "return"))
            (field (str (codes "id")) (int (pos 5)) end)))
    × (forwarded_timeout no_floats 1000 (play 900000) ≡ 300000)
    × ((forwarded (codes "shell:audio") 7 (codes "public") (play 900000)).logical_target
        ≡ some (codes "role:audio"))
    × ((forwarding no_floats open_socket wait 1000 five (codes "public") (play 500) 7 state).sent
        ≡ none)
unfolding program
forwards = (refl, refl, refl, refl)

-- Nothing is sent where the socket refuses; the method raises where the exception is no `OSError`.
refusals :
    ((forwarding no_floats closed_socket wait 1000 five (codes "public") (play 4000) 7 state).sent
      ≡ none)
    × ((forwarding no_floats closed_socket wait 1000 five
          (codes "public")
          (play 4000)
          7
          state).response
        ≡ some (error_response (pos 5) (codes "CALL_SEND_FAILED") (codes "Broken pipe")))
    × ((forwarding no_floats oversize wait 1000 five (codes "public") (play 4000) 7 state).response
        ≡ none)
    × ((forwarding no_floats oversize wait 1000 five
          (codes "public")
          (play 4000)
          7
          state).state.instance_of.in_flight_calls
        ≡ 0)
unfolding program
refusals = (refl, refl, refl, refl)
