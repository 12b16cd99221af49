-- ===== src/Supervisor/Idle/Samples.antt =====
-- An on-demand component with a call, and the theorems at it.
use msys_core.Common.{ℕ, ◌≡◌, refl, true, false, none, some, [], ◌∷◌, elem, nat_eq, arith}
use msys_core.Common.Text.{codes}
use msys_core.Manifest.Example.{provider}
use msys_core.Supervisor.Instances.{Instance}
use msys_core.Supervisor.Policies.{idle_timeout}
use msys_core.Supervisor.Idle.{
  Idle, is_kept, cancel_idle_task, is_pending, schedule_idle_task, begin_forward_call,
  finish_forward_call, is_task, finish_task, idle_stop_after,
}
use msys_core.Supervisor.Idle.Timers.{
  IsIdle, here, then_step, finished, begin_forward_call-never_stops, finish_forward_call-arms,
}

program : Unit {0}
unfolding idle_timeout is_kept cancel_idle_task is_pending schedule_idle_task begin_forward_call
    finish_forward_call is_task finish_task idle_stop_after
program = tt

abbrev search : Instance
search = record {
  component = record (provider (codes "search") []) { idle_timeout_ms = some 30000 };
  generation = 3;
  running = true;
  sock = true;
  ready = true;
  started_at = 0;
  subscriptions = [];
  in_flight_calls = 0;
  idle_task = none;
  finalized = false;
}

abbrev started : Idle
started = record {
  instance_of = search;
  current = true;
  stop_requested = false;
  stopping = false;
  sleeping = [];
  next_task = 7;
}

-- Ready, a timer is armed; a call begins and returns.
abbrev armed : Idle
armed = (schedule_idle_task started).1

abbrev called : Idle
called = begin_forward_call armed

abbrev returned : Idle
returned = finish_forward_call called

timers :
    ((idle_stop_after 7 armed).0 ≡ true)
    × ((idle_stop_after 7 called).0 ≡ false)
    × ((idle_stop_after 7 returned).0 ≡ false)
    × ((idle_stop_after 8 returned).0 ≡ true)
    × (returned.sleeping ≡ 8 ∷ 7 ∷ [])
unfolding program
timers = (refl, refl, refl, refl, refl)

called-IsIdle : IsIdle called
unfolding program
called-IsIdle = record { quiet = λ task e. cc; known = λ task e. cc }

begin_forward_call-never_stops_example : (idle_stop_after 7 returned).0 ≡ false
unfolding program
begin_forward_call-never_stops_example =
    begin_forward_call-never_stops 7 armed returned (omega arith) (then_step here finished)

finish_forward_call-arms_example :
    (task : ℕ) × (returned.instance_of.idle_task ≡ some task)
    × (elem task returned.sleeping ≡ true)
    × ((idle_stop_after task returned).0 ≡ true)
unfolding program
finish_forward_call-arms_example =
    finish_forward_call-arms called 30000 called-IsIdle refl refl refl
