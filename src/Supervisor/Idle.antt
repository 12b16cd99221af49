-- ===== src/Supervisor/Idle.antt =====
-- When an on-demand component that has no calls is stopped: the calls in flight of an instance, and
-- the task that sleeps for its idle timeout.
pub mod Timers
mod Samples
use msys_core.Common.{
  ℕ, suc, ◌-◌, Bool, true, false, not, ◌&&◌, ◌||◌, Option, none, some, List, [], ◌∷◌, elem,
  remove_all, nat_beq, nat_eq, if◌then◌else◌, ◌==◌,
}
use msys_core.Supervisor.Instances.{Instance}
use msys_core.Supervisor.Policies.{idle_timeout}

-- An instance, and what the supervisor knows of it: is it the one of its key in `instances`, is a
-- stop of its key requested, does the supervisor stop. `sleeping` are the idle tasks that are not
-- done; `next_task` is the next new one.
pub record Idle : Type 0 where
  pub instance_of : Instance
  pub current : Bool
  pub stop_requested : Bool
  pub stopping : Bool
  pub sleeping : List ℕ
  pub next_task : ℕ

abbrev pub with_task : Option ℕ → Idle → Idle
with_task task s = record s { instance_of = record s.instance_of { idle_task = task } }

abbrev pub with_calls : ℕ → Idle → Idle
with_calls calls s = record s { instance_of = record s.instance_of { in_flight_calls = calls } }

-- The conditions under which a timer may neither be armed nor stop the component.
unfoldable pub is_kept : Idle → Bool
is_kept s =
    not (nat_beq s.instance_of.in_flight_calls 0)
    || not s.instance_of.ready
    || s.instance_of.finalized
    || not s.current
    || s.stopping
    || s.stop_requested

-- Cancellation reaches the task later: `cancelled`.
unfoldable pub cancel_idle_task : Idle → Idle
cancel_idle_task s = with_task none s

-- `existing is not None and not existing.done()`
unfoldable pub is_pending : Option ℕ → List ℕ → Bool
is_pending none sleeping = false
is_pending (some task) sleeping = elem task sleeping

abbrev pub arm : Idle → Idle
arm s = record (with_task (some s.next_task) s) {
  sleeping = s.next_task ∷ s.sleeping;
  next_task = suc s.next_task;
}

-- The task that sleeps, if any.
unfoldable pub schedule_idle_task : Idle → Option ℕ × Idle
unfolding is_kept is_pending
schedule_idle_task s = elim (idle_timeout s.instance_of.component) [
  | none ↦ (none, s)
  | some delay ↦
      if is_kept s
      then (none, s)
      else if is_pending s.instance_of.idle_task s.sleeping
      then (s.instance_of.idle_task, s)
      else (some s.next_task, arm s)
]

unfoldable pub begin_forward_call : Idle → Idle
unfolding cancel_idle_task
begin_forward_call s = cancel_idle_task (with_calls (suc s.instance_of.in_flight_calls) s)

unfoldable pub finish_forward_call : Idle → Idle
unfolding schedule_idle_task
finish_forward_call s =
    let calls = s.instance_of.in_flight_calls in
    if nat_beq calls 0
    then s
    else let t = with_calls (calls - 1) s in
      if nat_beq (calls - 1) 0 then (schedule_idle_task t).1 else t

-- `instance.idle_task is current_task`
pub is_task : ℕ → Option ℕ → Bool
is_task task none = false
is_task task (some other) = other == task

-- The `finally` of the task, which is done then.
pub finish_task : ℕ → Idle → Idle
unfolding is_task
finish_task task s =
    let t = record s { sleeping = remove_all task s.sleeping } in
    if is_task task s.instance_of.idle_task then with_task none t else t

-- The task after its sleep: does it call `stop_component`, and the state once it is done.
pub idle_stop_after : ℕ → Idle → Bool × Idle
unfolding is_task is_kept finish_task
idle_stop_after task s =
    (not (not (is_task task s.instance_of.idle_task) || is_kept s), finish_task task s)
