-- ===== src/Supervisor/Idle/Timers.antt =====
-- No call is ever cut off by the idle timer, and the timer is armed when the last call returns.
use msys_core.Common.{
  ℕ, ◌<◌, ◌≡◌, refl, Bool, true, false, none, some, elem, nat_beq_iff, nat_eq, arith, Option-cases,
  inl, inr,
}
use msys_core.Supervisor.Policies.{idle_timeout}
use msys_core.Supervisor.Idle.{
  Idle, with_calls, is_kept, cancel_idle_task, is_pending, arm, schedule_idle_task,
  begin_forward_call, finish_forward_call, is_task, finish_task, idle_stop_after,
}

-- What may happen to an instance, in any order: a call is forwarded to it or returns, it becomes
-- ready, a task wakes or is cancelled, the tasks of the instance are cancelled, and the rest of the
-- supervisor changes what the conditions read.
pub data Step (s : Idle) : Idle → Type 0 where
  began : Step s (begin_forward_call s)
  finished : Step s (finish_forward_call s)
  scheduled : Step s (schedule_idle_task s).1
  woke : (task : ℕ) → elem task s.sleeping ≡ true → Step s (idle_stop_after task s).1
  cancelled : (task : ℕ) → Step s (finish_task task s)
  dropped : Step s (cancel_idle_task s)
  changed :
      (ready finalized current stop_requested stopping : Bool)
      → Step s (record s {
        instance_of = record s.instance_of { ready = ready; finalized = finalized };
        current = current;
        stop_requested = stop_requested;
        stopping = stopping;
      })

pub data Steps (s : Idle) : Idle → Type 0 where
  here : Steps s s
  then_step : {t u : Idle} → Steps s t → Step t u → Steps s u

-- No timer is armed while a call is in flight, and tasks are older than the next one.
pub record IsIdle (s : Idle) : Type 0 where
  pub quiet : (task : ℕ) → s.instance_of.idle_task ≡ some task → s.instance_of.in_flight_calls ≡ 0
  pub known : (task : ℕ) → s.instance_of.idle_task ≡ some task → task < s.next_task

schedule-IsIdle : (s : Idle) → IsIdle s → IsIdle (schedule_idle_task s).1
unfolding schedule_idle_task
schedule-IsIdle s h = record {
  quiet = λ task e. ground (arith, h.quiet task);
  known = λ task e. ground (arith, h.known task);
}

finish_task-IsIdle : (task : ℕ) (s : Idle) → IsIdle s → IsIdle (finish_task task s)
unfolding finish_task
finish_task-IsIdle task s h = record {
  quiet = λ other e. ground (arith, h.quiet other);
  known = λ other e. ground (arith, h.known other);
}

finish_forward_call-IsIdle : (s : Idle) → IsIdle s → IsIdle (finish_forward_call s)
unfolding finish_forward_call
finish_forward_call-IsIdle s h = record {
  quiet = λ other e. ground (arith, h.quiet other);
  known = λ other e. ground (arith, h.known other);
}

step-IsIdle : (s t : Idle) → Step s t → IsIdle s → IsIdle t
unfolding begin_forward_call cancel_idle_task idle_stop_after
step-IsIdle s t began h = record { quiet = λ task e. cc; known = λ task e. cc }
step-IsIdle s t finished h = finish_forward_call-IsIdle s h
step-IsIdle s t scheduled h = schedule-IsIdle s h
step-IsIdle s t (woke task e) h = finish_task-IsIdle task s h
step-IsIdle s t (cancelled task) h = finish_task-IsIdle task s h
step-IsIdle s t dropped h = record { quiet = λ task e. cc; known = λ task e. cc }
step-IsIdle s t (changed r f c q p) h = record { quiet = h.quiet; known = h.known }

-- Whatever happens, no timer is armed while a call is in flight, and an armed timer was started.
pub Steps-IsIdle : (s t : Idle) → Steps s t → IsIdle s → IsIdle t
Steps-IsIdle s t here h = h
Steps-IsIdle s t (then_step {t = r} rs step) h = step-IsIdle r t step (Steps-IsIdle s r rs h)

-- A task that is neither armed nor new.
record IsSpent (task : ℕ) (s : Idle) : Type 0 where
  free : is_task task s.instance_of.idle_task ≡ false
  past : task < s.next_task

step-IsSpent : (task : ℕ) (s t : Idle) → Step s t → IsSpent task s → IsSpent task t
unfolding begin_forward_call cancel_idle_task idle_stop_after finish_task finish_forward_call
    schedule_idle_task is_task
step-IsSpent task s t began h = record { free = refl; past = h.past }
step-IsSpent task s t finished h = record {
  free = ground (arith, h.free, h.past);
  past = ground (arith, h.past);
}
step-IsSpent task s t scheduled h = record {
  free = ground (arith, h.free, h.past);
  past = ground (arith, h.past);
}
step-IsSpent task s t (woke other e) h = record {
  free = ground (arith, h.free);
  past = ground (arith, h.past);
}
step-IsSpent task s t (cancelled other) h = record {
  free = ground (arith, h.free);
  past = ground (arith, h.past);
}
step-IsSpent task s t dropped h = record { free = refl; past = h.past }
step-IsSpent task s t (changed r f c q p) h = record { free = h.free; past = h.past }

Steps-IsSpent : (task : ℕ) (s t : Idle) → Steps s t → IsSpent task s → IsSpent task t
Steps-IsSpent task s t here h = h
Steps-IsSpent task s t (then_step {t = r} rs step) h =
    step-IsSpent task r t step (Steps-IsSpent task s r rs h)

-- A timer that was started before a call began never stops the component, whatever happens between
-- the call and the end of its sleep: not during the call, and not after it, when a new full timeout
-- runs.
pub begin_forward_call-never_stops :
    (task : ℕ) (s t : Idle)
    → task < s.next_task
    → Steps (begin_forward_call s) t
    → (idle_stop_after task t).0 ≡ false
unfolding idle_stop_after begin_forward_call cancel_idle_task is_task
begin_forward_call-never_stops task s t old steps =
    let spent =
      Steps-IsSpent task (begin_forward_call s) t steps (record { free = refl; past = old }) in
    ground (arith, spent.free)

disarmed :
    (s : Idle) → IsIdle s → s.instance_of.in_flight_calls ≡ 1 → s.instance_of.idle_task ≡ none
disarmed s h one = elim (Option-cases s.instance_of.idle_task) [
  | inl e ↦ e
  | inr (task, e) ↦ absurd (ground (arith, h.quiet task e))
]

schedule_idle_task-arms :
    (s : Idle) (delay : ℕ)
    → idle_timeout s.instance_of.component ≡ some delay
    → is_kept s ≡ false
    → s.instance_of.idle_task ≡ none
    → schedule_idle_task s ≡ (some s.next_task, arm s)
unfolding schedule_idle_task is_pending
schedule_idle_task-arms s delay timeout free off = ground (arith, timeout, free, off)

last_call_arms :
    (s : Idle) (delay : ℕ)
    → IsIdle s
    → idle_timeout s.instance_of.component ≡ some delay
    → s.instance_of.in_flight_calls ≡ 1
    → is_kept (with_calls 0 s) ≡ false
    → finish_forward_call s ≡ arm (with_calls 0 s)
unfolding finish_forward_call
last_call_arms s delay h timeout one free =
    let armed = schedule_idle_task-arms (with_calls 0 s) delay timeout free (disarmed s h one) in
    ground (arith, one, armed)

arm-stops :
    (s : Idle)
    → is_kept (arm s) ≡ false
    → ((arm s).instance_of.idle_task ≡ some s.next_task)
      × (elem s.next_task (arm s).sleeping ≡ true)
      × ((idle_stop_after s.next_task (arm s)).0 ≡ true)
unfolding idle_stop_after is_task
arm-stops s free = ground (arith, free, nat_beq_iff s.next_task s.next_task)

-- When the last call of an instance that has a timeout returns, and nothing keeps the instance, its
-- timer is armed; and if nothing changes until it wakes, the component is stopped.
pub finish_forward_call-arms :
    (s : Idle) (delay : ℕ)
    → IsIdle s
    → idle_timeout s.instance_of.component ≡ some delay
    → s.instance_of.in_flight_calls ≡ 1
    → is_kept (with_calls 0 s) ≡ false
    → (task : ℕ) × ((finish_forward_call s).instance_of.idle_task ≡ some task)
      × (elem task (finish_forward_call s).sleeping ≡ true)
      × ((idle_stop_after task (finish_forward_call s)).0 ≡ true)
unfolding is_kept
finish_forward_call-arms s delay h timeout one free =
    let (armed, sleeps, stops) = arm-stops (with_calls 0 s) free in
    rw (last_call_arms s delay h timeout one free) (s.next_task, armed, sleeps, stops)

-- A call that begins and returns leaves the count as it was.
pub finish-begin :
    (s t : Idle)
    → t.instance_of.in_flight_calls ≡ (begin_forward_call s).instance_of.in_flight_calls
    → (finish_forward_call t).instance_of.in_flight_calls ≡ s.instance_of.in_flight_calls
unfolding begin_forward_call cancel_idle_task finish_forward_call schedule_idle_task
finish-begin s t e = ground arith
