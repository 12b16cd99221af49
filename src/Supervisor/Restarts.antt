-- ===== src/Supervisor/Restarts.antt =====
-- How often a component that fails is started again: `failure_history` and the quarantine.
pub mod Budget
pub mod Quarantine
mod Samples
use msys_core.Common.{
  ℕ, zero, suc, ◌+◌, ◌-◌, ◌*◌, Bool, true, false, not, ◌&&◌, ◌||◌, Option, none, some, List, [],
  ◌∷◌, ◌++◌, elem, filter, remove_all, length, ltb, leb, if◌then◌else◌,
}
use msys_core.Common.Text.{Text, text_eq}
use msys_core.Common.Dict.{Dict, get, put, remove}
use msys_core.Manifest.Types.{Component, Components, component_key}
use msys_core.Supervisor.Policies.{inherits_visual_session}
use msys_core.Supervisor.Foreground.{add}
use msys_core.Value.{Value}

-- `display_outage`, if there is one, is its "recovery_allowed".
pub record Restarts : Type 0 where
  pub components : Components
  pub display_outage : Option (List Text)
  pub failure_history : Dict Text (List ℕ)
  pub quarantined : List Text
  pub quarantine_times : Dict Text ℕ

pub display_outage_blocks : (Value → Text) → Option (List Text) → Component → Bool
display_outage_blocks to_text none c = false
display_outage_blocks to_text (some recovery_allowed) c =
    if not (inherits_visual_session to_text c)
    then false
    else not (elem (component_key c) recovery_allowed)

-- Is there a component of that key, and does it wait for a display?
pub outage_defers : (Value → Text) → Text → Restarts → Bool
unfolding display_outage_blocks
outage_defers to_text key s = elim (get key s.components) [
  | none ↦ false
  | some c ↦ display_outage_blocks to_text s.display_outage c
]

-- The failures of a minute, in milliseconds.
abbrev pub window_ms : ℕ
window_ms = 60000

abbrev pub max_failures : ℕ
max_failures = 5

-- `self.failure_history.get(key, [])`
pub history_of : Text → Restarts → List ℕ
history_of key s = elim (get key s.failure_history) [ none ↦ [] | some times ↦ times ]

pub recent_failures : Text → ℕ → Restarts → List ℕ
unfolding history_of
recent_failures key now s = filter (λ x. ltb now (x + window_ms)) (history_of key s)

-- `0.25 * 2 ** n` seconds, in milliseconds
abbrev pub doubled : ℕ → ℕ
doubled zero = 250
doubled (suc n) = 2 * doubled n

abbrev pub min : ℕ → ℕ → ℕ
min a b = if leb a b then a else b

-- The delay before the component is started again, in milliseconds, or None.
pub record_component_failure : (Value → Text) → Text → ℕ → Restarts → Option ℕ × Restarts
unfolding outage_defers recent_failures
record_component_failure to_text key now s =
    if outage_defers to_text key s
    then (none, s)
    else let failures = recent_failures key now s ++ (now ∷ []) in
      let recorded = record s { failure_history = put key failures s.failure_history } in
      if leb max_failures (length failures)
      then (
        none,
        record recorded {
          quarantined = add key s.quarantined;
          quarantine_times = put key now s.quarantine_times;
        },
      )
      else (some (min 30000 (doubled (length failures - 1))), recorded)

-- What a reload of the catalog does for a component that is added or changed.
pub forget_failures : Text → Restarts → Restarts
forget_failures key s = record s {
  failure_history = remove key s.failure_history;
  quarantined = remove_all key s.quarantined;
  quarantine_times = remove key s.quarantine_times;
}

-- One turn of the loop that lifts, when a display fails, the quarantines since the cutoff.
pub lift_quarantine : ℕ → Text → Restarts → Restarts
lift_quarantine cutoff key s = elim (get key s.quarantine_times) [
  | none ↦ s
  | some quarantined_at ↦
      if elem key s.quarantined && leb cutoff quarantined_at
      then record s {
        quarantined = remove_all key s.quarantined;
        quarantine_times = remove key s.quarantine_times;
      }
      else s
]

pub lift_quarantines : ℕ → List Text → Restarts → Restarts
unfolding lift_quarantine
lift_quarantines cutoff [] s = s
lift_quarantines cutoff (key ∷ ordered) s =
    lift_quarantines cutoff ordered (lift_quarantine cutoff key s)
