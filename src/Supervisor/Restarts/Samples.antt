-- ===== src/Supervisor/Restarts/Samples.antt =====
-- A component that fails again and again, and the theorems at it.
use msys_core.Common.{
  ℕ, ◌≤◌, ◌<◌, ◌≡◌, ◌⊎◌, refl, true, false, none, some, List, [], ◌∷◌, elem, length, arith,
}
use msys_core.Common.Text.{Text, codes, text_eq}
use msys_core.Common.Dict.{get, put, remove}
use msys_core.Manifest.Example.{provider}
use msys_core.Manifest.Types.{component_key}
use msys_core.Supervisor.Policies.{inherits_visual_session}
use msys_core.Supervisor.Restarts.{
  Restarts, display_outage_blocks, outage_defers, history_of, recent_failures, doubled,
  record_component_failure, forget_failures, lift_quarantine, lift_quarantines,
}
use msys_core.Supervisor.Restarts.Budget.{IsCounted, record_component_failure_lem}
use msys_core.Supervisor.Restarts.Quarantine.{
  fail_at, fail_at-quarantined, run, failed, replaced, lifted, IsConsistent, run-IsConsistent,
}
use msys_core.Value.{Value, Fields, str, field, end}

program : Unit {0}
unfolding get put remove component_key inherits_visual_session display_outage_blocks outage_defers
    history_of recent_failures record_component_failure forget_failures lift_quarantine
    lift_quarantines
program = tt

abbrev to_text : Value → Text
to_text (str t) = t
to_text _ = []

abbrev panel : Text
panel = codes "shell:panel"

abbrev no_failures : Restarts
no_failures = record {
  components = [];
  display_outage = none;
  failure_history = [];
  quarantined = [];
  quarantine_times = [];
}

abbrev crashes : List ℕ
crashes = 1000 ∷ 1500 ∷ 2500 ∷ 4500 ∷ 9000 ∷ []

abbrev on_display : Fields
on_display =
    field (str (codes "system")) (str (codes "x11"))
      (field (str (codes "display")) (str (codes "inherit")) end)

-- The panel shows on a display that is out.
abbrev in_outage : Restarts
in_outage = record no_failures {
  components = (panel, record (provider (codes "panel") []) { windowing = on_display }) ∷ [];
  display_outage = some [];
}

delays :
    ((record_component_failure to_text panel 1000 no_failures).0 ≡ some 250)
    × ((record_component_failure to_text panel 5000
          (fail_at to_text panel (1000 ∷ 1500 ∷ 2500 ∷ []) no_failures)).0
        ≡ some 2000)
    × ((record_component_failure to_text panel 90000 (fail_at to_text panel crashes no_failures)).0
        ≡ some 250)
unfolding program
delays = (refl, refl, refl)

deferred : fail_at to_text panel crashes in_outage ≡ in_outage
unfolding program
deferred = refl

record_component_failure_lem_example :
    let (delay, t) = record_component_failure to_text panel 1000 no_failures in
    let n = length (recent_failures panel 1000 no_failures) in
    (outage_defers to_text panel no_failures ≡ true) × (delay ≡ none) × (t ≡ no_failures)
    ⊎ (outage_defers to_text panel no_failures ≡ false)
      × IsCounted panel 1000 no_failures t
      × ((4 ≤ n)
            × (delay ≡ none)
            × (elem panel t.quarantined ≡ true)
            × (get panel t.quarantine_times ≡ some 1000)
          ⊎ (n < 4)
            × (delay ≡ some (doubled n))
            × (doubled n ≤ 2000)
            × (t.quarantined ≡ no_failures.quarantined))
record_component_failure_lem_example = record_component_failure_lem to_text panel 1000 no_failures

fail_at-quarantined_example :
    elem panel (fail_at to_text panel crashes no_failures).quarantined ≡ true
unfolding program
fail_at-quarantined_example =
    fail_at-quarantined to_text 1000 panel crashes no_failures refl refl (omega arith)

run-IsConsistent_example :
    IsConsistent to_text
      (run to_text (failed panel 1000 ∷ lifted 500 (panel ∷ []) ∷ replaced panel ∷ []) no_failures)
unfolding get
run-IsConsistent_example =
    run-IsConsistent to_text (failed panel 1000 ∷ lifted 500 (panel ∷ []) ∷ replaced panel ∷ [])
      no_failures (record { timed = λ key. refl; times_once = tt; history_once = tt })
