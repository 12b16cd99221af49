-- ===== src/Supervisor/Foreground/Samples.antt =====
-- Applications that come to the front, are hidden and end, and the theorems at them.
use msys_core.Common.{
  ℕ, ◌≡◌, refl, true, false, none, some, [], ◌∷◌, if◌then◌else◌, elem, remove_all,
}
use msys_core.Common.Text.{Text, codes, text_eq}
use msys_core.Common.Dict.{get}
use msys_core.Manifest.Example.{provider}
use msys_core.Manifest.Types.{Component}
use msys_core.Supervisor.Instances.{Instance, Instances}
use msys_core.Supervisor.Policies.{is_foreground_app}
use msys_core.Supervisor.Foreground.{
  Foreground, no_foreground, mark_foreground, hide_next, forget_foreground, is_top,
  background_foreground, is_ready_key, restore_foreground, front, is_reclaimable, oldest,
  memory_reclaim_candidate,
}
use msys_core.Supervisor.Foreground.Fronts.{
  IsForeground, marked, hidden, initial, step, Reachable-IsForeground, front_lem,
}
use msys_core.Supervisor.Foreground.Reclaim.{Chosen, memory_reclaim_candidate-Chosen}
use msys_core.Value.{Value, str, field, end}

program : Unit {0}
unfolding get is_foreground_app mark_foreground hide_next forget_foreground background_foreground
    is_ready_key restore_foreground front is_reclaimable oldest memory_reclaim_candidate
program = tt

abbrev to_text : Value → Text
to_text (str t) = t
to_text _ = []

abbrev mail : Text
mail = codes "mail"

abbrev maps : Text
maps = codes "maps"

abbrev window : Text → Component
window id = record (provider id []) {
  lifecycle = codes "manual";
  windowing = field (str (codes "mode")) (str (codes "window")) end;
}

abbrev started : Text → ℕ → Instance
started id time = record {
  component = window id;
  generation = 1;
  running = true;
  sock = true;
  ready = true;
  started_at = time;
  subscriptions = [];
  in_flight_calls = 0;
  idle_task = none;
  finalized = false;
}

abbrev running : Instances
running = (mail, started mail 1000) ∷ (maps, started maps 2000) ∷ []

-- Mail is hidden by Home, and Maps is started.
abbrev hidden_mail : Foreground
hidden_mail = (background_foreground mail (mark_foreground mail no_foreground)).1

abbrev maps_in_front : Foreground
maps_in_front = mark_foreground maps hidden_mail

-- Mail ends, and Maps, which is on the screen, counts as hidden, and is stopped next.
ended_in_background :
    (front maps_in_front ≡ some maps)
    × (memory_reclaim_candidate to_text running 0 9000 maps_in_front ≡ some (started mail 1000))
    × (front (forget_foreground mail maps_in_front) ≡ none)
    × (memory_reclaim_candidate to_text running 0 9000 (forget_foreground mail maps_in_front)
        ≡ some (started maps 2000))
unfolding program
ended_in_background = (refl, refl, refl, refl)

restored :
    (restore_foreground running (maps ∷ codes "gone" ∷ mail ∷ []) hidden_mail).stack
    ≡ maps ∷ mail ∷ []
unfolding program
restored = refl

Reachable-IsForeground_example : IsForeground maps_in_front
Reachable-IsForeground_example =
    Reachable-IsForeground maps_in_front
      (step (step (step initial (marked mail)) (hidden mail)) (marked maps))

front_lem_example :
    (front (mark_foreground mail maps_in_front) ≡ some mail)
    × (front (background_foreground mail maps_in_front).1
        ≡ (if is_top mail maps_in_front.stack then none else front maps_in_front))
    × (front (forget_foreground mail maps_in_front) ≡ (
        if elem mail maps_in_front.backgrounded
        then none
        else front (record {
          stack = remove_all mail maps_in_front.stack;
          backgrounded = maps_in_front.backgrounded;
        })))
front_lem_example = front_lem mail maps_in_front

memory_reclaim_candidate-Chosen_example :
    Chosen to_text running 0 9000
      (front maps_in_front)
      maps_in_front.stack
      (memory_reclaim_candidate to_text running 0 9000 maps_in_front)
memory_reclaim_candidate-Chosen_example =
    memory_reclaim_candidate-Chosen to_text running 0 9000 maps_in_front
