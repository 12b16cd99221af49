-- ===== src/Supervisor/Visual.antt =====
-- In which order the clients of a display are started again.
mod Orders
use msys_core.Common.{
  Bool, true, false, not, ◌&&◌, Option, none, some, List, [], ◌∷◌, ◌++◌, elem, filter, distinct,
  if◌then◌else◌,
}
use msys_core.Common.Sorting.{sorted}
use msys_core.Common.Text.{Text, text_eq, text_leb}
use msys_core.Supervisor.Foreground.{reversed}
use msys_core.Supervisor.Instances.{Instance, Instances}
use msys_core.Supervisor.Policies.{inherits_visual_session}
use msys_core.Value.{Value}

-- `candidates` is a set; `startup` are the texts of the profile's list, and `stack` is the
-- foreground stack.
pub order_visual_consumer_keys : List Text → List Text → List Text → List Text
order_visual_consumer_keys startup stack candidates =
    let profile_order = filter (λ key. elem key candidates) startup in
    let remaining = filter (λ key. not (elem key profile_order)) candidates in
    let foreground_order = filter (λ key. elem key remaining) (reversed stack) in
    let others = filter (λ key. not (elem key foreground_order)) remaining in
    distinct (profile_order ++ (foreground_order ++ sorted text_leb others))

-- The keys of the instances that show on the display; `is_current` is
-- `self.components.get(key) is instance.component`.
pub visual_consumers : (Value → Text) → (Instance → Bool) → Instances → List Text
visual_consumers to_text is_current [] = []
visual_consumers to_text is_current ((key, i) ∷ instances) =
    let others = visual_consumers to_text is_current instances in
    if not i.finalized && is_current i && inherits_visual_session to_text i.component
    then key ∷ others
    else others

pub ordered_visual_consumers :
    (Value → Text) → (Instance → Bool) → List Text → List Text → Instances → List Text
unfolding order_visual_consumer_keys visual_consumers
ordered_visual_consumers to_text is_current startup stack instances =
    order_visual_consumer_keys startup stack (visual_consumers to_text is_current instances)
