-- ===== src/Supervisor/Foreground.antt =====
-- The applications on the screen: `foreground_stack`, from the front to the back, and
-- `backgrounded_components`, those that Home has hidden.
pub mod Fronts
pub mod Reclaim
mod Samples
use msys_core.Common.{
  ℕ, Bool, true, false, not, ◌&&◌, ◌||◌, Option, none, some, List, [], ◌∷◌, ◌++◌, elem, filter,
  remove_all, if◌then◌else◌, ◌==◌, ltb, ◌+◌,
}
use msys_core.Common.Text.{Text, text_eq}
use msys_core.Common.Dict.{get}
use msys_core.Supervisor.Instances.{Instance, Instances}
use msys_core.Supervisor.Policies.{is_foreground_app}
use msys_core.Value.{Value}

pub record Foreground : Type 0 where
  pub stack : List Text
  pub backgrounded : List Text

abbrev pub no_foreground : Foreground
no_foreground = record { stack = []; backgrounded = [] }

-- `backgrounded.add(key)`
abbrev pub add : Text → List Text → List Text
add key keys = if elem key keys then keys else key ∷ keys

pub mark_foreground : Text → Foreground → Foreground
mark_foreground key s = record {
  stack = key ∷ remove_all key s.stack;
  backgrounded = remove_all key s.backgrounded;
}

-- `if was_backgrounded and self.foreground_stack: backgrounded.add(self.foreground_stack[0])`
pub hide_next : Bool → List Text → List Text → List Text
hide_next true (top ∷ below) backgrounded = add top backgrounded
hide_next true [] backgrounded = backgrounded
hide_next false stack backgrounded = backgrounded

pub forget_foreground : Text → Foreground → Foreground
unfolding hide_next
forget_foreground key s =
    let stack = remove_all key s.stack in
    record {
      stack = stack;
      backgrounded = hide_next (elem key s.backgrounded) stack (remove_all key s.backgrounded);
    }

-- `self.foreground_stack[0] == key`, false without an application.
abbrev pub is_top : Text → List Text → Bool
is_top key [] = false
is_top key (top ∷ below) = top == key

-- The result: was the key in front, and was it hidden already.
pub background_foreground : Text → Foreground → (Bool × Bool) × Foreground
background_foreground key s = if not (is_top key s.stack) then ((false, false), s) else (
  (true, elem key s.backgrounded),
  record { stack = s.stack; backgrounded = add key s.backgrounded },
)

-- `key in self.instances and self.instances[key].ready`
pub is_ready_key : Instances → Text → Bool
is_ready_key instances key = elim (get key instances) [ none ↦ false | some i ↦ i.ready ]

pub restore_foreground : Instances → List Text → Foreground → Foreground
unfolding is_ready_key
restore_foreground instances foreground s =
    let restored = filter (is_ready_key instances) foreground in
    record {
      stack = restored ++ filter (λ key. not (elem key restored)) s.stack;
      backgrounded = s.backgrounded;
    }

-- `foreground`, as _memory_reclaim_candidate computes it.
pub front : Foreground → Option Text
front s = elim s.stack [
  | [] ↦ none
  | top ∷ below ↦ if elem top s.backgrounded then none else some top
]

abbrev pub reversed : List Text → List Text
reversed [] = []
reversed (key ∷ keys) = reversed keys ++ (key ∷ [])

-- The conditions of the loop that do not skip a key.
pub is_reclaimable : (Value → Text) → ℕ → ℕ → Instance → Bool
is_reclaimable to_text minimum_age now i = not (
    i.finalized
    || not i.running
    || not (is_foreground_app to_text i.component)
    || ltb now (i.started_at + minimum_age))

-- `key == foreground`
abbrev pub is_front : Option Text → Text → Bool
is_front none key = false
is_front (some top) key = key == top

pub oldest : (Value → Text) → Instances → ℕ → ℕ → Option Text → List Text → Option Instance
unfolding is_reclaimable
oldest to_text instances minimum_age now foreground [] = none
oldest to_text instances minimum_age now foreground (key ∷ keys) =
    let later = oldest to_text instances minimum_age now foreground keys in
    if is_front foreground key then later else elim (get key instances) [
      | none ↦ later
      | some i ↦ if is_reclaimable to_text minimum_age now i then some i else later
    ]

pub memory_reclaim_candidate : (Value → Text) → Instances → ℕ → ℕ → Foreground → Option Instance
unfolding oldest front
memory_reclaim_candidate to_text instances minimum_age now s =
    oldest to_text instances minimum_age now (front s) (reversed s.stack)
