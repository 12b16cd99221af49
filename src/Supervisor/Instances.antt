-- ===== src/Supervisor/Instances.antt =====
-- `Instance`: a started component. Of a process only whether it runs is kept (`process` is not None
-- and `poll` returns None), of a socket whether it is open. Times are in milliseconds of the
-- monotonic clock; a task is a number that no other task has.
use msys_core.Common.{ℕ, Bool, Option, List}
use msys_core.Common.Text.{Text}
use msys_core.Common.Dict.{Dict}
use msys_core.Manifest.Types.{Component}

pub record Instance : Type 0 where
  pub component : Component
  pub generation : ℕ
  pub running : Bool
  pub sock : Bool
  pub ready : Bool
  pub started_at : ℕ
  pub subscriptions : List Text
  pub in_flight_calls : ℕ
  pub idle_task : Option ℕ
  pub finalized : Bool

-- `MSYSDaemon.instances`
abbrev pub Instances : Type 0
Instances = Dict Text Instance
