-- ===== src/Supervisor/Runtime.antt =====
-- What the dispatch of a call uses of the rest of the supervisor. The catalogs are those of Roles
-- and Services; they are replaced together, and `catalog_epoch` counts that.
use msys_core.Common.{ℕ, Bool, Option, some, ◌≡◌}
use msys_core.Common.Int.{ℤ}
use msys_core.Common.Text.{Text}
use msys_core.Manifest.Types.{component_key}
use msys_core.Roles.Types.{RoleRegistry}
use msys_core.Services.{Services}
use msys_core.Supervisor.Instances.{Instance}
use msys_core.Value.{Fields}

pub record World (E : Type 0) : Type 0 where
  pub role_registry : RoleRegistry
  pub service_catalog : Services
  pub catalog_epoch : ℕ
  -- everything else: processes, sockets, the clock
  pub rest : E

-- What dispatch reads of a call: `id`, the name after the colon of `target`, `method`, `idempotent`.
pub record Call : Type 0 where
  pub id : ℤ
  pub name : Text
  pub method : Text
  pub idempotent : Bool

-- `ensure_ready`, where None is an exception; `stop_component`; is the component of the instance the
-- one of the catalog; `_forward_call` where it returns: its exceptions leave the dispatch too.
pub record Runtime (E : Type 0) : Type 0 where
  pub ensure_ready : Text → World E → Option Instance × World E
  pub stop_component : Instance → World E → World E
  pub is_current : Instance → World E → Bool
  -- has the key an instance that is not finalized and whose process runs
  pub is_running : Text → World E → Bool
  pub announce_foreground_closing : World E → World E
  pub forward_call : Instance → Call → World E → Fields × World E

-- An instance that is started for a key is one of that component.
pub record IsRuntime {E : Type 0} (runtime : Runtime E) : Type 0 where
  pub started_key :
      (key : Text) (w : World E) (i : Instance)
      → (runtime.ensure_ready key w).0 ≡ some i
      → component_key i.component ≡ key
