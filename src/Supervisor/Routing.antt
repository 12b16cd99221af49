-- ===== src/Supervisor/Routing.antt =====
-- `dispatch_call`: where a call goes, and whether it waits for the lock of its role.
mod Locks
use msys_core.Common.{
  Bool, true, false, not, ◌&&◌, ◌||◌, Option, none, some, List, [], ◌∷◌, if◌then◌else◌,
}
use msys_core.Common.Result.{Result, ok, err}
use msys_core.Common.Text.{Text, codes, text_beq, starts_with}
use msys_core.Acl.{after_colon}
use msys_core.Roles.Leases.{active_provider}
use msys_core.Roles.Types.{RoleRegistry}

pub data Destination : Type 0 where
  role_unlocked : Text → Destination
  role_locked : Text → Destination
  interface : Destination
  component : Destination
  core : Destination
  bad_target : Destination

-- The role's provider is asked back while an outer call holds the lock of the role.
pub is_callback : Text → Text → Text → Bool
is_callback role method source =
    text_beq role (codes "window-manager")
    && text_beq method (codes "activate_component")
    && text_beq source (codes "msys.core")

-- `source == active_task_switcher`; a `KeyError` is None.
pub is_task_switcher : RoleRegistry → Text → Bool
is_task_switcher registry source = elim (active_provider registry (codes "task-switcher")) [
  | ok (some active) ↦ text_beq source active
  | ok none ↦ false
  | err e ↦ false
]

pub is_unlocked : RoleRegistry → Text → Text → Text → Bool
unfolding is_callback is_task_switcher
is_unlocked registry role method source =
    if is_callback role method source
    then true
    else if text_beq role (codes "window-manager")
        && text_beq method (codes "recents")
        && is_task_switcher registry source
    then true
    else text_beq role (codes "chooser") && text_beq method (codes "cancel_choice")

pub destination : RoleRegistry → Text → Text → Text → Destination
unfolding is_unlocked
destination registry target method source =
    if starts_with (codes "role:") target
    then if is_unlocked registry (after_colon target) method source
      then role_unlocked (after_colon target)
      else role_locked (after_colon target)
    else if starts_with (codes "interface:") target
    then interface
    else if starts_with (codes "component:") target
    then component
    else if text_beq target (codes "msys.core")
    then core
    else bad_target
