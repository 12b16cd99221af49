-- ===== src/Supervisor/Routing/Locks.antt =====
-- Which calls may run beside another call of the same role.
use msys_core.Common.{◌≡◌, ◌⊎◌, Bool, true, ◌&&◌, if◌then◌else◌, arith, Bool-cases, inl, inr}
use msys_core.Common.Text.{Text, codes, text_beq, text_beq_iff}
use msys_core.Roles.Types.{RoleRegistry}
use msys_core.Supervisor.Routing.{is_callback, is_task_switcher, is_unlocked}

unlocked_cases :
    (wm activates core recents switcher chooser cancels : Bool) {W C H M : Type 0}
    → (wm ≡ true → W)
    → (core ≡ true → C)
    → (chooser ≡ true → H)
    → (cancels ≡ true → M)
    → (if wm && activates && core
        then true
        else if wm && recents && switcher
        then true
        else chooser && cancels)
      ≡ true
    → W × (C ⊎ (switcher ≡ true)) ⊎ H × M
unlocked_cases wm activates core recents switcher chooser cancels w c h m u =
    elim (Bool-cases (wm && activates && core)) [
      | inl a ↦ inl (w (ground (arith, a)), inl (c (ground (arith, a))))
      | inr a ↦ elim (Bool-cases (wm && recents && switcher)) [
        | inl b ↦ inl (w (ground (arith, b)), inr (ground (arith, b)))
        | inr b ↦ inr (h (ground (arith, a, b, u)), m (ground (arith, a, b, u)))
      ]
    ]

-- A call of a role that runs without its lock is one to the window manager, from the core or from the
-- active task switcher, or it cancels a choice of the chooser.
pub is_unlocked-role :
    (registry : RoleRegistry) (role method source : Text)
    → is_unlocked registry role method source ≡ true
    → (role ≡ codes "window-manager")
        × ((source ≡ codes "msys.core") ⊎ (is_task_switcher registry source ≡ true))
      ⊎ (role ≡ codes "chooser") × (method ≡ codes "cancel_choice")
unfolding is_unlocked is_callback
is_unlocked-role registry role method source h =
    unlocked_cases (text_beq role (codes "window-manager"))
      (text_beq method (codes "activate_component")) (text_beq source (codes "msys.core"))
      (text_beq method (codes "recents")) (is_task_switcher registry source)
      (text_beq role (codes "chooser")) (text_beq method (codes "cancel_choice"))
      (text_beq_iff role (codes "window-manager")).0 (text_beq_iff source (codes "msys.core")).0
      (text_beq_iff role (codes "chooser")).0 (text_beq_iff method (codes "cancel_choice")).0 h
