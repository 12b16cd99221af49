-- ===== src/Supervisor/Policies.antt =====
-- What the supervisor reads off a component: is it an application in front, may it be restarted,
-- does it show the display or depend on it.
use msys_core.Common.{
  ℕ, Bool, true, false, not, ◌&&◌, ◌||◌, Option, none, List, [], ◌∷◌, map, any, elem, if◌then◌else◌,
}
use msys_core.Common.Text.{Text, codes, text_beq, text_eq}
use msys_core.Manifest.Types.{Component}
use msys_core.Value.{Value, str, get_or}

-- `str(component.windowing.get(name, ""))`
abbrev pub windowing_text : (Value → Text) → Text → Component → Text
windowing_text to_text name c = to_text (get_or name (str []) c.windowing)

-- `provide.kind == "role" and provide.name == name`, for some provide
abbrev pub provides_role : Text → Component → Bool
provides_role name c =
    any (λ provide. text_beq provide.kind (codes "role") && text_beq provide.name name) c.provides

unfoldable pub is_foreground_app : (Value → Text) → Component → Bool
is_foreground_app to_text c =
    if not (text_beq c.lifecycle (codes "manual"))
    then false
    else if provides_role (codes "screen-shield") c
    then false
    else elem (windowing_text to_text (codes "mode") c) (codes "window" ∷ codes "fullscreen" ∷ [])

abbrev pub is_long_lived : Component → Bool
is_long_lived c = elem c.lifecycle (codes "background" ∷ codes "session" ∷ [])

pub is_restartable_system_provider : Component → Bool
is_restartable_system_provider c =
    text_beq c.package_kind (codes "system")
    && is_long_lived c
    && any
        (λ provide. elem provide.kind (codes "role" ∷ codes "interface" ∷ codes "capability" ∷ []))
        c.provides

-- `exited_cleanly` is `rc == 0`.
pub component_should_restart : Component → Bool → Bool
unfolding is_restartable_system_provider
component_should_restart c exited_cleanly =
    if not (is_restartable_system_provider c)
    then false
    else if text_beq c.restart (codes "always")
    then true
    else text_beq c.restart (codes "on-failure") && not exited_cleanly

abbrev pub display_output_role : Text
display_output_role = codes "display-output"

pub provides_display_output : Component → Bool
provides_display_output c = provides_role display_output_role c

pub is_automatic_visual_service : Component → Bool
is_automatic_visual_service c = is_long_lived c

unfoldable pub inherits_visual_session : (Value → Text) → Component → Bool
inherits_visual_session to_text c =
    if not (text_beq (windowing_text to_text (codes "system") c) (codes "x11"))
      || not (text_beq (windowing_text to_text (codes "display") c) (codes "inherit"))
    then false
    else if text_beq (windowing_text to_text (codes "mode") c) (codes "display-provider")
    then false
    else not (provides_role display_output_role c)

-- `component.permissions`, as the authorisation reads them.
abbrev pub permissions_of : Component → List Value
permissions_of c = map str c.permissions

-- `_idle_timeout_seconds`, in milliseconds.
unfoldable pub idle_timeout : Component → Option ℕ
idle_timeout c = if not (text_beq c.lifecycle (codes "on-demand")) then none else c.idle_timeout_ms
