-- ===== src/Manifest/Types.antt =====
-- A component of a manifest and what it provides, lines 17 to 65 of manifest.py.
use msys_core.Common.{ℕ, Bool, Option, List, ◌∷◌, ◌++◌}
use msys_core.Common.Int.{ℤ}
use msys_core.Common.Text.{Text}
use msys_core.Common.Dict.{Dict}
use msys_core.Isolation.Spec.{IsolationSpec}
use msys_core.Value.{Value, Fields}

pub record Provide : Type 0 where
  pub kind : Text
  pub name : Text
  pub exclusive : Bool
  pub priority : ℤ

pub record Component : Type 0 where
  pub package_id : Text
  pub package_version : Text
  pub id : Text
  pub exec : List Text
  pub lifecycle : Text
  pub package_kind : Text
  pub package_name : Text
  pub package_icons : List Value
  pub runtime : Text
  pub restart : Text
  pub idle_timeout_ms : Option ℕ
  pub cwd : Option Text
  pub env : Dict Text Text
  pub readiness_mode : Text
  pub readiness_timeout_ms : ℤ
  pub provides : List Provide
  pub requires : List Text
  pub wants : List Text
  pub after : List Text
  pub windowing : Fields
  pub activation : Fields
  pub permissions : List Text
  pub isolation : IsolationSpec
  pub raw : Value
  pub manifest_path : Option Text
  pub package_summary : Text
  pub package_i18n : Value

abbrev pub Components : Type 0
Components = Dict Text Component

-- `Component.key`
unfoldable pub component_key : Component → Text
component_key c = c.package_id ++ (b':' ∷ c.id)
