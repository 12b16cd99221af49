-- ===== src/Manifest/Example.antt =====
-- A component for the tests, with the defaults of `load_manifest` and given provides.
use msys_core.Common.{none, List, []}
use msys_core.Common.Int.{pos}
use msys_core.Common.Text.{Text, codes}
use msys_core.Isolation.Spec.{default_isolation}
use msys_core.Manifest.Types.{Component, Provide}
use msys_core.Value.{null, end}

abbrev pub provider : Text → List Provide → Component
provider id provides = record {
  package_id = codes "shell";
  package_version = codes "1";
  id = id;
  exec = [];
  lifecycle = codes "on-demand";
  package_kind = codes "application";
  package_name = codes "shell";
  package_icons = [];
  runtime = codes "custom";
  restart = codes "never";
  idle_timeout_ms = none;
  cwd = none;
  env = [];
  readiness_mode = codes "exec";
  readiness_timeout_ms = pos 5000;
  provides = provides;
  requires = [];
  wants = [];
  after = [];
  windowing = end;
  activation = end;
  permissions = [];
  isolation = default_isolation;
  raw = null;
  manifest_path = none;
  package_summary = [];
  package_i18n = null;
}
