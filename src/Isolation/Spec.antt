-- ===== src/Isolation/Spec.antt =====
-- The parsed isolation request of a component, lines 61 to 100 of isolation.py.
use msys_core.Common.{ℕ, Bool, true, false, not, ◌||◌, Option, none, List, [], ◌∷◌, is_some}
use msys_core.Common.Text.{Text, codes, text_beq}
use msys_core.Common.Dict.{Dict}

pub record RlimitSpec : Type 0 where
  pub soft : ℕ
  pub hard : ℕ

pub record SeccompSpec : Type 0 where
  pub mode : Text
  pub profile : Text

pub record IsolationSpec : Type 0 where
  pub profile : Text
  pub failure : Text
  pub namespaces : List Text
  pub no_new_privs : Bool
  pub dumpable : Option Bool
  pub rlimits : Dict Text RlimitSpec
  pub seccomp : SeccompSpec

abbrev pub fail_closed : Text
fail_closed = codes "fail-closed"

abbrev pub best_effort : Text
best_effort = codes "best-effort"

-- `SeccompSpec()` and `IsolationSpec()`
abbrev pub default_seccomp : SeccompSpec
default_seccomp = record { mode = codes "off"; profile = codes "default" }

abbrev pub default_isolation : IsolationSpec
default_isolation = record {
  profile = codes "none";
  failure = best_effort;
  namespaces = [];
  no_new_privs = false;
  dumpable = none;
  rlimits = [];
  seccomp = default_seccomp;
}

abbrev pub is_empty {ℓ} : {A : Type ℓ} → List A → Bool
is_empty [] = true
is_empty (x ∷ xs) = false

unfoldable pub requested : IsolationSpec → Bool
requested spec =
    not (text_beq spec.profile (codes "none"))
    || not (is_empty spec.namespaces)
    || spec.no_new_privs
    || is_some spec.dumpable
    || not (is_empty spec.rlimits)
    || not (text_beq spec.seccomp.mode (codes "off"))
