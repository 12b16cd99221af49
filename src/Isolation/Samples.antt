-- ===== src/Isolation/Samples.antt =====
-- Small isolation requests, and the theorems at them.
use msys_core.Common.{Bool, ◌≡◌, refl, true, false, some, [], ◌∷◌}
use msys_core.Common.Int.{pos}
use msys_core.Common.Result.{ok, err}
use msys_core.Common.Text.{Text, codes}
use msys_core.Common.Dict.{put, remove}
use msys_core.Isolation.Accepted.{IsSound, parse_isolation-IsSound}
use msys_core.Isolation.Parse.{
  assertion_error, profile_defaults, boolean, limit_value, parse_soft_hard, parse_limit,
  namespace_names, parse_namespaces, asserted, is_rlimit, is_namespace, parse_rlimit, parse_rlimits,
  override_limits, parse_seccomp, parse_limits, parse_profile, parse_failure, parse_raw,
  parse_isolation,
}
use msys_core.Isolation.Spec.{IsolationSpec, default_seccomp, fail_closed}
use msys_core.Value.{Value, Fields, null, int, str, dict, field, end, truth}

program : Unit {0}
unfolding put remove truth profile_defaults boolean limit_value parse_soft_hard parse_limit
    namespace_names parse_namespaces asserted is_rlimit is_namespace parse_rlimit parse_rlimits
    override_limits parse_seccomp parse_limits parse_profile parse_failure parse_raw parse_isolation
program = tt

abbrev to_text : Value → Text
to_text (str t) = t
to_text _ = []

abbrev has_constant : Text → Bool
has_constant t = true

-- baseline, with a lower number of files and without the limit on core files
abbrev declared : Fields
declared = field (str (codes "profile")) (str (codes "baseline")) (
    field (str (codes "rlimits"))
      (dict (field (str (codes "nofile")) (int (pos 64)) (field (str (codes "core")) null end)))
      end)

abbrev expected : IsolationSpec
expected = record {
  profile = codes "baseline";
  failure = fail_closed;
  namespaces = [];
  no_new_privs = true;
  dumpable = some false;
  rlimits = (codes "nofile", record { soft = 64; hard = 64 }) ∷ [];
  seccomp = default_seccomp;
}

parsed : parse_isolation to_text has_constant (dict declared) ≡ ok expected
unfolding program
parsed = refl

-- `null` passes the check for a boolean, and is stopped by the assertion only.
null_no_new_privs :
    parse_isolation to_text has_constant (dict (field (str (codes "no_new_privs")) null end))
    ≡ err assertion_error
unfolding program
null_no_new_privs = refl

parse_isolation-IsSound_example : IsSound has_constant expected
parse_isolation-IsSound_example =
    parse_isolation-IsSound to_text has_constant (dict declared) parsed
