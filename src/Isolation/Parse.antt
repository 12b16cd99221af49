-- ===== src/Isolation/Parse.antt =====
-- `parse_isolation` and its parts. `to_text` is Python's `str` on JSON values, and `has_constant`
-- tells whether the platform's `resource` module has the constant of a limit.
use msys_core.Common.{
  ℕ, Bool, true, false, not, ◌&&◌, ◌||◌, Option, none, some, List, [], ◌∷◌, leb, all, any, elem,
  distinct, length, nat_beq, if◌then◌else◌,
}
use msys_core.Common.Int.{pos}
use msys_core.Common.Result.{Result, ok, err, ◌>>=◌, ◌>>◌, require}
use msys_core.Common.Text.{is_alnum, Text, codes, text_beq, text_eq}
use msys_core.Common.Dict.{Dict, put, remove}
use msys_core.Isolation.Spec.{
  RlimitSpec, SeccompSpec, IsolationSpec, fail_closed, best_effort, default_seccomp,
  default_isolation,
}
use msys_core.Value.{
  Value, Items, Fields, null, bool, int, str, list, dict, nil, cons, end, field, get_or, has_field,
  is_str, truth,
}

pub data IsolationError : Type 0 where
  not_boolean not_non_negative : IsolationError
  unsupported_rlimit bad_rlimit unknown_rlimit_field empty_rlimit soft_exceeds_hard : IsolationError
  bad_seccomp unknown_seccomp_field unsupported_mode invalid_helper_profile : IsolationError
  bad_isolation unknown_field unknown_profile invalid_failure : IsolationError
  bad_namespaces unsupported_namespaces bad_rlimits helper_needs_no_new_privs : IsolationError
  -- the `assert` on no_new_privs
  assertion_error : IsolationError

abbrev pub Parsed {ℓ} : Type ℓ → Type ℓ
Parsed = Result IsolationError

abbrev pub namespace_order : List Text
namespace_order = codes "user" ∷ codes "mount" ∷ codes "ipc" ∷ codes "uts" ∷ codes "network" ∷ []

abbrev pub rlimit_names : List Text
rlimit_names =
    codes "as"
    ∷ codes "core"
    ∷ codes "cpu"
    ∷ codes "data"
    ∷ codes "fsize"
    ∷ codes "memlock"
    ∷ codes "nofile"
    ∷ codes "nproc"
    ∷ codes "stack"
    ∷ []

unfoldable pub is_rlimit : Text → Bool
is_rlimit name = elem name rlimit_names

unfoldable pub is_namespace : Text → Bool
is_namespace name = elem name namespace_order

abbrev pub name_items : List Text → Items
name_items [] = nil
name_items (t ∷ ts) = cons (str t) (name_items ts)

abbrev pub at : Text → Value → Fields → Fields
at t v fs = field (str t) v fs

abbrev pub baseline_defaults : Fields
baseline_defaults = at (codes "no_new_privs") (bool true) (
    at (codes "dumpable") (bool false) (
      at (codes "rlimits")
        (dict (at (codes "core") (int (pos 0)) (at (codes "nofile") (int (pos 1024)) end))) end))

abbrev pub namespaced_defaults : Fields
namespaced_defaults = at (codes "namespaces") (list (name_items namespace_order)) (
    at (codes "no_new_privs") (bool true) (
      at (codes "dumpable") (bool false) (
        at (codes "rlimits")
          (dict (
            at (codes "core") (int (pos 0))
              (at (codes "nofile") (int (pos 512)) (at (codes "nproc") (int (pos 256)) end))))
          end)))

-- `PROFILE_DEFAULTS`
unfoldable pub profile_defaults : Text → Option Fields
profile_defaults profile =
    if text_beq profile (codes "none")
    then some end
    else if text_beq profile (codes "baseline")
    then some baseline_defaults
    else if text_beq profile (codes "namespaced")
    then some namespaced_defaults
    else if text_beq profile (codes "custom")
    then some end
    else none

abbrev pub as_boolean : Value → Parsed (Option Bool)
as_boolean null = ok none
as_boolean (bool b) = ok (some b)
as_boolean _ = err not_boolean

-- `_boolean`
unfoldable pub boolean : Fields → Text → Value → Parsed (Option Bool)
boolean raw name default = as_boolean (get_or name default raw)

-- `_limit_value`
unfoldable pub limit_value : Value → Parsed ℕ
limit_value (int (pos n)) = ok n
limit_value _ = err not_non_negative

-- Every key of the dict is one of the names.
abbrev pub knows : List Text → Fields → Bool
knows allowed end = true
knows allowed (field k v fs) = any (λ t. is_str t k) allowed && knows allowed fs

-- A limit given as a soft and a hard value.
unfoldable pub parse_soft_hard : Fields → Parsed RlimitSpec
unfolding limit_value
parse_soft_hard value = do
  require (knows (codes "soft" ∷ codes "hard" ∷ []) value) unknown_rlimit_field
  require (has_field (codes "soft") value || has_field (codes "hard") value) empty_rlimit
  hard ← limit_value (get_or (codes "hard") (get_or (codes "soft") null value) value)
  soft ← limit_value (get_or (codes "soft") (int (pos hard)) value)
  require (leb soft hard) soft_exceeds_hard
  ok (record { soft = soft; hard = hard })

unfoldable pub parse_limit : Value → Parsed RlimitSpec
parse_limit (int n) = do limit ← limit_value (int n); ok (record { soft = limit; hard = limit })
parse_limit (dict fs) = parse_soft_hard fs
parse_limit _ = err bad_rlimit

-- `[A-Za-z0-9][A-Za-z0-9._-]{0,63}`
abbrev pub is_helper_profile : Text → Bool
is_helper_profile [] = false
is_helper_profile (c ∷ t) =
    is_alnum c
    && leb (length t) 63
    && all (λ d. is_alnum d || nat_beq d b'.' || nat_beq d b'_' || nat_beq d b'-') t

-- The texts of a list of strings.
abbrev pub all_strings : Items → Option (List Text)
all_strings nil = some []
all_strings (cons (str t) vs) = elim (all_strings vs) [ none ↦ none | some ts ↦ some (t ∷ ts) ]
all_strings (cons v vs) = none

unfoldable pub namespace_names : Value → Parsed (List Text)
namespace_names (list xs) = elim (all_strings xs) [ none ↦ err bad_namespaces | some ts ↦ ok ts ]
namespace_names _ = err bad_namespaces

unfoldable pub parse_namespaces : Fields → Fields → Parsed (List Text)
unfolding namespace_names
parse_namespaces defaults raw = do
  names ←
      namespace_names
        (get_or (codes "namespaces") (get_or (codes "namespaces") (list nil) defaults) raw)
  require (all is_namespace (distinct names)) unsupported_namespaces
  ok (distinct names)

-- `no_new_privs`, with the `assert` after it.
unfoldable pub asserted : Option Bool → Parsed Bool
asserted none = err assertion_error
asserted (some b) = ok b

abbrev pub is_policy : Text → Bool
is_policy failure = text_beq failure fail_closed || text_beq failure best_effort

abbrev pub allowed_fields : List Text
allowed_fields =
    codes "profile"
    ∷ codes "failure"
    ∷ codes "namespaces"
    ∷ codes "no_new_privs"
    ∷ codes "dumpable"
    ∷ codes "rlimits"
    ∷ codes "seccomp"
    ∷ []

abbrev pub raw_dict : Value → Parsed Fields
raw_dict (str t) = ok (at (codes "profile") (str t) end)
raw_dict (dict fs) = ok fs
raw_dict _ = err bad_isolation

abbrev pub dict_of : Value → Parsed Fields
dict_of (dict fs) = ok fs
dict_of _ = err bad_rlimits

module _ (to_text : Value → Text) (has_constant : Text → Bool) where
  -- `_parse_rlimit`
  unfoldable pub parse_rlimit : Text → Value → Parsed RlimitSpec
  unfolding parse_limit parse_soft_hard
  parse_rlimit name value = do
    require (is_rlimit name && has_constant name) unsupported_rlimit
    parse_limit value

  -- The comprehension over the raw limits.
  unfoldable pub parse_rlimits : Dict Text Value → Parsed (Dict Text RlimitSpec)
  unfolding parse_rlimit
  parse_rlimits [] = ok []
  parse_rlimits ((name, limit) ∷ raw) = do
    parsed ← parse_rlimit name limit
    rest ← parse_rlimits raw
    ok ((name, parsed) ∷ rest)

  -- The loop over the overrides: `None` takes a default limit away.
  abbrev pub override_limit : Dict Text Value → Text → Value → Dict Text Value
  override_limit raw name null = remove name raw
  override_limit raw name limit = put name limit raw

  unfoldable pub override_limits : Dict Text Value → Fields → Dict Text Value
  override_limits raw end = raw
  override_limits raw (field k limit fs) = override_limits (override_limit raw (to_text k) limit) fs

  -- `_parse_seccomp`
  unfoldable pub parse_seccomp : Value → Parsed SeccompSpec
  parse_seccomp null = ok default_seccomp
  parse_seccomp (str t) =
      if text_beq t (codes "off")
      then ok default_seccomp
      else if text_beq t (codes "helper")
      then ok (record { mode = codes "helper"; profile = codes "default" })
      else err bad_seccomp
  parse_seccomp (dict fs) = do
    let mode = to_text (get_or (codes "mode") (str (codes "off")) fs)
    let profile = to_text (get_or (codes "profile") (str (codes "default")) fs)
    require (knows (codes "mode" ∷ codes "profile" ∷ []) fs) unknown_seccomp_field
    require (text_beq mode (codes "off") || text_beq mode (codes "helper")) unsupported_mode
    require (is_helper_profile profile) invalid_helper_profile
    ok (record { mode = mode; profile = profile })
  parse_seccomp _ = err bad_seccomp

  unfoldable pub parse_limits : Fields → Fields → Parsed (Dict Text RlimitSpec)
  unfolding override_limits parse_rlimits
  parse_limits defaults raw = do
    raw_limits ← dict_of (get_or (codes "rlimits") (dict end) defaults)
    overrides ← dict_of (get_or (codes "rlimits") (dict end) raw)
    parse_rlimits (override_limits (override_limits [] raw_limits) overrides)

  unfoldable pub parse_profile : Fields → Parsed (Text × Fields)
  parse_profile raw =
      let profile = to_text (get_or (codes "profile") (str (codes "custom")) raw) in
      elim (profile_defaults profile) [
        | none ↦ err unknown_profile
        | some defaults ↦ ok (profile, defaults)
      ]

  unfoldable pub parse_failure : Fields → Parsed Text
  parse_failure raw = do
    let failure = to_text (get_or (codes "failure") (str fail_closed) raw)
    require (is_policy failure) invalid_failure
    ok failure

  -- The part of `parse_isolation` after the value is known to be a dict.
  unfoldable pub parse_raw : Fields → Parsed IsolationSpec
  unfolding boolean
  parse_raw raw = do
    require (knows allowed_fields raw) unknown_field
    (profile, defaults) ← parse_profile raw
    failure ← parse_failure raw
    namespaces ← parse_namespaces defaults raw
    declared ←
        boolean raw (codes "no_new_privs")
          (bool (truth (get_or (codes "no_new_privs") (bool false) defaults)))
    dumpable ← boolean raw (codes "dumpable") (get_or (codes "dumpable") null defaults)
    no_new_privs ← asserted declared
    limits ← parse_limits defaults raw
    seccomp ←
        parse_seccomp
          (get_or (codes "seccomp") (get_or (codes "seccomp") (str (codes "off")) defaults) raw)
    require (not (text_beq seccomp.mode (codes "helper")) || no_new_privs) helper_needs_no_new_privs
    ok (record {
      profile = profile;
      failure = failure;
      namespaces = namespaces;
      no_new_privs = no_new_privs;
      dumpable = dumpable;
      rlimits = limits;
      seccomp = seccomp;
    })

  -- `parse_isolation`
  unfoldable pub parse_isolation : Value → Parsed IsolationSpec
  unfolding parse_raw
  parse_isolation null = ok default_isolation
  parse_isolation value = do raw ← raw_dict value; parse_raw raw
