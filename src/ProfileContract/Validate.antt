-- ===== src/ProfileContract/Validate.antt =====
-- `validate_profile`, part by part in the order of the source.
use msys_core.Common.{ℕ, suc, not, Option, none, some, List, [], ◌∷◌, leb, elem, any}
use msys_core.Common.Result.{ok, err, ◌>>=◌, ◌>>◌, require}
use msys_core.Common.Text.{Text, text_eq, text_beq, codes, starts_with}
use msys_core.Common.Dict.{Dict}
use msys_core.ProfileContract.Patterns.{is_name, is_env_name, is_component_ref}
use msys_core.ProfileContract.Checks.{
  wrong_schema, wrong_id, conflict, not_absolute, too_many, missing_field, Checked, as_object,
  as_string, check_keys, unique_strings, json_value,
}
use msys_core.Value.{Value, Fields, list, dict, nil, end, field, get_field, get_or, is_str}

abbrev pub allowed_fields : List Text
allowed_fields =
    codes "schema"
    ∷ codes "id"
    ∷ codes "roles"
    ∷ codes "disabled_roles"
    ∷ codes "startup"
    ∷ codes "env"
    ∷ codes "state_dir"
    ∷ codes "isolation"
    ∷ codes "settings"
    ∷ []

abbrev pub required_fields : List Text
required_fields = codes "schema" ∷ codes "id" ∷ codes "roles" ∷ codes "startup" ∷ []

-- `profile[t]` for a required field
abbrev pub member : Text → Fields → Checked Value
member t fs = elim (get_field t fs) [ none ↦ err missing_field | some v ↦ ok v ]

abbrev pub count_fields : Fields → ℕ
count_fields end = 0
count_fields (field k v fs) = suc (count_fields fs)

unfoldable pub validate_profile_id : Value → Checked Text
unfolding as_string is_name
validate_profile_id = as_string 1 (some 128) (some is_name)

-- The id of the profile, against the id that was asked for.
unfoldable pub check_id : Option Value → Fields → Checked Text
unfolding validate_profile_id
check_id expected fs = do
  id ← member (codes "id") fs
  profile_id ← validate_profile_id id
  elim expected [
    | none ↦ ok profile_id
    | some e ↦ do
      wanted ← validate_profile_id e
      require (text_beq profile_id wanted) wrong_id
      ok profile_id
  ]

-- The loop over the roles: each name, and the ids listed for it.
unfoldable pub check_role_entries : Fields → Checked (Dict Text (List Text))
unfolding as_string unique_strings is_name is_component_ref
check_role_entries end = ok []
check_role_entries (field k v fs) = do
  role ← as_string 1 (some 128) (some is_name) k
  ids ← unique_strings is_component_ref 64 v
  rest ← check_role_entries fs
  ok ((role, ids) ∷ rest)

unfoldable pub check_roles : Fields → Checked (Dict Text (List Text))
unfolding as_object check_role_entries
check_roles fs = do
  value ← member (codes "roles") fs
  roles ← as_object value
  require (leb (count_fields roles) 256) too_many
  check_role_entries roles

abbrev pub role_keys : Dict Text (List Text) → List Text
role_keys [] = []
role_keys ((k, v) ∷ d) = k ∷ role_keys d

unfoldable pub check_disabled : Dict Text (List Text) → Fields → Checked (List Text)
unfolding unique_strings is_name
check_disabled roles fs = do
  disabled ← unique_strings is_name 256 (get_or (codes "disabled_roles") (list nil) fs)
  require (not (any (λ role. elem role disabled) (role_keys roles))) conflict
  ok disabled

unfoldable pub check_env_entries : Fields → Checked (Unit {0})
unfolding as_string is_env_name
check_env_entries end = ok tt
check_env_entries (field k v fs) = do
  name ← as_string 1 (some 255) (some is_env_name) k
  value ← as_string 0 (some 32768) none v
  check_env_entries fs

unfoldable pub check_env : Fields → Checked (Unit {0})
unfolding as_object check_env_entries
check_env fs = do
  env ← as_object (get_or (codes "env") (dict end) fs)
  require (leb (count_fields env) 1024) too_many
  check_env_entries env

unfoldable pub check_state_dir : Fields → Checked (Unit {0})
unfolding as_string
check_state_dir fs = elim (get_field (codes "state_dir") fs) [
  | none ↦ ok tt
  | some value ↦ do
    state_dir ← as_string 1 (some 4096) none value
    require (starts_with (codes "/") state_dir) not_absolute
]

unfoldable pub check_isolation : Fields → Checked (Unit {0})
unfolding as_object as_string check_keys
check_isolation fs = do
  isolation ← as_object (get_or (codes "isolation") (dict end) fs)
  check_keys (codes "seccomp_helper" ∷ []) [] isolation
  elim (get_field (codes "seccomp_helper") isolation) [
    | none ↦ ok tt
    | some value ↦ do helper ← as_string 1 (some 4096) none value; ok tt
  ]

unfoldable pub check_settings : Fields → Checked (Unit {0})
unfolding as_object json_value
check_settings fs = do
  settings ← as_object (get_or (codes "settings") (dict end) fs)
  json_value 0 (dict settings)

unfoldable pub check_schema : Fields → Checked (Unit {0})
check_schema fs = do
  schema ← member (codes "schema") fs
  require (is_str (codes "msys.profile.v1") schema) wrong_schema

-- The parts after the roles.
unfoldable pub check_rest : Fields → Checked (Unit {0})
check_rest fs = do
  startup ← member (codes "startup") fs
  started ← unique_strings is_component_ref 1024 startup
  check_env fs
  check_state_dir fs
  check_isolation fs
  check_settings fs

unfoldable pub validate_profile : Option Value → Value → Checked Fields
validate_profile expected value = do
  profile ← as_object value
  check_keys allowed_fields required_fields profile
  check_schema profile
  id ← check_id expected profile
  roles ← check_roles profile
  disabled ← check_disabled roles profile
  check_rest profile
  ok profile
