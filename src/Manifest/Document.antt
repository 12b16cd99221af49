-- ===== src/Manifest/Document.antt =====
-- `load_manifest` on the document that `json` read. `to_text`, `to_int` and `to_dict` are Python's
-- `str`, `int` and `dict` on JSON values, the last two of which may raise.
use msys_core.Common.{
  ℕ, Bool, true, false, not, ◌&&◌, Option, none, some, List, [], ◌∷◌, map, filter, if◌then◌else◌,
}
use msys_core.Common.Int.{ℤ, pos}
use msys_core.Common.Result.{Result, ok, err, ◌>>=◌, ◌>>◌, require}
use msys_core.Common.Text.{Text, codes, text_eq}
use msys_core.Common.Dict.{Dict, put}
use msys_core.Isolation.Parse.{IsolationError, parse_isolation}
use msys_core.Isolation.Spec.{IsolationSpec}
use msys_core.Manifest.Entries.{ManifestError, provide, component_reference, idle_timeout}
use msys_core.Manifest.Types.{Provide, Component}
use msys_core.Value.{
  Value, Fields, null, int, str, list, dict, nil, end, field, items, get_field, get_or, has_field,
  is_str, truth,
}

pub data DocumentError : Type 0 where
  wrong_type missing_key not_manifest declared_twice not_integer not_mapping : DocumentError
  entry_error : ManifestError → DocumentError
  isolation_error : IsolationError → DocumentError

abbrev pub Loaded {ℓ} : Type ℓ → Type ℓ
Loaded = Result DocumentError

abbrev pub lift_error {ℓ κ} :
    {E : Type ℓ} {A : Type κ} → (E → DocumentError) → Result E A → Loaded A
lift_error f (ok a) = ok a
lift_error f (err e) = err (f e)

-- A value with a method `get`
abbrev pub as_dict : Value → Loaded Fields
as_dict (dict fs) = ok fs
as_dict _ = err wrong_type

-- `value[t]`
abbrev pub item : Text → Fields → Loaded Value
item t fs = elim (get_field t fs) [ none ↦ err missing_key | some v ↦ ok v ]

abbrev pub field_keys : Fields → List Value
field_keys end = []
field_keys (field k v fs) = k ∷ field_keys fs

-- What a `for` runs over: a list, the keys of a dict, the characters of a string.
abbrev pub iterate : Value → Loaded (List Value)
iterate (list xs) = ok (items xs)
iterate (dict fs) = ok (field_keys fs)
iterate (str t) = ok (map (λ c. str (c ∷ [])) t)
iterate _ = err wrong_type

-- `[f(x) for x in xs]`
unfoldable pub each {ℓ κ} : {A : Type ℓ} {B : Type κ} → (A → Loaded B) → List A → Loaded (List B)
each f [] = ok []
each f (x ∷ xs) = do y ← f x; ys ← each f xs; ok (y ∷ ys)

abbrev pub is_dict : Value → Bool
is_dict (dict fs) = true
is_dict _ = false

abbrev pub text_or_empty : Value → Text
text_or_empty (str t) = t
text_or_empty _ = []

pub record Package : Type 0 where
  pub id : Text
  pub version : Text
  pub kind : Text
  pub name : Text
  pub summary : Text
  pub i18n : Value
  pub fields : Fields

-- What is read of a component before its environment, and its references to others.
pub record Head : Type 0 where
  pub isolation : IsolationSpec
  pub icons : List Value
  pub id : Value
  pub args : List Value
  pub idle_timeout_ms : Option ℕ

pub record Links : Type 0 where
  pub requires : List Text
  pub wants : List Text
  pub after : List Text

module _ (to_text : Value → Text) (to_int : Value → Option ℤ) (to_dict : Value → Option Fields)
    (has_constant : Text → Bool) where
  abbrev pub text_or : Text → Text → Fields → Text
  text_or t default fs = to_text (get_or t (str default) fs)

  -- `{str(k): str(v) for k, v in value.items()}`
  abbrev pub text_items : Dict Text Text → Fields → Dict Text Text
  text_items d end = d
  text_items d (field k v fs) = text_items (put (to_text k) (to_text v) d) fs

  abbrev pub mapping : Text → Fields → Loaded Fields
  mapping t raw = elim (to_dict (get_or t (dict end) raw)) [
    | none ↦ err not_mapping
    | some fs ↦ ok fs
  ]

  abbrev pub as_integer : Value → Loaded ℤ
  as_integer v = elim (to_int v) [ none ↦ err not_integer | some n ↦ ok n ]

  -- The package of a document.
  unfoldable pub load_package : Fields → Loaded Package
  load_package data_ = do
    value ← item (codes "package") data_
    pkg ← as_dict value
    id ← item (codes "id") pkg
    ok (record {
      id = to_text id;
      version = text_or (codes "version") (codes "0.0.0") pkg;
      kind = text_or (codes "kind") (codes "application") pkg;
      name =
          (let name = get_or (codes "name") null pkg in
            if truth name then to_text name else to_text id);
      summary = text_or_empty (get_or (codes "summary") (str []) pkg);
      i18n = get_or (codes "x-msys-i18n") null pkg;
      fields = pkg;
    })

  abbrev pub load_provide : Value → Loaded Provide
  load_provide value = do raw ← as_dict value; lift_error entry_error (provide to_text to_int raw)

  -- The references of a component in one of its lists.
  unfoldable pub load_references : Text → Text → Fields → Loaded (List Text)
  load_references package_id t raw = do
    values ← iterate (get_or t (list nil) raw)
    ok (map (component_reference to_text package_id) values)

  unfoldable pub load_isolation : Fields → Loaded IsolationSpec
  load_isolation raw = do
    require (not (has_field (codes "isolation") raw && has_field (codes "x-msys-isolation") raw))
        declared_twice
    lift_error isolation_error (
        parse_isolation to_text has_constant
          (get_or (codes "isolation") (get_or (codes "x-msys-isolation") null raw) raw))

  abbrev pub lifecycle_of : Fields → Text
  lifecycle_of raw = text_or (codes "lifecycle") (codes "manual") raw

  unfoldable pub load_head : Package → Fields → Loaded Head
  unfolding load_isolation
  load_head pkg raw = do
    isolation ← load_isolation raw
    icons ← iterate (get_or (codes "icons") (list nil) pkg.fields)
    id ← item (codes "id") raw
    exec ← item (codes "exec") raw
    args ← iterate exec
    idle_timeout_ms ← lift_error entry_error (idle_timeout raw (lifecycle_of raw))
    ok (record {
      isolation = isolation;
      icons = icons;
      id = id;
      args = args;
      idle_timeout_ms = idle_timeout_ms;
    })

  unfoldable pub load_links : Text → Fields → Loaded Links
  unfolding load_references
  load_links package_id raw = do
    requires ← load_references package_id (codes "requires") raw
    wants ← load_references package_id (codes "wants") raw
    after ← load_references package_id (codes "after") raw
    ok (record { requires = requires; wants = wants; after = after })

  unfoldable pub load_provides : Fields → Loaded (List Provide)
  unfolding each
  load_provides raw = do
    entries ← iterate (get_or (codes "provides") (list nil) raw)
    each load_provide entries

  -- One component, in the order of the source.
  unfoldable pub load_component : Text → Package → Value → Loaded Component
  load_component path pkg value = do
    raw ← as_dict value
    head ← load_head pkg raw
    env ← as_dict (get_or (codes "env") (dict end) raw)
    readiness ← as_dict (get_or (codes "readiness") (dict end) raw)
    timeout_ms ← as_integer (get_or (codes "timeout_ms") (int (pos 5000)) readiness)
    provides ← load_provides raw
    links ← load_links pkg.id raw
    windowing ← mapping (codes "windowing") raw
    activation ← mapping (codes "activation") raw
    permissions ← iterate (get_or (codes "permissions") (list nil) raw)
    ok (record {
      package_id = pkg.id;
      package_version = pkg.version;
      id = to_text head.id;
      exec = map to_text head.args;
      lifecycle = lifecycle_of raw;
      package_kind = pkg.kind;
      package_name = pkg.name;
      package_icons = filter is_dict head.icons;
      runtime = text_or (codes "runtime") (codes "custom") raw;
      restart = text_or (codes "restart") (codes "never") raw;
      idle_timeout_ms = head.idle_timeout_ms;
      cwd =
          (let cwd = get_or (codes "cwd") null raw in
            if truth cwd then some (to_text cwd) else none);
      env = text_items [] env;
      readiness_mode = text_or (codes "mode") (codes "exec") readiness;
      readiness_timeout_ms = timeout_ms;
      provides = provides;
      requires = links.requires;
      wants = links.wants;
      after = links.after;
      windowing = windowing;
      activation = activation;
      permissions = map to_text permissions;
      isolation = head.isolation;
      raw = value;
      manifest_path = some path;
      package_summary = pkg.summary;
      package_i18n = pkg.i18n;
    })

  -- `load_manifest`, from the document on.
  unfoldable pub load_manifest : Text → Value → Loaded (List Component)
  unfolding load_package load_component
  load_manifest path document = do
    data_ ← as_dict document
    require (is_str (codes "msys.manifest.v1") (get_or (codes "schema") null data_)) not_manifest
    pkg ← load_package data_
    values ← iterate (get_or (codes "components") (list nil) data_)
    each (load_component path pkg) values
