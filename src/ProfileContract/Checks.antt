-- ===== src/ProfileContract/Checks.antt =====
-- The checks of single values. An error keeps what is wrong, without the path in the document that
-- the message of the source also names.
use msys_core.Common.{
  ℕ, suc, Bool, true, not, Option, none, some, List, [], ◌∷◌, leb, length, all, elem, nat_eq,
  if◌then◌else◌,
}
use msys_core.Common.Result.{Result, ok, err, ◌>>=◌, ◌>>◌, require}
use msys_core.Common.Text.{Text, text_eq}
use msys_core.ProfileContract.Patterns.{is_extension}
use msys_core.Value.{
  Value, Items, Fields, null, bool, int, float, str, list, dict, object, nil, cons, end, field,
  items, has_field,
}

pub data ProfileError : Type 0 where
  not_object not_array not_string too_short too_long has_nul bad_format : ProfileError
  missing_field key_not_string unknown_field : ProfileError
  too_deep not_finite not_json : ProfileError
  too_many duplicate : ProfileError
  wrong_schema wrong_id conflict not_absolute : ProfileError

abbrev pub Checked {ℓ} : Type ℓ → Type ℓ
Checked = Result ProfileError

-- `_object` and `_array`
unfoldable pub as_object : Value → Checked Fields
as_object (dict fs) = ok fs
as_object _ = err not_object

unfoldable pub as_array : Value → Checked (List Value)
as_array (list xs) = ok (items xs)
as_array _ = err not_array

abbrev pub within : Option ℕ → ℕ → Bool
within none n = true
within (some maximum) n = leb n maximum

abbrev pub fits : Option (Text → Bool) → Text → Bool
fits none t = true
fits (some pattern) t = pattern t

-- `_string`, with its bounds on the length and its pattern.
unfoldable pub as_string : ℕ → Option ℕ → Option (Text → Bool) → Value → Checked Text
as_string minimum maximum pattern (str t) = do
  require (leb minimum (length t)) too_short
  require (within maximum (length t)) too_long
  require (not (elem 0 t)) has_nul
  require (fits pattern t) bad_format
  ok t
as_string minimum maximum pattern _ = err not_string

abbrev pub max_depth : ℕ
max_depth = 64

unfoldable pub is_text_key : Value → Checked (Unit {0})
is_text_key (str t) = ok tt
is_text_key _ = err key_not_string

-- `_json_value`, which recurs with the depth of the value.
unfoldable mutual
  unfolding is_text_key

  pub json_value : ℕ → Value → Checked (Unit {0})
  json_value depth null = require (leb depth max_depth) too_deep
  json_value depth (bool b) = require (leb depth max_depth) too_deep
  json_value depth (int n) = require (leb depth max_depth) too_deep
  json_value depth (str t) = require (leb depth max_depth) too_deep
  json_value depth (float finite t) =
      require (leb depth max_depth) too_deep >> require finite not_finite
  json_value depth (list xs) = require (leb depth max_depth) too_deep >> json_items (suc depth) xs
  json_value depth (dict fs) = require (leb depth max_depth) too_deep >> json_fields (suc depth) fs
  json_value depth (object t) = require (leb depth max_depth) too_deep >> err not_json

  pub json_items : ℕ → Items → Checked (Unit {0})
  json_items depth nil = ok tt
  json_items depth (cons v vs) = json_value depth v >> json_items depth vs

  pub json_fields : ℕ → Fields → Checked (Unit {0})
  json_fields depth end = ok tt
  json_fields depth (field k v fs) = is_text_key k >> (json_value depth v >> json_fields depth fs)

-- The loop of `_keys` over the fields: an unknown field must be an extension.
unfoldable pub known_field : List Text → Value → Value → Checked (Unit {0})
known_field allowed (str k) v =
    if elem k allowed then ok tt else (do require (is_extension k) unknown_field; json_value 0 v)
known_field allowed _ v = err key_not_string

unfoldable pub known_fields : List Text → Fields → Checked (Unit {0})
unfolding known_field
known_fields allowed end = ok tt
known_fields allowed (field k v fs) = known_field allowed k v >> known_fields allowed fs

-- `_keys`
unfoldable pub check_keys : List Text → List Text → Fields → Checked (Unit {0})
unfolding known_fields
check_keys allowed required fs = do
  require (all (λ k. has_field k fs) required) missing_field
  known_fields allowed fs

-- The loop of `_unique_strings`, with the values seen.
unfoldable pub unique_from : (Text → Bool) → List Text → List Value → Checked (List Text)
unique_from pattern seen [] = ok []
unique_from pattern seen (v ∷ vs) = do
  item ← as_string 1 (some 255) (some pattern) v
  require (not (elem item seen)) duplicate
  rest ← unique_from pattern (item ∷ seen) vs
  ok (item ∷ rest)

-- `_unique_strings`
unfoldable pub unique_strings : (Text → Bool) → ℕ → Value → Checked (List Text)
unique_strings pattern maximum_items value = do
  values ← as_array value
  require (leb (length values) maximum_items) too_many
  unique_from pattern [] values
