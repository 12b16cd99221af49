-- ===== src/ProfileContract/Nesting.antt =====
-- What `_json_value` accepts: the JSON values that nest at most 64 levels deep.
use Prim.Native.Nat.{max}
use msys_core.Common.{ℕ, suc, ◌+◌, ◌≤◌, ◌≡◌, ◌↔◌, refl, Bool, true, false, ◌&&◌, arith, leb}
use msys_core.Common.Result.{Result, ok, err}
use msys_core.ProfileContract.Checks.{ProfileError, json_value, json_items, json_fields}
use msys_core.Value.{
  Value, Items, Fields, null, bool, int, float, str, list, dict, object, nil, cons, end, field,
}

abbrev pub is_str_value : Value → Bool
is_str_value (str t) = true
is_str_value _ = false

-- A value that JSON can hold: finite numbers, string keys, no other objects.
unfoldable mutual
  pub is_json : Value → Bool
  is_json null = true
  is_json (bool b) = true
  is_json (int n) = true
  is_json (float finite t) = finite
  is_json (str t) = true
  is_json (list xs) = is_json_items xs
  is_json (dict fs) = is_json_fields fs
  is_json (object t) = false

  pub is_json_items : Items → Bool
  is_json_items nil = true
  is_json_items (cons v vs) = is_json v && is_json_items vs

  pub is_json_fields : Fields → Bool
  is_json_fields end = true
  is_json_fields (field k v fs) = is_str_value k && is_json v && is_json_fields fs

-- How many lists and dicts stand around the innermost value.
unfoldable mutual
  pub nesting : Value → ℕ
  nesting null = 0
  nesting (bool b) = 0
  nesting (int n) = 0
  nesting (float finite t) = 0
  nesting (str t) = 0
  nesting (list xs) = nesting_items xs
  nesting (dict fs) = nesting_fields fs
  nesting (object t) = 0

  pub nesting_items : Items → ℕ
  nesting_items nil = 0
  nesting_items (cons v vs) = max (suc (nesting v)) (nesting_items vs)

  pub nesting_fields : Fields → ℕ
  nesting_fields end = 0
  nesting_fields (field k v fs) = max (suc (nesting v)) (nesting_fields fs)

abbrev is_ok : Result ProfileError (Unit {0}) → Bool
is_ok (ok u) = true
is_ok (err e) = false

abbrev accepts : ℕ → Value → Bool
accepts depth v = leb (depth + nesting v) 64 && is_json v

mutual
  unfolding json_value is_json nesting

  json_value-accepts :
      (depth : ℕ) (v : Value)
      → is_ok (json_value depth v) ≡ (leb (depth + nesting v) 64 && is_json v)
  json_value-accepts depth null = ground arith
  json_value-accepts depth (bool b) = ground arith
  json_value-accepts depth (int n) = ground arith
  json_value-accepts depth (float finite t) = ground arith
  json_value-accepts depth (str t) = ground arith
  json_value-accepts depth (list xs) = ground (arith, json_items-accepts depth xs)
  json_value-accepts depth (dict fs) = ground (arith, json_fields-accepts depth fs)
  json_value-accepts depth (object t) = ground arith

  json_items-accepts :
      (depth : ℕ) (xs : Items)
      → (leb depth 64 && is_ok (json_items (suc depth) xs))
        ≡ (leb (depth + nesting_items xs) 64 && is_json_items xs)
  json_items-accepts depth nil = ground arith
  json_items-accepts depth (cons v vs) =
      ground (arith, json_value-accepts (suc depth) v, json_items-accepts depth vs)

  json_fields-accepts :
      (depth : ℕ) (fs : Fields)
      → (leb depth 64 && is_ok (json_fields (suc depth) fs))
        ≡ (leb (depth + nesting_fields fs) 64 && is_json_fields fs)
  json_fields-accepts depth end = ground arith
  json_fields-accepts depth (field (str k) v fs) =
      ground (arith, json_value-accepts (suc depth) v, json_fields-accepts depth fs)
  json_fields-accepts depth (field _ v fs) = ground arith

is_ok_lem : (r : Result ProfileError (Unit {0})) → is_ok r ≡ true → r ≡ ok tt
is_ok_lem (ok u) h = refl
is_ok_lem (err e) h = cc

-- `_json_value` accepts exactly the JSON values that nest at most 64 levels deep.
pub json_value_iff :
    (v : Value) → (json_value 0 v ≡ ok tt) ↔ ((nesting v ≤ 64) × (is_json v ≡ true))
json_value_iff v = (
  λ h. ground (arith, json_value-accepts 0 v),
  λ (low, plain). is_ok_lem (json_value 0 v) (ground (arith, json_value-accepts 0 v)),
)
