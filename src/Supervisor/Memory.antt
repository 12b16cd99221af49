-- ===== src/Supervisor/Memory.antt =====
-- `MemoryReclaimPolicy`: when memory is short, from the settings of the profile.
mod Limits
mod Samples
use msys_core.Common.{
  ℕ, Bool, true, false, not, ◌&&◌, Option, none, some, List, [], ◌∷◌, any, elem, map, filter,
  is_some, if◌then◌else◌,
}
use msys_core.Common.Int.{ℤ, pos, leb_ℤ}
use msys_core.Common.Result.{Result, ok, err, require, ◌>>=◌, ◌>>◌}
use msys_core.Common.Text.{Text, codes, text_eq}
use msys_core.Value.{Value, Fields, null, bool, int, str, dict, field, end, get_or, get_field}

pub data PolicyError : Type 0 where
  not_an_object : PolicyError
  unknown_fields : PolicyError
  enabled_type : PolicyError
  not_an_integer : Text → PolicyError
  out_of_bounds : Text → PolicyError

pub record MemoryReclaimPolicy : Type 0 where
  pub enabled : Bool
  pub available_kib : ℤ
  pub poll_ms : ℤ
  pub min_app_age_ms : ℤ

abbrev pub default_policy : MemoryReclaimPolicy
default_policy = record {
  enabled = false;
  available_kib = pos 49152;
  poll_ms = pos 2000;
  min_app_age_ms = pos 15000;
}

-- `set(raw) - allowed` is empty: each key is one of the four.
pub only_allowed : Fields → Bool
only_allowed end = true
only_allowed (field (str t) v fields) =
    elem t (codes "enabled" ∷ codes "available_kib" ∷ codes "poll_ms" ∷ codes "min_app_age_ms" ∷ [])
    && only_allowed fields
only_allowed (field _ v fields) = false

pub as_bool : Value → Result PolicyError Bool
as_bool (bool b) = ok b
as_bool _ = err enabled_type

pub in_bounds : Text → ℤ → ℤ → Value → Result PolicyError ℤ
in_bounds name minimum maximum (int value) =
    if leb_ℤ minimum value && leb_ℤ value maximum then ok value else err (out_of_bounds name)
in_bounds name minimum maximum _ = err (not_an_integer name)

pub bounded : Fields → Text → ℤ → ℤ → ℤ → Result PolicyError ℤ
unfolding in_bounds
bounded raw name default minimum maximum =
    in_bounds name minimum maximum (get_or name (int default) raw)

pub policy_of : Fields → Result PolicyError MemoryReclaimPolicy
unfolding only_allowed as_bool bounded
policy_of raw = do
  require (only_allowed raw) unknown_fields
  enabled ← as_bool (get_or (codes "enabled") (bool true) raw)
  available ← bounded raw (codes "available_kib") (pos 49152) (pos 8192) (pos 1048576)
  poll ← bounded raw (codes "poll_ms") (pos 2000) (pos 500) (pos 60000)
  age ← bounded raw (codes "min_app_age_ms") (pos 15000) (pos 0) (pos 3600000)
  ok (record { enabled = enabled; available_kib = available; poll_ms = poll; min_app_age_ms = age })

-- `settings.get("memory_reclaim", {})`, of a profile whose settings are a dict.
pub raw_policy : Value → Value
raw_policy (dict settings) = get_or (codes "memory_reclaim") (dict end) settings
raw_policy _ = dict end

pub from_raw : Value → Result PolicyError MemoryReclaimPolicy
unfolding policy_of
from_raw null = ok default_policy
from_raw (dict end) = ok default_policy
from_raw (dict (field k v fields)) = policy_of (field k v fields)
from_raw _ = err not_an_object

pub from_profile : Fields → Result PolicyError MemoryReclaimPolicy
unfolding raw_policy from_raw
from_profile profile = from_raw (raw_policy (get_or (codes "settings") (dict end) profile))
