-- ===== src/Supervisor/Memory/Limits.antt =====
-- The limits that every policy of a profile respects.
use msys_core.Common.{◌≡◌, refl, subst, Bool, true, false, ◌&&◌, if◌then◌else◌, arith}
use msys_core.Common.Int.{ℤ, pos, leb_ℤ, ◌≤ℤ◌}
use msys_core.Common.Result.{ok, err, require, bind-ok, ok_injective}
use msys_core.Common.Text.{Text, codes}
use msys_core.Supervisor.Memory.{
  PolicyError, MemoryReclaimPolicy, default_policy, only_allowed, unknown_fields, as_bool,
  in_bounds, out_of_bounds, bounded, policy_of, raw_policy, from_raw, from_profile,
}
use msys_core.Value.{Value, Fields, null, bool, int, dict, end, field, get_or}

abbrev pub Within : ℤ → ℤ → ℤ → Type 0
Within minimum maximum value = (minimum ≤ℤ value) × (value ≤ℤ maximum)

pub record IsLimited (p : MemoryReclaimPolicy) : Type 0 where
  pub available : Within (pos 8192) (pos 1048576) p.available_kib
  pub poll : Within (pos 500) (pos 60000) p.poll_ms
  pub age : Within (pos 0) (pos 3600000) p.min_app_age_ms

kept :
    (b : Bool) (error : PolicyError) (m n : ℤ)
    → (if b then ok m else err error) ≡ ok n
    → (b ≡ true) × (m ≡ n)
kept true error m n h = (refl, ok_injective h)
kept false error m n h = cc

in_bounds-Within :
    (name : Text) (minimum maximum : ℤ) (v : Value) (n : ℤ)
    → in_bounds name minimum maximum v ≡ ok n
    → Within minimum maximum n
unfolding in_bounds
in_bounds-Within name minimum maximum (int m) n h =
    let (b, e) = kept (leb_ℤ minimum m && leb_ℤ m maximum) (out_of_bounds name) m n h in
    subst (Within minimum maximum) e (ground (arith, b))
in_bounds-Within name minimum maximum _ n h = cc

bounded-Within :
    (raw : Fields) (name : Text) (default minimum maximum n : ℤ)
    → bounded raw name default minimum maximum ≡ ok n
    → Within minimum maximum n
unfolding bounded
bounded-Within raw name default minimum maximum n h =
    in_bounds-Within name minimum maximum (get_or name (int default) raw) n h

policy_of-IsLimited : (raw : Fields) (p : MemoryReclaimPolicy) → policy_of raw ≡ ok p → IsLimited p
unfolding policy_of
policy_of-IsLimited raw p h =
    let (u, e, h1) = bind-ok (require (only_allowed raw) unknown_fields) _ h in
    let (enabled, e1, h2) = bind-ok (as_bool (get_or (codes "enabled") (bool true) raw)) _ h1 in
    let (available, e2, h3) =
      bind-ok (bounded raw (codes "available_kib") (pos 49152) (pos 8192) (pos 1048576)) _ h2 in
    let (poll, e3, h4) =
      bind-ok (bounded raw (codes "poll_ms") (pos 2000) (pos 500) (pos 60000)) _ h3 in
    let (age, e4, h5) =
      bind-ok (bounded raw (codes "min_app_age_ms") (pos 15000) (pos 0) (pos 3600000)) _ h4 in
    subst IsLimited (ok_injective h5) (record {
      available =
          bounded-Within raw (codes "available_kib") (pos 49152) (pos 8192) (pos 1048576) available
            e2;
      poll = bounded-Within raw (codes "poll_ms") (pos 2000) (pos 500) (pos 60000) poll e3;
      age = bounded-Within raw (codes "min_app_age_ms") (pos 15000) (pos 0) (pos 3600000) age e4;
    })

default-IsLimited : IsLimited default_policy
default-IsLimited = record { available = ground arith; poll = ground arith; age = ground arith }

from_raw-IsLimited : (raw : Value) (p : MemoryReclaimPolicy) → from_raw raw ≡ ok p → IsLimited p
unfolding from_raw
from_raw-IsLimited null p h = subst IsLimited (ok_injective h) default-IsLimited
from_raw-IsLimited (dict end) p h = subst IsLimited (ok_injective h) default-IsLimited
from_raw-IsLimited (dict (field k v fields)) p h = policy_of-IsLimited (field k v fields) p h
from_raw-IsLimited _ p h = cc

-- Whatever the profile says, a policy that is returned polls between half a second and a minute
-- apart, for a limit of 8 MiB to 1 GiB, and spares applications for an hour at most.
pub from_profile-IsLimited :
    (profile : Fields) (p : MemoryReclaimPolicy) → from_profile profile ≡ ok p → IsLimited p
unfolding from_profile
from_profile-IsLimited profile p h =
    from_raw-IsLimited (raw_policy (get_or (codes "settings") (dict end) profile)) p h
