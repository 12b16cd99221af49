-- ===== src/Supervisor/Memory/Samples.antt =====
-- Profiles with a policy, and without one.
use msys_core.Common.{◌≡◌, refl, true}
use msys_core.Common.Int.{ℤ, pos}
use msys_core.Common.Result.{ok, err}
use msys_core.Common.Text.{codes}
use msys_core.Supervisor.Memory.{
  MemoryReclaimPolicy, default_policy, only_allowed, as_bool, in_bounds, out_of_bounds, bounded,
  policy_of, raw_policy, from_raw, from_profile,
}
use msys_core.Value.{Fields, str, int, dict, field, end}

program : Unit {0}
unfolding only_allowed as_bool in_bounds bounded policy_of raw_policy from_raw from_profile
program = tt

abbrev profile : ℤ → Fields
profile poll =
    field (str (codes "settings"))
      (dict (
        field (str (codes "memory_reclaim")) (dict (field (str (codes "poll_ms")) (int poll) end))
          end))
      end

abbrev every_second : MemoryReclaimPolicy
every_second = record default_policy { enabled = true; poll_ms = pos 1000 }

policies :
    (from_profile (profile (pos 1000)) ≡ ok every_second)
    × (from_profile (profile (pos 100)) ≡ err (out_of_bounds (codes "poll_ms")))
    × (from_profile end ≡ ok default_policy)
unfolding program
policies = (refl, refl, refl)
