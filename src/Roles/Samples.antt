-- ===== src/Roles/Samples.antt =====
-- A small catalog, as in tests/test_roles.py, and the theorems at it.
use msys_core.Common.{
  ℕ, ◌≡◌, ◌⊎◌, ◌≤◌, refl, true, false, none, some, List, [], ◌∷◌, elem, filter, length, nat_eq, ltb,
}
use msys_core.Common.Int.{pos}
use msys_core.Common.Result.{ok, err}
use msys_core.Common.Text.{Text, codes, text_eq}
use msys_core.Common.Dict.{Dict, get, put, remove, values}
use msys_core.Common.Sorting.{sorted, IsSorted}
use msys_core.Manifest.Example.{provider}
use msys_core.Manifest.Types.{Components, Provide}
use msys_core.Roles.Types.{RoleRegistry, RoleLease, RoleCandidate, unknown_lease, lease_beq}
use msys_core.Roles.Registry.{
  get_state, get_candidate, preferred_provider, resolve_candidate, select_preferred,
}
use msys_core.Roles.Granting.{acquire-IsConsistent}
use msys_core.Roles.Leases.{
  by_lease, by_token, ref_token, is_other, acquire, acquire_checks, grant, chosen_candidate,
  check_conflict, release, release_provider, release_all, drop_lease, info, active_leases,
  active_providers,
}
use msys_core.Roles.Build.{init, build_roles, declarations}
use msys_core.Roles.Invariant.{IsConsistent, is_exclusive, tokens_of}
use msys_core.Roles.Acquiring.{
  acquire_outcome, WithoutCandidate, InConflict, Grants, release-acquire,
}
use msys_core.Roles.Declarations.{declared_for, summary, declarations_lem}
use msys_core.Roles.Releasing.{release_outcome, Released}
use msys_core.Roles.Stopping.{release_provider_lem, unless_held, held_by}
use msys_core.Roles.States.{IsRoleState}
use msys_core.Roles.Fresh.{init-IsConsistent, init_role, run-exclusive}
use msys_core.Roles.Runs.{Call, acquire_call, release_call, run, after, granted, granted_by}
use msys_core.ProfileContract.Checks.{
  unique_strings, unique_from, check_keys, known_fields, known_field, as_object, as_array,
  as_string, json_value,
}
use msys_core.ProfileContract.Validate.{
  validate_profile, check_id, check_roles, check_role_entries, check_disabled, check_env,
  check_env_entries, check_isolation, check_settings, check_state_dir, check_schema, check_rest,
}
use msys_core.Roles.Profile.{from_profile, from_profile-validated}
use msys_core.Value.{Value, Fields, str, list, dict, nil, cons, field, end}

program : Unit {0}
unfolding get put remove sorted init build_roles acquire acquire_checks grant chosen_candidate
    check_conflict get_state get_candidate preferred_provider resolve_candidate select_preferred
    release release_provider release_all drop_lease lease_beq info active_leases active_providers
    declarations declared_for run after is_exclusive
program = tt

abbrev to_text : Value → Text
to_text (str t) = t
to_text _ = []

abbrev launcher : Text
launcher = codes "launcher"

abbrev native : Text
native = codes "shell:native"

abbrev pyside : Text
pyside = codes "shell:pyside"

abbrev launcher_provide : ℕ → Provide
launcher_provide n = record {
  kind = codes "role";
  name = launcher;
  exclusive = true;
  priority = pos n;
}

abbrev components : Components
components =
    (native, provider (codes "native") (launcher_provide 1 ∷ []))
    ∷ (pyside, provider (codes "pyside") (launcher_provide 9 ∷ launcher_provide 3 ∷ []))
    ∷ []

abbrev profile_roles : Dict Text Value
profile_roles = (launcher, list (cons (str (codes "missing:main")) (cons (str native) nil))) ∷ []

abbrev native_candidate : RoleCandidate
native_candidate = record {
  role = launcher;
  provider_id = native;
  priority = pos 1;
  exclusive = true;
  profile_rank = some 1;
  declared = true;
}

abbrev pyside_candidate : RoleCandidate
pyside_candidate = record {
  role = launcher;
  provider_id = pyside;
  priority = pos 9;
  exclusive = true;
  profile_rank = none;
  declared = true;
}

abbrev registry : RoleRegistry
registry = record {
  components = components;
  profile_roles = profile_roles;
  disabled_roles = [];
  roles =
      (launcher, record { candidates = native_candidate ∷ pyside_candidate ∷ []; exclusive = true })
      ∷ [];
  preferred = [];
  leases = [];
  role_leases = (launcher, []) ∷ [];
  next_lease_token = 1;
}

built : init to_text components profile_roles [] ≡ ok registry
unfolding program
built = refl

registry-IsConsistent : IsConsistent registry
registry-IsConsistent = init-IsConsistent to_text components profile_roles [] built

init_role_example :
    IsRoleState to_text components profile_roles [] launcher
      (record { candidates = native_candidate ∷ pyside_candidate ∷ []; exclusive = true })
unfolding program
init_role_example =
    init_role to_text components profile_roles [] built launcher _ (refl, (refl, tt)) refl

abbrev calls : List Call
calls =
    acquire_call launcher none none
    ∷ acquire_call launcher (some pyside) none
    ∷ release_call (by_token 1)
    ∷ acquire_call launcher (some pyside) none
    ∷ []

grants_in_order : granted registry calls ≡ 1 ∷ 2 ∷ []
unfolding program granted granted_by
grants_in_order = refl

run-exclusive_example :
    IsConsistent (run registry calls)
    × IsSorted ltb (granted registry calls)
    × ((is_exclusive (run registry calls) launcher ≡ false)
        ⊎ (length (tokens_of (run registry calls) launcher) ≤ 1))
run-exclusive_example = run-exclusive to_text components profile_roles [] built calls launcher

declarations_lem_example :
    declared_for launcher pyside (declarations [] [] components)
    ≡ summary (launcher_provide 9 ∷ launcher_provide 3 ∷ [])
unfolding program
declarations_lem_example = declarations_lem [] launcher pyside components (refl, (refl, tt))

acquire_outcome_example :
    WithoutCandidate registry launcher none none
    ⊎ (InConflict registry launcher none none ⊎ Grants registry launcher none none)
acquire_outcome_example = acquire_outcome registry launcher none none registry-IsConsistent

abbrev first_lease : RoleLease
first_lease = record { token = 1; role = launcher; provider_id = native; holder = none }

abbrev leased : RoleRegistry
leased = (acquire registry launcher none none).1

first_grant : (acquire registry launcher none none).0 ≡ ok first_lease
unfolding program
first_grant = refl

release_acquired :
    (get 1 leased.leases ≡ some first_lease)
    × ((release leased (by_token 1)).0 ≡ ok first_lease)
    × ((release leased (by_token 2)).0 ≡ err (unknown_lease 2))
unfolding program
release_acquired = (refl, refl, refl)

leased-IsConsistent : IsConsistent leased
leased-IsConsistent = acquire-IsConsistent registry launcher none none registry-IsConsistent

release-acquire_example :
    ((release leased (by_lease first_lease)).0 ≡ ok first_lease)
    × ((t : ℕ) → get t (release leased (by_lease first_lease)).1.leases ≡ get t registry.leases)
    × ((r : Text) (t : ℕ)
        → elem t (tokens_of (release leased (by_lease first_lease)).1 r)
          ≡ elem t (tokens_of registry r))
release-acquire_example =
    release-acquire registry launcher none none registry-IsConsistent first_grant

release_outcome_example :
    ((release leased (by_token 1) ≡ (err (unknown_lease (ref_token (by_token 1))), leased))
      × ((get (ref_token (by_token 1)) leased.leases ≡ none)
          ⊎ ((stored : RoleLease) × (get (ref_token (by_token 1)) leased.leases ≡ some stored)
              × (is_other (by_token 1) stored ≡ true))))
    ⊎ ((stored : RoleLease) × (get (ref_token (by_token 1)) leased.leases ≡ some stored)
        × (is_other (by_token 1) stored ≡ false)
        × ((release leased (by_token 1)).0 ≡ ok stored)
        × Released leased (ref_token (by_token 1)) (release leased (by_token 1)).1)
release_outcome_example = release_outcome leased leased-IsConsistent (by_token 1)

release_provider_lem_example :
    ((release_provider leased native).0 ≡ ok (filter (held_by native) (values leased.leases)))
    × ((t : ℕ)
        → get t (release_provider leased native).1.leases
          ≡ unless_held native (get t leased.leases))
    × IsConsistent (release_provider leased native).1
release_provider_lem_example = release_provider_lem leased leased-IsConsistent native

abbrev profile : Fields
profile = field (str (codes "schema")) (str (codes "msys.profile.v1")) (
    field (str (codes "id")) (str (codes "mobile")) (
      field (str (codes "roles"))
        (dict (field (str launcher) (list (cons (str (codes "org.shell:native")) nil)) end))
        (field (str (codes "startup")) (list nil) end)))

accepted : validate_profile none (dict profile) ≡ ok profile
unfolding program validate_profile check_id check_roles check_role_entries check_disabled check_env
    check_env_entries check_isolation check_settings check_state_dir check_schema check_rest
    unique_strings unique_from check_keys known_fields known_field as_object as_array as_string
    json_value
accepted = refl

from_profile-validated_example :
    (r : RoleRegistry) × (from_profile to_text components profile ≡ ok r)
unfolding program
from_profile-validated_example =
    from_profile-validated to_text none (dict profile) components accepted
