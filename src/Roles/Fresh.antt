-- ===== src/Roles/Fresh.antt =====
-- A registry from its construction on: every one that the methods reach is consistent.
use msys_core.Common.{
  ◌≤◌, ◌≡◌, refl, subst, none, some, List, [], ◌∷◌, arith, elem, IsNodup, length, if◌then◌else◌,
  inl, inr, ◌⊎◌, false, ltb, Bool-cases,
}
use msys_core.Common.Result.{Result-cases, ok}
use msys_core.Common.Text.{Text, text_eq}
use msys_core.Common.Dict.{Dict, get, keys, has-elem-keys}
use msys_core.Common.Sorting.{IsSorted}
use msys_core.Manifest.Types.{Components}
use msys_core.Roles.Types.{RoleRegistry, RoleState}
use msys_core.Roles.Build.{declarations, role_names, role_state, build_roles, no_leases, init}
use msys_core.Roles.Invariant.{
  IsConsistent, tokens_of, is_exclusive, select_preferred-IsConsistent,
  reset_preferred-IsConsistent,
}
use msys_core.Roles.Granting.{acquire-IsConsistent}
use msys_core.Roles.Releasing.{release-IsConsistent}
use msys_core.Roles.Stopping.{release_provider_lem}
use msys_core.Roles.Runs.{
  Call, select_call, reset_call, acquire_call, release_call, stop_call, after, run, granted,
}
use msys_core.Roles.Tokens.{granted-IsSorted}
use msys_core.Roles.States.{IsRoleState, get-role_states, elem-role_names, role_state-IsRoleState}
use msys_core.Value.{Value}

get-no_leases :
    (role : Text) (roles : List Text)
    → get role (no_leases roles) ≡ (if elem role roles then some [] else none)
unfolding get
get-no_leases role [] = refl
get-no_leases role (r ∷ roles) = ground (arith, get-no_leases role roles)

-- The registry that `__init__` makes from a catalog.
abbrev fresh : Components → Dict Text Value → List Text → Dict Text RoleState → RoleRegistry
fresh components profile_roles disabled roles = record {
  components = components;
  profile_roles = profile_roles;
  disabled_roles = disabled;
  roles = roles;
  preferred = [];
  leases = [];
  role_leases = no_leases (keys roles);
  next_lease_token = 1;
}

fresh-IsConsistent :
    (components : Components) (profile_roles : Dict Text Value) (disabled : List Text)
    (roles : Dict Text RoleState)
    → IsConsistent (fresh components profile_roles disabled roles)
unfolding get tokens_of
fresh-IsConsistent components profile_roles disabled roles = record {
  distinct_leases = tt;
  distinct_preferred = tt;
  agree = λ role token. ground (arith, get-no_leases role (keys roles));
  distinct_tokens = λ role. ground (arith, get-no_leases role (keys roles));
  tracked = λ role h. ground (arith, get-no_leases role (keys roles), has-elem-keys role roles);
  single = λ role h. ground (arith, get-no_leases role (keys roles));
  sound = λ token. refl;
  preferred_sound = λ role. refl;
}

after-IsConsistent : (reg : RoleRegistry) (c : Call) → IsConsistent reg → IsConsistent (after reg c)
unfolding after
after-IsConsistent reg (select_call role provider_id) h =
    select_preferred-IsConsistent reg h role provider_id
after-IsConsistent reg (reset_call role) h = reset_preferred-IsConsistent reg h role
after-IsConsistent reg (acquire_call role p holder) h = acquire-IsConsistent reg role p holder h
after-IsConsistent reg (release_call ref) h = release-IsConsistent reg h ref
after-IsConsistent reg (stop_call provider_id) h = (release_provider_lem reg h provider_id).2

-- Every call keeps the registry consistent.
pub run-IsConsistent :
    (reg : RoleRegistry) (cs : List Call) → IsConsistent reg → IsConsistent (run reg cs)
unfolding run
run-IsConsistent reg [] h = h
run-IsConsistent reg (c ∷ cs) h = run-IsConsistent (after reg c) cs (after-IsConsistent reg c h)

module _ (to_text : Value → Text) (components : Components) (profile_roles : Dict Text Value)
    (disabled : List Text) {reg : RoleRegistry}
    (built : init to_text components profile_roles disabled ≡ ok reg) where
  -- The constructor returns a consistent registry.
  pub init-IsConsistent : IsConsistent reg
  unfolding init
  init-IsConsistent = elim (Result-cases (build_roles to_text components profile_roles disabled)) [
    | inr (x, e) ↦ absurd (ground arith)
    | inl (roles, e) ↦
        subst IsConsistent (ground arith)
          (fresh-IsConsistent components profile_roles disabled roles)
  ]

  -- After any calls on a new registry, failed ones included, the registry is consistent: leases and
  -- role lists agree, leases and preferences name candidates; a role that is exclusive has at most
  -- one active lease; and the tokens that the calls were granted strictly increase, so that none is
  -- granted twice, also after a release.
  pub run-exclusive :
      (cs : List Call) (role : Text)
      → IsConsistent (run reg cs)
        × IsSorted ltb (granted reg cs)
        × ((is_exclusive (run reg cs) role ≡ false) ⊎ (length (tokens_of (run reg cs) role) ≤ 1))
  run-exclusive cs role =
      let h = run-IsConsistent reg cs init-IsConsistent in
      (
        h,
        granted-IsSorted reg cs,
        elim (Bool-cases (is_exclusive (run reg cs) role)) [
          | inl x ↦ inr (h.single role x)
          | inr x ↦ inl x
        ],
      )

  -- Where the components have distinct ids, each role of the new registry is not disabled; its
  -- candidates are the installed components that the profile lists and those that provide the role,
  -- each once; those of the profile come first, by their place in its list of ids, then the others
  -- by descending priority and by id; each has the highest priority of its provides of the role,
  -- and is exclusive if one of them is, or, if the profile alone names it, priority 0, and is
  -- exclusive; the role is exclusive as soon as one candidate is.
  pub init_role :
      (role : Text) (state : RoleState)
      → IsNodup (keys components)
      → get role reg.roles ≡ some state
      → IsRoleState to_text components profile_roles disabled role state
  unfolding init build_roles get
  init_role role state n h =
      elim (Result-cases (build_roles to_text components profile_roles disabled)) [
        | inr (x, e) ↦ absurd (ground arith)
        | inl (roles, e) ↦
            let names = role_names disabled profile_roles (declarations disabled [] components) in
            let found =
              get-role_states to_text components profile_roles (declarations disabled [] components)
                names [] roles role e in
            let enabled = elem-role_names to_text components profile_roles disabled role in
            elim (Result-cases (
              role_state to_text components profile_roles (declarations disabled [] components)
                role)) [
                  | inr (x, k) ↦ absurd (ground (arith, found))
                  | inl (s, k) ↦
                      role_state-IsRoleState to_text components profile_roles disabled role state n
                        (ground (arith, found, enabled)) (ground (arith, found, enabled))
                ]
      ]
