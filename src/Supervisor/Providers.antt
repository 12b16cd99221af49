-- ===== src/Supervisor/Providers.antt =====
-- `_provider_for_role` and `_provider_for_interface`: a ready provider of a role or an interface.
pub mod Ready
use msys_core.Common.{
  ℕ, zero, suc, Bool, true, false, not, ◌&&◌, ◌||◌, Option, none, some, List, [], ◌∷◌, ◌++◌, elem,
  distinct, nat_beq, if◌then◌else◌,
}
use msys_core.Common.Result.{Result, ok, err, ◌>>=◌}
use msys_core.Common.Text.{Text, codes, text_beq, text_eq}
use msys_core.Manifest.Types.{component_key}
use msys_core.Roles.Types.{RoleRegistry, RoleError}
use msys_core.Roles.Leases.{acquire, release_provider, active_provider}
use msys_core.Roles.Registry.{preferred_provider, candidate_ids}
use msys_core.Services.{provider_ids}
use msys_core.Supervisor.Instances.{Instance}
use msys_core.Supervisor.Runtime.{World, Runtime}

-- The end of a loop over candidates: a provider, no provider, or another catalog meanwhile.
pub data Search : Type 0 where
  found : Instance → Search
  exhausted : Search
  catalog_changed : Search

abbrev pub option_list : Option Text → List Text
option_list none = []
-- `if active:` takes no empty key
option_list (some []) = []
option_list (some (c ∷ key)) = (c ∷ key) ∷ []

-- The active provider, the preferred one, and the candidates, each once; None for `KeyError`.
unfoldable pub role_order : RoleRegistry → Text → Result RoleError (List Text)
role_order registry role = do
  active ← active_provider registry role
  candidates ← candidate_ids registry role
  preferred ← preferred_provider registry role
  ok (distinct (option_list active ++ (option_list preferred ++ candidates)))

abbrev pub catalog_attempts : ℕ
catalog_attempts = 3

module _ {E : Type 0} (runtime : Runtime E) where
  abbrev pub with_registry : RoleRegistry → World E → World E
  with_registry registry w = record w { role_registry = registry }

  -- `registry.active_provider(role) != key`; a `KeyError` there is not caught, and not modelled.
  unfoldable pub is_active : RoleRegistry → Text → Text → Bool
  is_active registry role key = elim (active_provider registry role) [
    | ok (some active) ↦ text_beq active key
    | ok none ↦ false
    | err e ↦ false
  ]

  -- The lease of a provider that is ready: None if it cannot have one.
  unfoldable pub lease_role : Text → Text → Text → World E → Option (World E)
  unfolding is_active
  lease_role role key holder w =
      if is_active w.role_registry role key
      then some w
      else let (outcome, registry) = acquire w.role_registry role (some key) (some holder) in
        elim outcome [ ok lease ↦ some (with_registry registry w) | err e ↦ none ]

  -- `registry.release_provider(key)`, if the registry is still the one of the epoch.
  unfoldable pub release_failed : ℕ → Text → World E → World E
  release_failed epoch key w =
      if nat_beq w.catalog_epoch epoch
      then with_registry (release_provider w.role_registry key).1 w
      else w

  -- `holder` gives `f"generation:{instance.generation}"`.
  unfoldable pub search_role :
      (ℕ → Text) → Text → ℕ → List Text → List Text → World E → Search × World E
  search_role holder role epoch excluded [] w = (exhausted, w)
  search_role holder role epoch excluded (key ∷ keys) w = elim (elem key excluded) [
    | true ↦ search_role holder role epoch excluded keys w
    | false ↦
        let (started, v) = runtime.ensure_ready key w in
        elim started [
          | none ↦ search_role holder role epoch excluded keys (release_failed epoch key v)
          | some i ↦ elim (nat_beq v.catalog_epoch epoch) [
            | false ↦ (catalog_changed, v)
            | true ↦ elim (runtime.is_current i v) [
              | false ↦ search_role holder role epoch excluded keys (runtime.stop_component i v)
              | true ↦ elim (lease_role role key (holder i.generation) v) [
                | none ↦ search_role holder role epoch excluded keys v
                | some u ↦ (found i, u)
              ]
            ]
          ]
        ]
  ]

  unfoldable pub search_interface : ℕ → List Text → List Text → World E → Search × World E
  search_interface epoch excluded [] w = (exhausted, w)
  search_interface epoch excluded (key ∷ keys) w = elim (elem key excluded) [
    | true ↦ search_interface epoch excluded keys w
    | false ↦
        let (started, v) = runtime.ensure_ready key w in
        elim started [
          | none ↦ search_interface epoch excluded keys v
          | some i ↦ elim (nat_beq v.catalog_epoch epoch) [
            | false ↦ (catalog_changed, v)
            | true ↦ elim (runtime.is_current i v) [
              | false ↦ search_interface epoch excluded keys (runtime.stop_component i v)
              | true ↦ (found i, v)
            ]
          ]
        ]
  ]

  -- After an attempt: its result, or the next attempt if the catalog changed.
  unfoldable pub settle :
      (World E → Option Instance × World E) → Search × World E → Option Instance × World E
  settle next (found i, w) = (some i, w)
  settle next (exhausted, w) = (none, w)
  settle next (catalog_changed, w) = next w

  -- The loop over the attempts, each on the catalog of its time.
  unfoldable pub attempt : ℕ → (World E → Search × World E) → World E → Option Instance × World E
  unfolding settle
  attempt zero turn w = (none, w)
  attempt (suc attempts) turn w = settle (attempt attempts turn) (turn w)

  -- One attempt: the candidates of the catalog, searched.
  unfoldable pub role_turn : (ℕ → Text) → Text → List Text → World E → Search × World E
  role_turn holder role excluded w = elim (role_order w.role_registry role) [
    | err e ↦ (exhausted, w)
    | ok keys ↦ search_role holder role w.catalog_epoch excluded keys w
  ]

  unfoldable pub interface_turn : Text → List Text → World E → Search × World E
  interface_turn interface excluded w =
      elim (provider_ids w.service_catalog (codes "interface") interface) [
        | err e ↦ (exhausted, w)
        | ok keys ↦ search_interface w.catalog_epoch excluded keys w
      ]

  unfoldable pub provider_for_role :
      (ℕ → Text) → Text → List Text → World E → Option Instance × World E
  provider_for_role holder role excluded w =
      attempt catalog_attempts (role_turn holder role excluded) w

  unfoldable pub provider_for_interface : Text → List Text → World E → Option Instance × World E
  provider_for_interface interface excluded w =
      attempt catalog_attempts (interface_turn interface excluded) w
