-- ===== src/Supervisor/Providers/Ready.antt =====
-- A provider that is returned was started, and was not tried before.
use msys_core.Common.{
  ℕ, zero, suc, ◌≡◌, Bool, true, false, Option, none, some, List, [], ◌∷◌, elem, nat_beq,
  Bool-cases, Option-cases, inl, inr,
}
use msys_core.Common.Result.{Result-cases}
use msys_core.Common.Text.{Text, text_eq, codes}
use msys_core.Services.{provider_ids}
use msys_core.Supervisor.Instances.{Instance}
use msys_core.Supervisor.Providers.{
  Search, found, exhausted, catalog_changed, role_order, lease_role, release_failed, search_role,
  search_interface, settle, attempt, role_turn, interface_turn, catalog_attempts, provider_for_role,
  provider_for_interface,
}
use msys_core.Supervisor.Runtime.{World, Runtime}

-- A provider that is found, or returned, passes a test.
abbrev IsFree : (Instance → Bool) → Search → Type 0
IsFree passes (found i) = passes i ≡ true
IsFree passes exhausted = Unit
IsFree passes catalog_changed = Unit

abbrev pub IsFresh : (Instance → Bool) → Option Instance → Type 0
IsFresh passes none = Unit
IsFresh passes (some i) = passes i ≡ true

module _ {E : Type 0} (runtime : Runtime E) (excluded : List Text) (passes : Instance → Bool)
    (started_passes : (key : Text) (w : World E) (i : Instance)
      → (runtime.ensure_ready key w).0 ≡ some i
      → elem key excluded ≡ false
      → passes i ≡ true) where
  search_interface-IsFree :
      (epoch : ℕ) (keys : List Text) (w : World E)
      → IsFree passes (search_interface runtime epoch excluded keys w).0
  unfolding search_interface
  search_interface-IsFree epoch [] w = tt
  search_interface-IsFree epoch (key ∷ keys) w =
      let v = (runtime.ensure_ready key w).1 in
      elim (Bool-cases (elem key excluded)) [
        | inl old ↦ rw (old, IsFree) (search_interface-IsFree epoch keys w)
        | inr free ↦ elim (Option-cases (runtime.ensure_ready key w).0) [
          | inl failed ↦ rw (free, failed, IsFree) (search_interface-IsFree epoch keys v)
          | inr (i, started) ↦ elim (Bool-cases (nat_beq v.catalog_epoch epoch)) [
            | inr changed ↦ rw (free, started, changed, IsFree) tt
            | inl same ↦ elim (Bool-cases (runtime.is_current i v)) [
              | inl current ↦
                  rw (free, started, same, current, IsFree) (started_passes key w i started free)
              | inr stale ↦
                  rw (free, started, same, stale, IsFree)
                    (search_interface-IsFree epoch keys (runtime.stop_component i v))
            ]
          ]
        ]
      ]

  search_role-IsFree :
      (holder : ℕ → Text) (role : Text) (epoch : ℕ) (keys : List Text) (w : World E)
      → IsFree passes (search_role runtime holder role epoch excluded keys w).0
  unfolding search_role
  search_role-IsFree holder role epoch [] w = tt
  search_role-IsFree holder role epoch (key ∷ keys) w =
      let v = (runtime.ensure_ready key w).1 in
      elim (Bool-cases (elem key excluded)) [
        | inl old ↦ rw (old, IsFree) (search_role-IsFree holder role epoch keys w)
        | inr free ↦ elim (Option-cases (runtime.ensure_ready key w).0) [
          | inl failed ↦
              rw (free, failed, IsFree)
                (search_role-IsFree holder role epoch keys (release_failed runtime epoch key v))
          | inr (i, started) ↦ elim (Bool-cases (nat_beq v.catalog_epoch epoch)) [
            | inr changed ↦ rw (free, started, changed, IsFree) tt
            | inl same ↦ elim (Bool-cases (runtime.is_current i v)) [
              | inr stale ↦
                  rw (free, started, same, stale, IsFree)
                    (search_role-IsFree holder role epoch keys (runtime.stop_component i v))
              | inl current ↦
                  elim (Option-cases (lease_role runtime role key (holder i.generation) v)) [
                    | inl refused ↦
                        rw (free, started, same, current, refused, IsFree)
                          (search_role-IsFree holder role epoch keys v)
                    | inr (u, leased) ↦
                        rw (free, started, same, current, leased, IsFree)
                          (started_passes key w i started free)
                  ]
            ]
          ]
        ]
      ]

  settle-IsFresh :
      (next : World E → Option Instance × World E) (result : Search × World E)
      → ((w : World E) → IsFresh passes (next w).0)
      → IsFree passes result.0
      → IsFresh passes (settle runtime next result).0
  unfolding settle
  settle-IsFresh next (found i, w) fresh free = free
  settle-IsFresh next (exhausted, w) fresh free = tt
  settle-IsFresh next (catalog_changed, w) fresh free = fresh w

  attempt-IsFresh :
      (attempts : ℕ) (turn : World E → Search × World E)
      → ((w : World E) → IsFree passes (turn w).0)
      → (w : World E) → IsFresh passes (attempt runtime attempts turn w).0
  unfolding attempt
  attempt-IsFresh zero turn free w = tt
  attempt-IsFresh (suc attempts) turn free w =
      settle-IsFresh (attempt runtime attempts turn) (turn w)
        (λ v. attempt-IsFresh attempts turn free v) (free w)

  role_turn-IsFree :
      (holder : ℕ → Text) (role : Text) (w : World E)
      → IsFree passes (role_turn runtime holder role excluded w).0
  unfolding role_turn
  role_turn-IsFree holder role w = elim (Result-cases (role_order w.role_registry role)) [
    | inl (keys, e) ↦ rw (e, IsFree) (search_role-IsFree holder role w.catalog_epoch keys w)
    | inr (e, k) ↦ rw (k, IsFree) tt
  ]

  interface_turn-IsFree :
      (interface : Text) (w : World E)
      → IsFree passes (interface_turn runtime interface excluded w).0
  unfolding interface_turn
  interface_turn-IsFree interface w =
      elim (Result-cases (provider_ids w.service_catalog (codes "interface") interface)) [
        | inl (keys, e) ↦ rw (e, IsFree) (search_interface-IsFree w.catalog_epoch keys w)
        | inr (e, k) ↦ rw (k, IsFree) tt
      ]

  pub provider_for_role-IsFresh :
      (holder : ℕ → Text) (role : Text) (w : World E)
      → IsFresh passes (provider_for_role runtime holder role excluded w).0
  unfolding provider_for_role
  provider_for_role-IsFresh holder role w =
      attempt-IsFresh catalog_attempts (role_turn runtime holder role excluded)
        (role_turn-IsFree holder role) w

  pub provider_for_interface-IsFresh :
      (interface : Text) (w : World E)
      → IsFresh passes (provider_for_interface runtime interface excluded w).0
  unfolding provider_for_interface
  provider_for_interface-IsFresh interface w =
      attempt-IsFresh catalog_attempts (interface_turn runtime interface excluded)
        (interface_turn-IsFree interface) w
