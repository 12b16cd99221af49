-- ===== src/Supervisor/Calls/Ends.antt =====
-- A dispatch ends: each turn of its loop tries one component more.
use msys_core.Common.{
  ℕ, zero, suc, ◌≤◌, ◌<◌, ◌≡◌, refl, sym, subst, Bool, true, false, not, ◌&&◌, Option, none, some,
  List, [], ◌∷◌, elem, length, if◌then◌else◌, arith, Bool-cases, Option-cases, inl, inr,
}
use msys_core.Common.Text.{Text, codes, text_beq, text_eq, text_beq_iff}
use msys_core.Manifest.Types.{component_key}
use msys_core.Supervisor.Calls.{
  Sent, Dispatched, Route, is_final, is_outcome_unknown, dispatch_loop, interface_route, role_route,
  dispatch_interface_call, dispatch_role_call, role_provider_is_running,
}
use msys_core.Supervisor.Responses.{is_role_noop}
use msys_core.Supervisor.Instances.{Instance}
use msys_core.Supervisor.Providers.Ready.{
  IsFresh, provider_for_role-IsFresh, provider_for_interface-IsFresh,
}
use msys_core.Supervisor.Runtime.{World, Call, Runtime, IsRuntime}
use msys_core.Value.{Value, Fields}

-- How many keys of `known` are not in `attempted`.
unseen : List Text → List Text → ℕ
unseen attempted [] = 0
unseen attempted (k ∷ known) =
    let rest = unseen attempted known in if elem k attempted then rest else suc rest

unseen_mono :
    (key : Text) (attempted known : List Text)
    → unseen (key ∷ attempted) known ≤ unseen attempted known
unfolding unseen
unseen_mono key attempted [] = omega arith
unseen_mono key attempted (k ∷ known) = ground (arith, unseen_mono key attempted known)

unseen_fewer :
    (key : Text) (attempted known : List Text)
    → elem key known ≡ true
    → elem key attempted ≡ false
    → unseen (key ∷ attempted) known < unseen attempted known
unfolding unseen
unseen_fewer key attempted [] k a = cc
unseen_fewer key attempted (x ∷ known) k a = ground (
  arith,
  unseen_fewer key attempted known,
  unseen_mono key attempted known,
  text_beq_iff x key,
  text_beq_iff key x,
)

unseen_all : (attempted known : List Text) → unseen attempted known ≤ length known
unfolding unseen
unseen_all attempted [] = omega arith
unseen_all attempted (k ∷ known) = ground (arith, unseen_all attempted known)

module _ {E : Type 0} (to_text : Value → Text) (runtime : Runtime E) (law : IsRuntime runtime)
    (known : List Text)
    (starts_known : (key : Text) (w : World E) (i : Instance)
      → (runtime.ensure_ready key w).0 ≡ some i
      → elem key known ≡ true) where
  -- The component of the instance is known, and was not tried.
  abbrev is_new : List Text → Instance → Bool
  is_new attempted i =
      elem (component_key i.component) known && not (elem (component_key i.component) attempted)

  started_new :
      (attempted : List Text) (key : Text) (w : World E) (i : Instance)
      → (runtime.ensure_ready key w).0 ≡ some i
      → elem key attempted ≡ false
      → is_new attempted i ≡ true
  started_new attempted key w i e free =
      subst (λ k. (elem k known && not (elem k attempted)) ≡ true) (sym (law.started_key key w i e))
        (ground (arith, free, starts_known key w i e))

  dispatch_loop_ends :
      (route : Route E) (call : Call)
      → ((attempted : List Text) (w : World E)
          → IsFresh (is_new attempted) (route.next_provider attempted w).0)
      → (fuel : ℕ) (attempted : List Text) (last_error : Option Fields) (sent : List Sent)
      → (w : World E) → unseen attempted known < fuel
      → (d : Dispatched E) × (dispatch_loop to_text runtime route call fuel attempted last_error
            sent w
          ≡ some d)
  unfolding dispatch_loop
  dispatch_loop_ends route call fresh zero attempted last_error sent w h = absurd (omega (arith, h))
  dispatch_loop_ends route call fresh (suc fuel) attempted last_error sent w h =
      let v = (route.next_provider attempted w).1 in
      elim (Option-cases (route.next_provider attempted w).0) [
        | inl gone ↦ rw (gone, dispatch_loop) (_, refl)
        | inr (i, p) ↦
            let response = (runtime.forward_call i call v).0 in
            let new = subst (IsFresh (is_new attempted)) p (fresh attempted w) in
            elim (Bool-cases (is_final to_text runtime response)) [
              | inl f ↦ rw (p, f, dispatch_loop) (_, refl)
              | inr f ↦
                  elim (Bool-cases (is_outcome_unknown to_text runtime route.retry_safe response)) [
                    | inl u ↦ rw (p, f, u, dispatch_loop) (_, refl)
                    | inr u ↦
                        let (d, e) =
                          dispatch_loop_ends route call fresh fuel
                            (component_key i.component ∷ attempted) (some response)
                            ((component_key i.component, response) ∷ sent)
                            (runtime.stop_component i (runtime.forward_call i call v).1)
                            (ground (
                              arith,
                              new,
                              h,
                              unseen_fewer (component_key i.component) attempted known,
                            )) in
                        rw (p, f, u, dispatch_loop) (d, e)
                  ]
            ]
      ]

  -- With more fuel than there are components that can be started, the dispatch of a call to an
  -- interface or a role ends with a response, whatever providers, catalogs and responses do. That
  -- holds where an instance that is started for a key is one of that component.
  pub dispatch_ends :
      (holder : ℕ → Text) (fuel : ℕ) (call : Call) (w : World E)
      → length known < fuel
      → ((d : Dispatched E) × (dispatch_interface_call to_text runtime fuel call w ≡ some d))
        × ((d : Dispatched E) × (dispatch_role_call to_text runtime holder fuel call w ≡ some d))
  unfolding dispatch_interface_call dispatch_role_call
  dispatch_ends holder fuel call w h = (
    elim (Bool-cases (text_beq call.name [])) [
      | inl empty ↦ rw (empty, dispatch_interface_call) (_, refl)
      | inr named ↦
          let (d, e) =
            dispatch_loop_ends (interface_route to_text runtime call) call
              (λ attempted v.
                provider_for_interface-IsFresh runtime attempted (is_new attempted)
                  (started_new attempted) call.name v)
              fuel [] none [] w (ground (arith, h, unseen_all [] known)) in
          rw (named, dispatch_interface_call) (d, e)
    ],
    elim (Bool-cases (
        is_role_noop call.name call.method
        && not (role_provider_is_running to_text runtime call.name w))) [
          | inl idle ↦ rw (idle, dispatch_role_call) (_, refl)
          | inr busy ↦
              let (d, e) =
                dispatch_loop_ends (role_route to_text runtime holder call) call
                  (λ attempted v.
                    provider_for_role-IsFresh runtime attempted (is_new attempted)
                      (started_new attempted) holder call.name v)
                  fuel [] none []
                  (if text_beq call.name (codes "window-manager")
                      && text_beq call.method (codes "close_active")
                    then runtime.announce_foreground_closing w
                    else w)
                  (ground (arith, h, unseen_all [] known)) in
              rw (busy, dispatch_role_call) (d, e)
        ],
  )
