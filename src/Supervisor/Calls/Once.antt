-- ===== src/Supervisor/Calls/Once.antt =====
-- A call is forwarded again only if that is safe.
use msys_core.Common.{
  ℕ, zero, suc, ◌≡◌, refl, sym, subst, Bool, true, false, not, ◌&&◌, ◌||◌, Option, none, some, List,
  [], ◌∷◌, map, all, elem, arith, IsNodup, Bool-cases, Option-cases, inl, inr,
}
use msys_core.Common.Text.{Text, text_beq, text_eq}
use msys_core.Manifest.Types.{component_key}
use msys_core.Supervisor.Calls.{
  Sent, Dispatched, Route, is_final, is_outcome_unknown, dispatch_loop, interface_route, role_route,
  dispatch_interface_call, dispatch_role_call, role_provider_is_running,
}
use msys_core.Supervisor.Responses.{
  liveness_errors, no_provider_socket, is_error, code_of, expired_before_provider_delivery,
  retry_safe_methods, is_role_noop,
}
use msys_core.Supervisor.Instances.{Instance}
use msys_core.Supervisor.Providers.Ready.{
  IsFresh, provider_for_role-IsFresh, provider_for_interface-IsFresh,
}
use msys_core.Supervisor.Runtime.{World, Call, Runtime, IsRuntime}
use msys_core.Value.{Value, Fields}

retry_test :
    (error expired live safe unsent : Bool)
    → (not error || expired || not live) ≡ false
    → (not safe && not unsent) ≡ false
    → (error && live && (safe || unsent)) ≡ true
retry_test error expired live safe unsent f u = ground arith

and_right : (a b : Bool) → (a && b) ≡ true → b ≡ true
and_right a b h = ground arith

-- All calls but the last.
abbrev pub earlier : List Sent → List Sent
earlier [] = []
earlier (last ∷ sent) = sent

module _ (to_text : Value → Text) where
  -- The response allows another provider: an error that says that the provider is not there, and
  -- that nothing was sent to it if the call may not run twice.
  abbrev pub allows_retry : Bool → Fields → Bool
  allows_retry retry_safe response =
      is_error response
      && elem (code_of to_text response) liveness_errors
      && (retry_safe || text_beq (code_of to_text response) no_provider_socket)

  -- No provider twice, and all responses but the last allow another provider.
  pub record IsOnce (retry_safe : Bool) (sent : List Sent) : Type 0 where
    pub distinct_providers : IsNodup (map (λ e. e.0) sent)
    pub retried : all (λ e. allows_retry retry_safe e.1) (earlier sent) ≡ true

  -- What was forwarded by a dispatch that ends.
  abbrev pub IsOnceIfAny : {E : Type 0} → Bool → Option (Dispatched E) → Type 0
  IsOnceIfAny retry_safe none = Unit
  IsOnceIfAny retry_safe (some d) = IsOnce retry_safe d.sent

module _ {E : Type 0} (to_text : Value → Text) (runtime : Runtime E) (law : IsRuntime runtime) where
  started_new :
      (attempted : List Text) (key : Text) (w : World E) (i : Instance)
      → (runtime.ensure_ready key w).0 ≡ some i
      → elem key attempted ≡ false
      → not (elem (component_key i.component) attempted) ≡ true
  started_new attempted key w i e free =
      subst (λ k. not (elem k attempted) ≡ true) (sym (law.started_key key w i e))
        (ground (arith, free))

  -- A route whose providers were not tried before.
  abbrev IsNew : Route E → Type 0
  IsNew route =
      (attempted : List Text) (w : World E)
      → IsFresh (λ i. not (elem (component_key i.component) attempted))
          (route.next_provider attempted w).0

  not_final :
      (retry_safe : Bool) (response : Fields)
      → is_final to_text runtime response ≡ false
      → is_outcome_unknown to_text runtime retry_safe response ≡ false
      → allows_retry to_text retry_safe response ≡ true
  unfolding is_final is_outcome_unknown
  not_final retry_safe response f u =
      retry_test (is_error response) (expired_before_provider_delivery response)
        (elem (code_of to_text response) liveness_errors) retry_safe
        (text_beq (code_of to_text response) no_provider_socket) f u

  IsOnce-more :
      (retry_safe : Bool) (i : Instance) (response : Fields) (sent : List Sent)
      → IsNodup (map (λ e. e.0) sent)
      → all (λ e. allows_retry to_text retry_safe e.1) sent ≡ true
      → not (elem (component_key i.component) (map (λ e. e.0) sent)) ≡ true
      → IsOnce to_text retry_safe ((component_key i.component, response) ∷ sent)
  IsOnce-more retry_safe i response sent n a free = record {
    distinct_providers = (ground (arith, free), n);
    retried = a;
  }

  none_more :
      (retry_safe : Bool) (sent : List Sent)
      → IsNodup (map (λ e. e.0) sent)
      → all (λ e. allows_retry to_text retry_safe e.1) sent ≡ true
      → IsOnce to_text retry_safe sent
  none_more retry_safe [] n a = record { distinct_providers = n; retried = refl }
  none_more retry_safe (e ∷ sent) n a = record {
    distinct_providers = n;
    retried = and_right (allows_retry to_text retry_safe e.1) _ a;
  }

  found_new :
      (route : Route E) (attempted : List Text) (w : World E) (i : Instance)
      → IsNew route
      → (route.next_provider attempted w).0 ≡ some i
      → not (elem (component_key i.component) attempted) ≡ true
  found_new route attempted w i fresh p =
      subst (IsFresh (λ j. not (elem (component_key j.component) attempted))) p (fresh attempted w)

  dispatch_loop-IsOnce :
      (route : Route E) (call : Call)
      → IsNew route
      → (fuel : ℕ) (last_error : Option Fields) (sent : List Sent) (w : World E)
      → IsNodup (map (λ e. e.0) sent)
      → all (λ e. allows_retry to_text route.retry_safe e.1) sent ≡ true
      → IsOnceIfAny to_text route.retry_safe
          (dispatch_loop to_text runtime route call fuel (map (λ e. e.0) sent) last_error sent w)
  unfolding dispatch_loop
  dispatch_loop-IsOnce route call fresh zero last_error sent w n a = tt
  dispatch_loop-IsOnce route call fresh (suc fuel) last_error sent w n a =
      let attempted = map (λ e. e.0) sent in
      let v = (route.next_provider attempted w).1 in
      elim (Option-cases (route.next_provider attempted w).0) [
        | inl gone ↦ rw (gone, IsOnceIfAny) (none_more route.retry_safe sent n a)
        | inr (i, p) ↦
            let response = (runtime.forward_call i call v).0 in
            let new = found_new route attempted w i fresh p in
            let more = IsOnce-more route.retry_safe i response sent n a new in
            elim (Bool-cases (is_final to_text runtime response)) [
              | inl f ↦ rw (p, f, IsOnceIfAny) more
              | inr f ↦
                  elim (Bool-cases (is_outcome_unknown to_text runtime route.retry_safe response)) [
                    | inl u ↦ rw (p, f, u, IsOnceIfAny) more
                    | inr u ↦
                        rw (p, f, u, IsOnceIfAny)
                          (dispatch_loop-IsOnce route call fresh fuel (some response)
                            ((component_key i.component, response) ∷ sent)
                            (runtime.stop_component i (runtime.forward_call i call v).1)
                            more.distinct_providers
                            (ground (arith, a, not_final route.retry_safe response f u)))
                  ]
            ]
      ]

  interface-IsOnce :
      (fuel : ℕ) (call : Call) (w : World E)
      → IsOnceIfAny to_text
          (interface_route to_text runtime call).retry_safe
          (dispatch_interface_call to_text runtime fuel call w)
  unfolding dispatch_interface_call
  interface-IsOnce fuel call w = elim (Bool-cases (text_beq call.name [])) [
    | inl empty ↦ rw (empty, IsOnceIfAny) (record { distinct_providers = tt; retried = refl })
    | inr named ↦ rw (named) (
        dispatch_loop-IsOnce (interface_route to_text runtime call) call
          (λ attempted v.
            provider_for_interface-IsFresh runtime attempted
              (λ i. not (elem (component_key i.component) attempted)) (started_new attempted)
              call.name v)
          fuel none [] w tt refl)
  ]

  role-IsOnce :
      (holder : ℕ → Text) (fuel : ℕ) (call : Call) (w : World E)
      → IsOnceIfAny to_text
          (role_route to_text runtime holder call).retry_safe
          (dispatch_role_call to_text runtime holder fuel call w)
  unfolding dispatch_role_call
  role-IsOnce holder fuel call w =
      elim (Bool-cases (
        is_role_noop call.name call.method
        && not (role_provider_is_running to_text runtime call.name w))) [
          | inl idle ↦ rw (idle, IsOnceIfAny) (record { distinct_providers = tt; retried = refl })
          | inr busy ↦ rw (busy) (
              dispatch_loop-IsOnce (role_route to_text runtime holder call) call
                (λ attempted v.
                  provider_for_role-IsFresh runtime attempted
                    (λ i. not (elem (component_key i.component) attempted)) (started_new attempted)
                    holder call.name v)
                fuel none [] _ tt refl)
        ]

  -- A call to an interface or a role is forwarded to no provider twice, and after each response but
  -- the last it may be forwarded again: an error that says that the provider is gone or did not
  -- answer in time, and, if the method may not run twice, one that says that nothing was sent. That
  -- holds where an instance that is started for a key is one of that component.
  pub dispatch-IsOnce :
      (holder : ℕ → Text) (fuel : ℕ) (call : Call) (w : World E)
      → IsOnceIfAny to_text
          (call.idempotent || elem call.method retry_safe_methods)
          (dispatch_interface_call to_text runtime fuel call w)
        × IsOnceIfAny to_text
            (call.idempotent
              || elem call.method retry_safe_methods
              || is_role_noop call.name call.method)
            (dispatch_role_call to_text runtime holder fuel call w)
  dispatch-IsOnce holder fuel call w =
      (interface-IsOnce fuel call w, role-IsOnce holder fuel call w)
