-- ===== src/Supervisor/Calls.antt =====
-- The dispatch of calls to the providers of roles and interfaces, and to components. The frames
-- that the source forwards are kept as a list, which it does not have.
pub mod Once
pub mod Ends
mod Samples
use msys_core.Common.{
  ℕ, zero, suc, Bool, true, false, not, ◌&&◌, ◌||◌, Option, none, some, List, [], ◌∷◌, ◌++◌, any,
  elem, distinct, if◌then◌else◌,
}
use msys_core.Common.Int.{ℤ}
use msys_core.Common.Result.{Result, ok, err, ◌>>=◌}
use msys_core.Common.Text.{Text, codes, text_beq, text_eq}
use msys_core.Common.Dict.{has}
use msys_core.Manifest.Types.{Components, component_key}
use msys_core.Roles.Leases.{active_provider}
use msys_core.Roles.Registry.{preferred_provider, candidate_ids}
use msys_core.Supervisor.Instances.{Instance}
use msys_core.Supervisor.Providers.{option_list, provider_for_role, provider_for_interface}
use msys_core.Supervisor.Responses.{
  retry_safe_methods, no_provider_socket, liveness_errors, is_error,
  expired_before_provider_delivery, code_of, error_response, with_id, is_role_noop,
}
use msys_core.Supervisor.Runtime.{World, Call, Runtime}
use msys_core.Value.{
  Value, Fields, str, int, bool, dict, field, end, get_or, get_field, is_str, put_field,
}

-- A call that was forwarded: the key of its provider, and the response.
abbrev pub Sent : Type 0
Sent = Text × Fields

pub record Dispatched (E : Type 0) : Type 0 where
  pub response : Fields
  -- the last first
  pub sent : List Sent
  pub world : World E

-- What one loop of the dispatch is about.
pub record Route (E : Type 0) : Type 0 where
  -- a provider whose key is not among those that were tried
  pub next_provider : List Text → World E → Option Instance × World E
  pub retry_safe : Bool
  -- the role or interface
  pub name : Text
  pub absent_code : Text

module _ {E : Type 0} (to_text : Value → Text) (runtime : Runtime E) where
  abbrev pub finish : Fields → List Sent → World E → Option (Dispatched E)
  finish response sent w = some (record { response = response; sent = sent; world = w })

  -- `if not retry_safe and code != "NO_PROVIDER_SOCKET"`
  pub is_outcome_unknown : Bool → Fields → Bool
  unfolding code_of
  is_outcome_unknown retry_safe response =
      not retry_safe && not (text_beq (code_of to_text response) no_provider_socket)

  -- The response is passed on: no provider is tried after it.
  pub is_final : Fields → Bool
  unfolding is_error expired_before_provider_delivery code_of
  is_final response =
      not (is_error response)
      || expired_before_provider_delivery response
      || not (elem (code_of to_text response) liveness_errors)

  -- A response that is no error keeps its id; the others get that of the call.
  pub passed_on : Call → Fields → Fields
  unfolding is_error with_id
  passed_on call response = if is_error response then with_id call.id response else response

  pub outcome_unknown : Route E → Call → Instance → Fields
  unfolding error_response
  outcome_unknown route call i = error_response call.id (codes "OUTCOME_UNKNOWN") (
      route.name
      ++ ((b'.' ∷ call.method)
          ++ (codes " may have been delivered to " ++ component_key i.component)))

  -- The response once no provider is left.
  pub no_provider : Route E → Call → Option Fields → Fields
  unfolding with_id error_response
  no_provider route call (some last_error) = with_id call.id last_error
  no_provider route call none = error_response call.id route.absent_code route.name

  -- `while True`, on fuel: see Ends.
  pub dispatch_loop :
      Route E → Call → ℕ → List Text → Option Fields → List Sent → World E → Option (Dispatched E)
  unfolding no_provider outcome_unknown passed_on is_final is_outcome_unknown
  dispatch_loop route call zero attempted last_error sent w = none
  dispatch_loop route call (suc fuel) attempted last_error sent w =
      let (provider, v) = route.next_provider attempted w in
      elim provider [
        | none ↦ finish (no_provider route call last_error) sent v
        | some i ↦
            let key = component_key i.component in
            let (response, u) = runtime.forward_call i call v in
            elim (is_final response) [
              | true ↦ finish (passed_on call response) ((key, response) ∷ sent) u
              | false ↦ elim (is_outcome_unknown route.retry_safe response) [
                | true ↦
                    finish (outcome_unknown route call i) ((key, response) ∷ sent)
                      (runtime.stop_component i u)
                | false ↦
                    dispatch_loop route call fuel (key ∷ attempted) (some response)
                      ((key, response) ∷ sent) (runtime.stop_component i u)
              ]
            ]
      ]

  abbrev pub interface_route : Call → Route E
  interface_route call = record {
    next_provider = provider_for_interface runtime call.name;
    retry_safe = call.idempotent || elem call.method retry_safe_methods;
    name = call.name;
    absent_code = codes "NO_INTERFACE_PROVIDER";
  }

  pub dispatch_interface_call : ℕ → Call → World E → Option (Dispatched E)
  unfolding error_response
  dispatch_interface_call fuel call w =
      if text_beq call.name []
      then finish (error_response call.id (codes "BAD_TARGET") (codes "interface name is empty")) []
          w
      else dispatch_loop (interface_route call) call fuel [] none [] w

  abbrev pub role_route : (ℕ → Text) → Call → Route E
  role_route holder call = record {
    next_provider = provider_for_role runtime holder call.name;
    retry_safe =
        call.idempotent
        || elem call.method retry_safe_methods
        || is_role_noop call.name call.method;
    name = call.name;
    absent_code = codes "NO_PROVIDER";
  }

  pub role_provider_is_running : Text → World E → Bool
  role_provider_is_running role w =
      let candidates : Result _ (List Text) = do
        active ← active_provider w.role_registry role
        preferred ← preferred_provider w.role_registry role
        ids ← candidate_ids w.role_registry role
        ok (option_list active ++ (option_list preferred ++ ids))
      in elim candidates [
        | err e ↦ false
        | ok keys ↦ any (λ key. runtime.is_running key w) (distinct keys)
      ]

  abbrev pub already_hidden : Call → Fields
  already_hidden call = field (str (codes "type")) (str (codes "return")) (
      field (str (codes "id")) (int call.id) (
        field (str (codes "payload"))
          (dict (
            field (str (codes "ok")) (bool true) (
              field (str (codes "role")) (str call.name) (
                field (str (codes "visible")) (bool false)
                  (field (str (codes "already_hidden")) (bool true) end)))))
          end))

  pub dispatch_role_call : (ℕ → Text) → ℕ → Call → World E → Option (Dispatched E)
  unfolding role_provider_is_running
  dispatch_role_call holder fuel call w =
      if is_role_noop call.name call.method && not (role_provider_is_running call.name w)
      then finish (already_hidden call) [] w
      else dispatch_loop (role_route holder call) call fuel [] none [] (
          if text_beq call.name (codes "window-manager")
            && text_beq call.method (codes "close_active")
          then runtime.announce_foreground_closing w
          else w)

  -- The components are those of the catalog; `problem` is the text of the exception.
  pub dispatch_component_target_call : Components → Text → Call → World E → Fields × World E
  unfolding error_response
  dispatch_component_target_call components problem call w =
      if text_beq call.name [] || not (has call.name components)
      then (error_response call.id (codes "UNKNOWN_COMPONENT") call.name, w)
      else let (provider, v) = runtime.ensure_ready call.name w in
        elim provider [
          | none ↦ (error_response call.id (codes "COMPONENT_UNAVAILABLE") problem, v)
          | some i ↦ runtime.forward_call i call v
        ]
