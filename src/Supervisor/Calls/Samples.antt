-- ===== src/Supervisor/Calls/Samples.antt =====
-- An interface and a role with two providers, one of which is gone, and the theorems at them.
use msys_core.Common.{
  ◌≡◌, refl, sym, ap, subst, Bool, true, false, Option, none, some, List, [], ◌∷◌, ◌||◌, map, elem,
  if◌then◌else◌, arith, Bool-cases, inl, inr,
}
use msys_core.Common.Int.{pos}
use msys_core.Common.Text.{Text, codes, text_beq, text_eq, text_beq_iff}
use msys_core.Common.Dict.{get, put, remove}
use msys_core.Manifest.Example.{provider}
use msys_core.Manifest.Types.{component_key}
use msys_core.Roles.Types.{RoleRegistry, RoleCandidate, lease_beq}
use msys_core.Roles.Registry.{
  get_state, get_candidate, list_candidates, candidate_ids, preferred_provider, resolve_candidate,
}
use msys_core.Roles.Leases.{
  acquire, acquire_checks, grant, chosen_candidate, check_conflict, active_provider,
  active_providers, active_leases, release_provider, release_all, release, drop_lease,
}
use msys_core.Services.{ServiceProvider, checked_kind, is_service_kind, providers, provider_ids}
use msys_core.Supervisor.Calls.{
  is_outcome_unknown, is_final, passed_on, outcome_unknown, no_provider, dispatch_loop, Dispatched,
  dispatch_interface_call, role_provider_is_running, dispatch_role_call,
}
use msys_core.Supervisor.Responses.{
  retry_safe_methods, is_error, expired_before_provider_delivery, code_of, error_response, with_id,
  is_role_noop,
}
use msys_core.Supervisor.Calls.Once.{IsOnceIfAny, dispatch-IsOnce}
use msys_core.Supervisor.Calls.Ends.{dispatch_ends}
use msys_core.Supervisor.Instances.{Instance}
use msys_core.Supervisor.Providers.{
  role_order, is_active, lease_role, release_failed, search_role, search_interface, settle, attempt,
  role_turn, interface_turn, provider_for_role, provider_for_interface,
}
use msys_core.Supervisor.Runtime.{World, Call, Runtime, IsRuntime}
use msys_core.Value.{Value, Fields, str, field, end, put_field}

abbrev to_text : Value → Text
to_text (str t) = t
to_text _ = []

abbrev audio : Text
audio = codes "audio"

abbrev mixer : Text
mixer = codes "shell:mixer"

abbrev beeper : Text
beeper = codes "shell:beeper"

abbrev started : Text → Instance
started id = record {
  component = provider id [];
  generation = 1;
  running = true;
  sock = true;
  ready = true;
  started_at = 0;
  subscriptions = [];
  in_flight_calls = 0;
  idle_task = none;
  finalized = false;
}

abbrev candidate : Text → RoleCandidate
candidate id = record {
  role = audio;
  provider_id = id;
  priority = pos 0;
  exclusive = true;
  profile_rank = none;
  declared = true;
}

abbrev registry : RoleRegistry
registry = record {
  components = [];
  profile_roles = [];
  disabled_roles = [];
  roles =
      (audio, record { candidates = candidate mixer ∷ candidate beeper ∷ []; exclusive = true })
      ∷ [];
  preferred = [];
  leases = [];
  role_leases = (audio, []) ∷ [];
  next_lease_token = 1;
}

abbrev service : Text → ServiceProvider
service id = record {
  kind = codes "interface";
  name = audio;
  component = id;
  priority = pos 0;
  exclusive = false;
}

abbrev world : World (Unit {0})
world = record {
  role_registry = registry;
  service_catalog = ((codes "interface", audio), service mixer ∷ service beeper ∷ []) ∷ [];
  catalog_epoch = 1;
  rest = tt;
}

abbrev start : Text → Option Instance
start key =
    if text_beq key mixer
    then some (started (codes "mixer"))
    else if text_beq key beeper
    then some (started (codes "beeper"))
    else none

abbrev played : Fields
played = field (str (codes "type")) (str (codes "return")) end

-- What the mixer answers is the argument; the beeper plays.
abbrev runtime : Fields → Runtime (Unit {0})
runtime answer = record {
  ensure_ready = λ key w. (start key, w);
  stop_component = λ i w. record w {
    role_registry = (release_provider w.role_registry (component_key i.component)).1;
  };
  is_current = λ i w. true;
  is_running = λ key w. true;
  announce_foreground_closing = λ w. w;
  forward_call =
      λ i call w. (if text_beq i.component.id (codes "mixer") then answer else played, w);
}

no_start :
    {i : Instance} {b : Bool}
    → (if b then some (started (codes "beeper")) else none) ≡ some i
    → b ≡ false
    → ⊥
no_start {b = true} h e = cc
no_start {b = false} h e = cc

abbrev Known : Text → Instance → Type 0
Known key i = (component_key i.component ≡ key) × (elem key (mixer ∷ beeper ∷ []) ≡ true)

some_injective : {i j : Instance} → ◌≡◌ {A = Option Instance} (some i) (some j) → i ≡ j
some_injective h = cc

started_of : (key : Text) (i : Instance) → start key ≡ some i → Known key i
unfolding component_key
started_of key i h = elim (Bool-cases (text_beq key mixer)) [
  | inl m ↦
      subst (λ k. start k ≡ some i → Known k i) (sym ((text_beq_iff key mixer).0 m))
        (λ p. (ap (λ j. component_key j.component) (sym (some_injective p)), refl)) h
  | inr other ↦ elim (Bool-cases (text_beq key beeper)) [
    | inl b ↦
        subst (λ k. start k ≡ some i → Known k i) (sym ((text_beq_iff key beeper).0 b))
          (λ p. (ap (λ j. component_key j.component) (sym (some_injective p)), refl)) h
    | inr neither ↦ absurd (
        no_start
          (subst
            (λ b.
              (if b
                then some (started (codes "mixer"))
                else if text_beq key beeper
                then some (started (codes "beeper"))
                else none)
              ≡ some i)
            other h)
          neither)
  ]
]

abbrev play : Call
play = record { id = pos 5; name = audio; method = codes "play"; idempotent = false }

abbrev gone : Fields
gone =
    field (str (codes "type")) (str (codes "error"))
      (field (str (codes "code")) (str (codes "NO_PROVIDER_SOCKET")) end)

abbrev silent : Fields
silent =
    field (str (codes "type")) (str (codes "error"))
      (field (str (codes "code")) (str (codes "CALL_TIMEOUT")) end)

abbrev sent_to : Option (Dispatched (Unit {0})) → List Text
sent_to none = []
sent_to (some d) = map (λ e. e.0) d.sent

program : Unit {0}
unfolding get put remove get_state candidate_ids list_candidates get_candidate preferred_provider
    resolve_candidate acquire acquire_checks grant chosen_candidate check_conflict active_provider
    active_providers active_leases release_provider release_all release drop_lease lease_beq
    checked_kind is_service_kind providers provider_ids component_key is_error
    expired_before_provider_delivery code_of error_response with_id is_role_noop is_outcome_unknown
    is_final passed_on outcome_unknown no_provider dispatch_loop dispatch_interface_call
    role_provider_is_running dispatch_role_call role_order is_active lease_role release_failed
    search_role search_interface settle attempt role_turn interface_turn provider_for_role
    provider_for_interface put_field
program = tt

-- The beeper is tried if the mixer is gone, and not if it may have played.
attempts :
    (sent_to (dispatch_interface_call to_text (runtime gone) 3 play world) ≡ beeper ∷ mixer ∷ [])
    × (sent_to (dispatch_interface_call to_text (runtime silent) 3 play world) ≡ mixer ∷ [])
    × (sent_to (dispatch_role_call to_text (runtime gone) (λ n. []) 3 play world)
        ≡ beeper ∷ mixer ∷ [])
unfolding program
attempts = (refl, refl, refl)

runtime-IsRuntime : IsRuntime (runtime gone)
runtime-IsRuntime = record { started_key = λ key w i h. (started_of key i h).0 }

dispatch-IsOnce_example :
    IsOnceIfAny to_text
      (play.idempotent || elem play.method retry_safe_methods)
      (dispatch_interface_call to_text (runtime gone) 3 play world)
    × IsOnceIfAny to_text
        (play.idempotent
          || elem play.method retry_safe_methods
          || is_role_noop play.name play.method)
        (dispatch_role_call to_text (runtime gone) (λ n. []) 3 play world)
dispatch-IsOnce_example =
    dispatch-IsOnce to_text (runtime gone) runtime-IsRuntime (λ n. []) 3 play world

dispatch_ends_example :
    ((d : Dispatched (Unit {0})) × (dispatch_interface_call to_text (runtime gone) 3 play world
        ≡ some d))
    × ((d : Dispatched (Unit {0})) × (dispatch_role_call to_text
            (runtime gone)
            (λ n. [])
            3
            play
            world
          ≡ some d))
dispatch_ends_example =
    dispatch_ends to_text (runtime gone) runtime-IsRuntime (mixer ∷ beeper ∷ [])
      (λ key w i h. (started_of key i h).1) (λ n. []) 3 play world (omega arith)
