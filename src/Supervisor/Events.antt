-- ===== src/Supervisor/Events.antt =====
-- The events of components: who subscribes to what, and who is sent what.
pub mod Subscriptions
pub mod Delivery
mod Samples
use msys_core.Common.{
  ℕ, zero, suc, Bool, true, false, not, ◌&&◌, ◌||◌, Option, none, some, List, [], ◌∷◌, any, elem,
  length, leb, if◌then◌else◌,
}
use msys_core.Common.Int.{ℤ}
use msys_core.Common.Result.{Result, ok, err}
use msys_core.Common.Text.{Text, codes, text_beq, text_eq}
use msys_core.Acl.{
  valid_subscription, valid_event_topic, allows_event, event_permission, subscription_matches,
  subscribe, publish, max_topic_length,
}
use msys_core.Supervisor.Errors.{
  ComponentError, component_error, access_denied, optional_request_id,
}
use msys_core.Supervisor.Instances.{Instance, Instances}
use msys_core.Manifest.Types.{Component}
use msys_core.Supervisor.Foreground.{add}
use msys_core.Supervisor.Policies.{permissions_of}
use msys_core.Value.{
  Value, Fields, str, dict, bool, field, end, get_or, get_field, truth, put_field,
}

abbrev pub max_subscriptions : ℕ
max_subscriptions = 128

-- `t[:n]`
abbrev pub take : {A : Type 0} → ℕ → List A → List A
take zero xs = []
take (suc n) [] = []
take (suc n) (x ∷ xs) = x ∷ take n xs

-- A topic that is known to be a string.
abbrev pub topic_text : Value → Text
topic_text (str t) = t
topic_text _ = []

pub data SubscribeResponse : Type 0 where
  rejected : ComponentError → SubscribeResponse
  subscribed : ℤ → Text → SubscribeResponse

pub too_many : Text → List Text → Bool
too_many topic subscriptions =
    not (elem topic subscriptions) && leb max_subscriptions (length subscriptions)

-- What is sent back to the component, if anything, and the instance after it.
pub handle_subscribe : (Value → Text) → Instance → Fields → Option SubscribeResponse × Instance
unfolding too_many
handle_subscribe to_text i message =
    let topic = get_or (codes "topic") (str []) message in
    let pattern = topic_text topic in
    if not (valid_subscription topic)
    then (
      some (
          rejected (
            component_error i.component message (codes "BAD_SUBSCRIPTION") subscribe
              (take max_topic_length (to_text topic)) none)),
      i,
    )
    else if not (allows_event (permissions_of i.component) subscribe pattern)
    then (
      some (
          rejected (
            access_denied i.component message subscribe pattern
              (event_permission subscribe pattern))),
      i,
    )
    else if too_many pattern i.subscriptions
    then (
      some (
          rejected (
            component_error i.component message (codes "SUBSCRIPTION_LIMIT") subscribe pattern
              none)),
      i,
    )
    else (
      elim (optional_request_id message) [
        | none ↦ none
        | some request_id ↦ some (subscribed request_id pattern)
      ],
      record i { subscriptions = add pattern i.subscriptions },
    )

-- The instance is sent events of the topic.
pub is_listening : Text → Instance → Bool
is_listening topic i =
    any (λ pattern. subscription_matches pattern topic) i.subscriptions && i.sock && i.ready

pub listeners : Text → Instances → List Text
unfolding is_listening
listeners topic [] = []
listeners topic ((key, i) ∷ instances) =
    let others = listeners topic instances in if is_listening topic i then key ∷ others else others

-- The keys of the instances that the event is sent to, in order. A send that fails is passed over.
pub broadcast : Text → Instances → List Text
unfolding listeners
broadcast topic instances =
    if not (valid_event_topic (str topic)) then [] else listeners topic instances

-- `payload.get("registry_reloaded") is True`, of a dict.
abbrev pub is_already_reloaded : Value → Bool
is_already_reloaded (dict fs) = elim (get_field (codes "registry_reloaded") fs) [
  | some (bool b) ↦ b
  | some _ ↦ false
  | none ↦ false
]
is_already_reloaded _ = false

abbrev pub package_changed : Text
package_changed = codes "msys.install.package_changed"

-- What comes of an event: an error for the component, a broadcast, or an exception.
pub data Publication : Type 0 where
  refused : ComponentError → Publication
  published : Text → Value → Publication
  raised : Publication

-- `{**dict(payload or {}), name: value}`; a new field stands last.
pub with_field : (Value → Option Fields) → Text → Value → Value → Option Value
with_field to_dict name value payload = elim (if truth payload then to_dict payload else some end) [
  | none ↦ none
  | some fields ↦ some (dict (put_field name value fields))
]

-- The payload after a reload of the registry, which returned changes or raised an error.
pub annotated : (Value → Option Fields) → Result Value Value → Value → Option Value
unfolding with_field
annotated to_dict (err error) payload = with_field to_dict (codes "registry_error") error payload
annotated to_dict (ok changes) payload =
    elim (with_field to_dict (codes "registry_changes") changes payload) [
      | some with_changes ↦ some with_changes
      -- the exception of `dict` is caught, and then raised again by the second `dict`
      | none ↦ none
    ]

-- `reloaded` is what `reload_installed_components` returns, or the fields of its error.
pub handle_event :
    (Value → Text) → (Value → Option Fields) → Result Value Value → Component → Fields → Publication
unfolding annotated
handle_event to_text to_dict reloaded c message =
    let topic = get_or (codes "topic") (str []) message in
    let name = topic_text topic in
    let payload = get_or (codes "payload") (dict end) message in
    if not (valid_event_topic topic)
    then refused (
        component_error c message (codes "BAD_EVENT_TOPIC") publish
          (take max_topic_length (to_text topic)) none)
    else if not (allows_event (permissions_of c) publish name)
    then refused (access_denied c message publish name (event_permission publish name))
    else if text_beq name package_changed && not (is_already_reloaded payload)
    then elim (annotated to_dict reloaded payload) [
      | none ↦ raised
      | some new_payload ↦ published name new_payload
    ]
    else published name payload
