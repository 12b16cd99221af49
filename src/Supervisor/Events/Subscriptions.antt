-- ===== src/Supervisor/Events/Subscriptions.antt =====
-- What a component may subscribe to, over its lifetime.
use msys_core.Common.{
  ◌≤◌, ◌≡◌, true, false, List, [], ◌∷◌, elem, length, arith, IsNodup, Bool-cases, inl, inr,
}
use msys_core.Common.Text.{Text, codes, text_eq, text_beq_iff}
use msys_core.Acl.{valid_subscription, allows_event, subscribe}
use msys_core.Supervisor.Events.{max_subscriptions, topic_text, too_many, handle_subscribe}
use msys_core.Supervisor.Foreground.{add}
use msys_core.Supervisor.Instances.{Instance}
use msys_core.Supervisor.Policies.{permissions_of}
use msys_core.Value.{Value, Fields, str, get_or}

-- At most 128 subscriptions, none twice, each valid and permitted by the manifest.
pub record IsSubscribed (i : Instance) : Type 0 where
  pub few : length i.subscriptions ≤ max_subscriptions
  pub once : IsNodup i.subscriptions
  pub granted :
      (pattern : Text)
      → elem pattern i.subscriptions ≡ true
      → allows_event (permissions_of i.component) subscribe pattern ≡ true

abbrev pub subscribe_all : (Value → Text) → List Fields → Instance → Instance
subscribe_all to_text [] i = i
subscribe_all to_text (message ∷ messages) i =
    subscribe_all to_text messages (handle_subscribe to_text i message).1

add-IsSubscribed :
    (pattern : Text) (i : Instance)
    → IsSubscribed i
    → allows_event (permissions_of i.component) subscribe pattern ≡ true
    → too_many pattern i.subscriptions ≡ false
    → IsSubscribed (record i { subscriptions = add pattern i.subscriptions })
unfolding too_many
add-IsSubscribed pattern i h allowed room = record {
  few = ground (arith, h.few);
  once = ground (arith, h.once);
  granted = λ p e. ground (arith, h.granted p, text_beq_iff pattern p);
}

subscribe-IsSubscribed :
    (to_text : Value → Text) (i : Instance) (message : Fields)
    → IsSubscribed i
    → IsSubscribed (handle_subscribe to_text i message).1
unfolding handle_subscribe
subscribe-IsSubscribed to_text i message h =
    let topic = get_or (codes "topic") (str []) message in
    let pattern = topic_text topic in
    elim (Bool-cases (valid_subscription topic)) [
      | inr bad ↦ rw (bad) h
      | inl valid ↦
          elim (Bool-cases (allows_event (permissions_of i.component) subscribe pattern)) [
            | inr denied ↦ rw (valid, denied) h
            | inl allowed ↦ elim (Bool-cases (too_many pattern i.subscriptions)) [
              | inl full ↦ rw (valid, allowed, full) h
              | inr room ↦ rw (valid, allowed, room) (add-IsSubscribed pattern i h allowed room)
            ]
          ]
    ]

-- Whatever frames a component sends, it holds at most 128 subscriptions, none twice, and only such
-- as its manifest permits, if that was so at first.
pub subscribe_all-IsSubscribed :
    (to_text : Value → Text) (messages : List Fields) (i : Instance)
    → IsSubscribed i
    → IsSubscribed (subscribe_all to_text messages i)
subscribe_all-IsSubscribed to_text [] i h = h
subscribe_all-IsSubscribed to_text (message ∷ messages) i h =
    subscribe_all-IsSubscribed to_text messages (handle_subscribe to_text i message).1
      (subscribe-IsSubscribed to_text i message h)
