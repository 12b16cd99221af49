-- ===== src/Supervisor/Events/Delivery.antt =====
-- Who is sent an event.
use msys_core.Common.{
  ◌≡◌, refl, subst, Bool, true, false, ◌&&◌, Option, none, some, List, [], ◌∷◌, All, any, elem,
  if◌then◌else◌, ◌==◌, arith, IsNodup, Bool-cases, Option-cases, inl, inr,
}
use msys_core.Common.Text.{Text, text_eq, text_beq_iff}
use msys_core.Common.Dict.{get, keys, has-elem-keys}
use msys_core.Acl.{valid_event_topic, allows_event, subscribe, subscription_matches}
use msys_core.Acl.Events.{subscribe_topic_of_pattern}
use msys_core.Supervisor.Events.{is_listening, listeners, broadcast}
use msys_core.Supervisor.Events.Subscriptions.{IsSubscribed}
use msys_core.Supervisor.Instances.{Instance, Instances}
use msys_core.Supervisor.Policies.{permissions_of}
use msys_core.Value.{str}

-- The key has an instance that listens to the topic.
abbrev pub listens : Text → Text → Instances → Bool
listens topic key instances = elim (get key instances) [
  | none ↦ false
  | some i ↦ is_listening topic i
]

elem-listeners :
    (topic key : Text) (instances : Instances)
    → IsNodup (keys instances)
    → elem key (listeners topic instances) ≡ listens topic key instances
unfolding listeners get
elem-listeners topic key [] n = refl
elem-listeners topic key ((k, i) ∷ instances) n =
    ground
      (arith, elem-listeners topic key instances n.1, text_beq_iff k key, has-elem-keys k instances)

-- An event is sent to exactly the instances that listen to its topic, if that is valid, and else to
-- none.
pub elem-broadcast :
    (topic key : Text) (instances : Instances)
    → IsNodup (keys instances)
    → elem key (broadcast topic instances)
      ≡ (valid_event_topic (str topic) && listens topic key instances)
unfolding broadcast
elem-broadcast topic key instances n = ground (arith, elem-listeners topic key instances n)

matched :
    (topic : Text) (patterns : List Text)
    → any (λ pattern. subscription_matches pattern topic) patterns ≡ true
    → (pattern : Text) × (elem pattern patterns ≡ true)
      × (subscription_matches pattern topic ≡ true)
matched topic [] h = cc
matched topic (p ∷ patterns) h = elim (Bool-cases (subscription_matches p topic)) [
  | inl m ↦ (p, ground (arith, text_beq_iff p p), m)
  | inr n ↦ let (q, e, m) = matched topic patterns (ground arith) in (q, ground arith, m)
]

some_injective : {i j : Instance} → ◌≡◌ {A = Option Instance} (some i) (some j) → i ≡ j
some_injective h = cc

All-get :
    (P : Instance → Type 0) (key : Text) (instances : Instances) (i : Instance)
    → All (λ e. P e.1) instances
    → get key instances ≡ some i
    → P i
unfolding get
All-get P key [] i h e = cc
All-get P key ((k, j) ∷ instances) i h e = elim (Bool-cases (k == key)) [
  | inl same ↦
      subst P
        (some_injective (subst (λ b. (if b then some j else get key instances) ≡ some i) same e))
        h.0
  | inr other ↦
      All-get P key instances i h.1
        (subst (λ b. (if b then some j else get key instances) ≡ some i) other e)
]

-- Where every instance holds permitted subscriptions only, whoever is sent an event is ready, has a
-- channel, and may by its manifest subscribe to that topic.
pub broadcast-permitted :
    (topic key : Text) (instances : Instances)
    → IsNodup (keys instances)
    → All (λ e. IsSubscribed e.1) instances
    → elem key (broadcast topic instances) ≡ true
    → (i : Instance) × (get key instances ≡ some i)
      × (i.ready ≡ true)
      × (i.sock ≡ true)
      × (allows_event (permissions_of i.component) subscribe topic ≡ true)
unfolding is_listening
broadcast-permitted topic key instances n h sent =
    let exact = elem-broadcast topic key instances n in
    elim (Option-cases (get key instances)) [
      | inl none_there ↦ absurd (ground arith)
      | inr (i, e) ↦
          let listening : is_listening topic i ≡ true = ground arith in
          let (pattern, held, matches) = matched topic i.subscriptions (ground arith) in
          (
            i,
            e,
            ground arith,
            ground arith,
            subscribe_topic_of_pattern (permissions_of i.component) pattern topic
                ((All-get IsSubscribed key instances i h e).granted pattern held) (ground arith)
                matches,
          )
    ]
