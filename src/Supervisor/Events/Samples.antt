-- ===== src/Supervisor/Events/Samples.antt =====
-- Components that subscribe and publish, and the theorems at them.
use msys_core.Common.{◌≡◌, refl, true, false, Option, none, some, [], ◌∷◌, ◌&&◌, elem, arith}
use msys_core.Common.Int.{pos}
use msys_core.Common.Result.{ok}
use msys_core.Common.Text.{Text, codes, text_eq}
use msys_core.Common.Dict.{get}
use msys_core.Acl.{
  is_ascii_alnum, is_topic_char, permission_set, valid_event_topic, valid_subscription,
  subscription_matches, subscription_covers, grants_event, allows_event, event_permission,
  subscribe,
}
use msys_core.Manifest.Example.{provider}
use msys_core.Manifest.Types.{Component}
use msys_core.Supervisor.Errors.{optional_request_id}
use msys_core.Supervisor.Events.{
  subscribed, handle_subscribe, too_many, is_listening, listeners, broadcast, raised, published,
  with_field, annotated, handle_event, package_changed,
}
use msys_core.Supervisor.Events.Subscriptions.{
  IsSubscribed, subscribe_all, subscribe_all-IsSubscribed,
}
use msys_core.Supervisor.Events.Delivery.{listens, elem-broadcast, broadcast-permitted}
use msys_core.Supervisor.Instances.{Instance, Instances}
use msys_core.Supervisor.Policies.{permissions_of}
use msys_core.Value.{Value, Fields, str, int, dict, field, end, truth, put_field}

program : Unit {0}
unfolding get is_ascii_alnum is_topic_char valid_event_topic valid_subscription permission_set
    subscription_matches subscription_covers grants_event allows_event event_permission
    optional_request_id handle_subscribe too_many is_listening listeners broadcast put_field
    with_field annotated handle_event truth
program = tt

abbrev to_text : Value → Text
to_text (str t) = t
to_text _ = []

-- `dict` of a dict; other values raise here.
abbrev to_dict : Value → Option Fields
to_dict (dict fields) = some fields
to_dict _ = none

abbrev hal_changed : Text
hal_changed = codes "msys.hal.changed"

abbrev watcher : Instance
watcher = record {
  component = record (provider (codes "watch") []) {
    permissions = codes "mipc.event:subscribe:msys.hal.*" ∷ [];
  };
  generation = 1;
  running = true;
  sock = true;
  ready = true;
  started_at = 0;
  subscriptions = [];
  in_flight_calls = 0;
  idle_task = none;
  finalized = false;
}

abbrev watch_hal : Fields
watch_hal =
    field (str (codes "topic")) (str (codes "msys.hal.*"))
      (field (str (codes "id")) (int (pos 4)) end)

abbrev watch_all : Fields
watch_all = field (str (codes "topic")) (str (codes "*")) end

abbrev watching : Instance
watching = subscribe_all to_text (watch_hal ∷ watch_all ∷ watch_hal ∷ []) watcher

abbrev instances : Instances
instances = (codes "watch", watching) ∷ (codes "other", watcher) ∷ []

deliveries :
    (watching.subscriptions ≡ codes "msys.hal.*" ∷ [])
    × ((handle_subscribe to_text watcher watch_hal).0
        ≡ some (subscribed (pos 4) (codes "msys.hal.*")))
    × (broadcast hal_changed instances ≡ codes "watch" ∷ [])
    × (broadcast (codes "msys.install.done") instances ≡ [])
unfolding program
deliveries = (refl, refl, refl, refl)

-- A component that may say that packages changed.
abbrev installer : Component
installer = record (provider (codes "installer") []) {
  permissions = codes "mipc.event:publish:msys.install.*" ∷ [];
}

abbrev changed : Value → Fields
changed payload =
    field (str (codes "topic")) (str package_changed) (field (str (codes "payload")) payload end)

-- With a string for a payload, the annotation of the reload raises.
annotations :
    (handle_event to_text to_dict (ok (str (codes "2"))) installer (changed (dict end))
      ≡ published package_changed
          (dict (field (str (codes "registry_changes")) (str (codes "2")) end)))
    × (handle_event to_text to_dict (ok (str (codes "2"))) installer (changed (str (codes "all")))
        ≡ raised)
unfolding program
annotations = (refl, refl)

watcher-IsSubscribed : IsSubscribed watcher
watcher-IsSubscribed = record { few = omega arith; once = tt; granted = λ pattern e. cc }

subscribe_all-IsSubscribed_example : IsSubscribed watching
subscribe_all-IsSubscribed_example =
    subscribe_all-IsSubscribed to_text (watch_hal ∷ watch_all ∷ watch_hal ∷ []) watcher
      watcher-IsSubscribed

elem-broadcast_example :
    elem (codes "watch") (broadcast hal_changed instances)
    ≡ (valid_event_topic (str hal_changed) && listens hal_changed (codes "watch") instances)
elem-broadcast_example = elem-broadcast hal_changed (codes "watch") instances (refl, (refl, tt))

broadcast-permitted_example :
    (i : Instance) × (get (codes "watch") instances ≡ some i)
    × (i.ready ≡ true)
    × (i.sock ≡ true)
    × (allows_event (permissions_of i.component) subscribe hal_changed ≡ true)
unfolding program
broadcast-permitted_example =
    broadcast-permitted hal_changed (codes "watch") instances (refl, (refl, tt))
      (
        subscribe_all-IsSubscribed to_text (watch_hal ∷ watch_all ∷ watch_hal ∷ []) watcher
            watcher-IsSubscribed,
        (watcher-IsSubscribed, tt),
      )
      refl
