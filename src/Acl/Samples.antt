-- ===== src/Acl/Samples.antt =====
-- The examples of the tests in tests/test_mipc_acl.py, and inputs for the theorems.
use msys_core.Common.{◌≡◌, refl, ◌⊎◌, ◌↔◌, true, false, List, [], ◌∷◌}
use msys_core.Common.Text.{Text, codes}
use msys_core.Value.{Value, str, null}
use msys_core.Acl.{
  valid_event_topic, valid_subscription, subscription_matches, subscription_covers, allows_call,
  allows_event, publish, subscribe, is_ascii_alnum, is_topic_char, permission_set,
  call_permission_candidates,
}
use msys_core.Acl.Coverage.{covers_sound, covers_complete}
use msys_core.Acl.Events.{Granting, allows_event_iff}
use msys_core.Acl.Calls.{call_permission, Granted, Interface, allows_call_iff}
use msys_core.Acl.Events.{Contains}

program : Unit {0}
unfolding is_ascii_alnum is_topic_char valid_event_topic valid_subscription subscription_matches
    subscription_covers permission_set call_permission_candidates allows_call allows_event
program = tt

abbrev hal : Text
hal = codes "msys.hal.*"

abbrev hal_changed : Text
hal_changed = codes "msys.hal.changed"

abbrev subscriber : List Value
subscriber = null ∷ str (codes "mipc.event:subscribe:msys.hal.*") ∷ []

abbrev caller : List Value
caller = str (codes "mipc.call:org.example.inventory.v1") ∷ []

covers_prefix_of_exact :
    (subscription_covers hal hal_changed ≡ true)
    × (subscription_covers hal_changed hal ≡ false)
    × (subscription_matches hal (codes "msys.hal.") ≡ true)
    × (valid_subscription (str (codes "a*b")) ≡ false)
unfolding program
covers_prefix_of_exact = (refl, refl, refl, refl)

calls :
    (allows_call caller (codes "interface:org.example.inventory.v1") (codes "list") ≡ true)
    × (allows_call caller (codes "interface:org.example.inventory.v2") (codes "list") ≡ false)
    × (allows_call
          (str (codes "mipc.call:msys.core.discover") ∷ [])
          (codes "msys.core")
          (codes "start")
        ≡ false)
unfolding program
calls = (refl, refl, refl)

covers_sound_example : subscription_matches (codes "*") hal_changed ≡ true
unfolding program
covers_sound_example = covers_sound (codes "*") hal hal_changed refl refl

covers_complete_example : subscription_covers (codes "msys.*") hal ≡ true
unfolding program
covers_complete_example =
    covers_complete (codes "msys.*") hal refl refl
      (λ topic _ m. covers_sound (codes "msys.*") hal topic refl m)

allows_event_iff_example : (allows_event subscriber subscribe hal ≡ true) ↔ (
    ((subscribe ≡ publish) × (valid_event_topic (str hal) ≡ true) ⊎ (subscribe ≡ subscribe))
    × Granting subscriber subscribe hal)
allows_event_iff_example = allows_event_iff subscriber subscribe hal

allows_call_iff_example : (allows_call caller (codes "role:launcher") (codes "open") ≡ true) ↔ (
    Contains (str (call_permission (codes "*"))) caller
    ⊎ (Granted caller (codes "role:launcher") (codes "open")
        ⊎ Interface caller (codes "role:launcher") (codes "open")))
allows_call_iff_example = allows_call_iff caller (codes "role:launcher") (codes "open")
