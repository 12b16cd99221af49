-- ===== src/Acl.antt =====
-- msys_core/mipc_acl.py: which calls and events the manifest of a component permits.
pub mod Coverage
pub mod Events
pub mod Calls
mod Samples
use msys_core.Common.{
  distinct, ℕ, ◌+◌, ◌≡◌, Bool, true, false, not, ◌&&◌, ◌||◌, Option, none, some, List, [], ◌∷◌,
  ◌++◌, map, ◌⊎◌, leb, if◌then◌else◌, ◌==◌, length, any, all, elem, remove_all, nat_beq,
}
use msys_core.Common.Text.{
  Text, codes, text_beq, text_eq, starts_with, ends_with, drop_last, drop_length,
}
use msys_core.Value.{Value, str, is_str}

abbrev pub max_topic_length : ℕ
max_topic_length = 128

-- `character.isascii() and character.isalnum()`
unfoldable pub is_ascii_alnum : ℕ → Bool
is_ascii_alnum c = leb b'0' c && leb c b'9' || leb b'A' c && leb c b'Z' || leb b'a' c && leb c b'z'

-- `character.isascii() and (character.isalnum() or character in "._:-")`
unfoldable pub is_topic_char : ℕ → Bool
is_topic_char c =
    is_ascii_alnum c || nat_beq c b'.' || nat_beq c b'_' || nat_beq c b':' || nat_beq c b'-'

unfoldable pub has_topic_length : Text → Bool
has_topic_length t = leb 1 (length t) && leb (length t) max_topic_length

unfoldable pub starts_alnum : Text → Bool
starts_alnum [] = false
starts_alnum (c ∷ t) = is_ascii_alnum c

unfoldable pub valid_event_topic : Value → Bool
unfolding has_topic_length starts_alnum
valid_event_topic (str topic) =
    if not (has_topic_length topic)
    then false
    else if not (starts_alnum topic)
    then false
    else all is_topic_char topic
valid_event_topic _ = false

abbrev pub star : ℕ
star = b'*'

unfoldable pub valid_subscription : Value → Bool
unfolding has_topic_length
valid_subscription (str pattern) =
    if text_beq pattern (codes "*")
    then true
    else if not (has_topic_length pattern)
    then false
    else if ends_with star pattern
    then not (text_beq (drop_last pattern) []) && valid_event_topic (str (drop_last pattern))
    else valid_event_topic (str pattern)
valid_subscription _ = false

unfoldable pub subscription_matches : Text → Text → Bool
subscription_matches pattern topic =
    if text_beq pattern (codes "*")
    then true
    else if ends_with star pattern
    then starts_with (drop_last pattern) topic
    else text_beq pattern topic

unfoldable pub subscription_covers : Text → Text → Bool
subscription_covers grant requested =
    if not (valid_subscription (str grant)) || not (valid_subscription (str requested))
    then false
    else if text_beq grant (codes "*")
    then true
    else if not (ends_with star grant)
    then text_beq grant requested
    else starts_with (drop_last grant)
        (if ends_with star requested then drop_last requested else requested)

-- The strings among the declared permissions; only membership in the set is used.
unfoldable pub permission_set : List Value → List Text
permission_set [] = []
permission_set (str t ∷ ps) = t ∷ permission_set ps
permission_set (p ∷ ps) = permission_set ps

-- `target.split(":", 1)[1]`
unfoldable pub after_colon : Text → Text
after_colon [] = []
after_colon (c ∷ t) = if nat_beq c b':' then t else after_colon t

-- One resource with its method-narrowed form before it.
unfoldable pub narrowed : Text → Text → List Text
narrowed resource method =
    if not (text_beq method [])
    then (resource ++ (b'.' ∷ method)) ∷ resource ∷ []
    else resource ∷ []

unfoldable pub interface_resources : Text → Text → List Text
unfolding narrowed after_colon
interface_resources target method =
    if starts_with (codes "interface:") target
    then if not (text_beq (after_colon target) []) then narrowed (after_colon target) method else []
    else []

unfoldable pub call_permission_candidates : Text → Text → List Text
unfolding narrowed interface_resources
call_permission_candidates target method =
    map (λ resource. codes "mipc.call:" ++ resource)
      (distinct (narrowed target method ++ interface_resources target method))

unfoldable pub allows_call : List Value → Text → Text → Bool
unfolding permission_set call_permission_candidates
allows_call permissions target method =
    let declared = permission_set permissions in
    if elem (codes "mipc.call:*") declared
    then true
    else any (λ permission. elem permission declared) (call_permission_candidates target method)

unfoldable pub event_permission : Text → Text → Text
event_permission action pattern = codes "mipc.event:" ++ (action ++ (b':' ∷ pattern))

abbrev pub publish : Text
publish = codes "publish"

abbrev pub subscribe : Text
subscribe = codes "subscribe"

-- `f"mipc.event:{action}:"`
abbrev pub event_prefix : Text → Text
event_prefix action = codes "mipc.event:" ++ (action ++ (b':' ∷ []))

-- One turn of the loop over the permissions.
unfoldable pub grants_event : Text → Text → Text → Bool
grants_event action requested permission =
    if not (starts_with (event_prefix action) permission)
    then false
    else subscription_covers (drop_length (event_prefix action) permission) requested

unfoldable pub allows_event : List Value → Text → Text → Bool
unfolding permission_set grants_event
allows_event permissions action requested =
    if not (text_beq action publish || text_beq action subscribe)
    then false
    else if text_beq action publish && not (valid_event_topic (str requested))
    then false
    else if text_beq action subscribe && not (valid_subscription (str requested))
    then false
    else any (grants_event action requested) (permission_set permissions)
