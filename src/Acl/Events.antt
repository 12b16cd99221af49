-- ===== src/Acl/Events.antt =====
-- Event grants: which publish and subscribe requests a list of permissions authorises.
use native.Mathlib.Omega.{arith}
use mathlib.Core.List.{append_assoc}
use msys_core.Common.{
  ◌≡◌, refl, sym, ap, ◌∙◌, ◌⊎◌, ◌↔◌, inl, inr, true, List, [], ◌∷◌, ◌++◌, any, Bool-cases,
}
use msys_core.Common.Text.{
  Text, text_beq_iff, drop_length, append-drop_length, drop_length-append, starts_with-append,
}
use msys_core.Value.{Value, str}
use msys_core.Acl.{
  valid_event_topic, subscription_matches, subscription_covers, publish, subscribe, event_prefix,
  permission_set, grants_event, allows_event, event_permission,
}
use msys_core.Acl.Coverage.{covers_sound, covers_topic, covers_valid}

-- `x` is one of `xs`, with its place.
abbrev pub Contains : Value → List Value → Type 0
Contains x [] = ⊥
Contains x (y ∷ ys) = (y ≡ x) ⊎ Contains x ys

-- A permission that the manifest declares and that covers the request.
abbrev pub Granting : List Value → Text → Text → Type 0
Granting ps action requested =
    (grant : Text) × Contains (str (event_permission action grant)) ps
    × (subscription_covers grant requested ≡ true)

event_prefix_append :
    (action grant : Text) → event_prefix action ++ grant ≡ event_permission action grant
unfolding event_permission
event_prefix_append action grant = simp append_assoc

permission_of_grant :
    (action requested permission : Text)
    → grants_event action requested permission ≡ true
    → (grant : Text) × (permission ≡ event_permission action grant)
      × (subscription_covers grant requested ≡ true)
unfolding grants_event
permission_of_grant action requested permission h =
    let split = append-drop_length (event_prefix action) permission (ground arith) in
    (
      drop_length (event_prefix action) permission,
      sym split ∙ event_prefix_append action (drop_length (event_prefix action) permission),
      ground arith,
    )

grant_of_permission :
    (action requested grant : Text)
    → subscription_covers grant requested ≡ true
    → grants_event action requested (event_permission action grant) ≡ true
unfolding grants_event
grant_of_permission action requested grant h =
    rw (← event_prefix_append action grant, starts_with-append, drop_length-append) h

-- The loop over the permissions finds a grant exactly when one of them grants.
Granting-of_any :
    (ps : List Value) (action requested : Text)
    → any (grants_event action requested) (permission_set ps) ≡ true
    → Granting ps action requested
unfolding permission_set
Granting-of_any [] action requested h = cc
Granting-of_any (str t ∷ ps) action requested h =
    elim (Bool-cases (grants_event action requested t)) [
      | inl e ↦
          let (grant, name, covers) = permission_of_grant action requested t e in
          (grant, inl (ap str name), covers)
      | inr e ↦
          let (grant, place, covers) = Granting-of_any ps action requested (ground arith) in
          (grant, inr place, covers)
    ]
Granting-of_any (_ ∷ ps) action requested h =
    let (grant, place, covers) = Granting-of_any ps action requested h in (grant, inr place, covers)

any_of_Granting :
    (ps : List Value) (action requested grant : Text)
    → Contains (str (event_permission action grant)) ps
    → subscription_covers grant requested ≡ true
    → any (grants_event action requested) (permission_set ps) ≡ true
unfolding permission_set
any_of_Granting [] action requested grant place covers = absurd place
any_of_Granting (p ∷ ps) action requested grant (inl e) covers =
    rw (e, permission_set, grant_of_permission action requested grant covers) refl
any_of_Granting (str t ∷ ps) action requested grant (inr place) covers =
    ground (arith, any_of_Granting ps action requested grant place covers)
any_of_Granting (_ ∷ ps) action requested grant (inr place) covers =
    any_of_Granting ps action requested grant place covers

-- An event request is authorised exactly when it publishes a valid topic, or subscribes, and the
-- permissions hold `mipc.event:<action>:<grant>` for a grant that covers the request.
pub allows_event_iff :
    (ps : List Value) (action requested : Text)
    → (allows_event ps action requested ≡ true) ↔ (
        ((action ≡ publish) × (valid_event_topic (str requested) ≡ true) ⊎ (action ≡ subscribe))
        × Granting ps action requested)
unfolding allows_event
allows_event_iff ps action requested = (
  λ h. (
    ground (arith, text_beq_iff action publish, text_beq_iff action subscribe),
    Granting-of_any ps action requested (ground arith),
  ),
  λ (kind, (grant, place, covers)).
      let found = any_of_Granting ps action requested grant place covers in
      let (_, valid) = covers_valid grant requested covers in
      ground (arith, text_beq_iff action publish, text_beq_iff action subscribe),
)

-- A subscription gives no more than its topics: who may subscribe to a pattern may subscribe to
-- each valid topic that the pattern matches.
pub subscribe_topic_of_pattern :
    (ps : List Value) (pattern topic : Text)
    → allows_event ps subscribe pattern ≡ true
    → valid_event_topic (str topic) ≡ true
    → subscription_matches pattern topic ≡ true
    → allows_event ps subscribe topic ≡ true
subscribe_topic_of_pattern ps pattern topic h valid m =
    let (_, (grant, place, covers)) = (allows_event_iff ps subscribe pattern).0 h in
    let sound = covers_sound grant pattern topic covers m in
    let (valid_grant, _) = covers_valid grant pattern covers in
    (allows_event_iff ps subscribe topic).1
      (inr refl, (grant, place, rw (covers_topic grant topic valid, valid_grant) sound))
