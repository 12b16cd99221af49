-- ===== src/Acl/Coverage.antt =====
-- What a subscription pattern covers, against the set of topics that it matches.
use native.Mathlib.Omega.{arith}
use msys_core.Common.{
  ℕ, ◌+◌, ◌≤◌, ◌≡◌, refl, inl, inr, Bool, true, false, ◌&&◌, [], ◌∷◌, ◌++◌, length, all, Bool-cases,
  length-append,
}
use msys_core.Common.Text.{
  Text, codes, text_beq, text_beq_iff, starts_with, ends_with, drop_last, starts_with_refl,
  starts_with_trans, starts_with-append,
}
use msys_core.Value.{str}
use msys_core.Acl.{
  star, is_topic_char, is_ascii_alnum, valid_event_topic, valid_subscription, subscription_matches,
  subscription_covers,
}

starts_with_nil : (s : Text) → starts_with s [] ≡ true → text_beq s [] ≡ true
starts_with_nil [] h = refl
starts_with_nil (c ∷ s) h = cc

length-drop_last_star :
    (c : ℕ) (s : Text) → ends_with c s ≡ true → length (drop_last s) + 1 ≡ length s
length-drop_last_star c [] h = cc
length-drop_last_star c (d ∷ []) h = omega arith
length-drop_last_star c (d ∷ e ∷ s) h = omega (arith, length-drop_last_star c (e ∷ s) h)

-- The prefix of a valid `prefix*` is itself a topic, and short enough to be extended.
record IsPrefixOf (p : Text) : Type 0 where
  nonempty : text_beq (drop_last p) [] ≡ false
  topic : valid_event_topic (str (drop_last p)) ≡ true
  room : length (drop_last p) + 1 ≤ 128

IsPrefixOf-valid :
    (p : Text)
    → valid_subscription (str p) ≡ true
    → text_beq p (codes "*") ≡ false
    → ends_with star p ≡ true
    → IsPrefixOf p
unfolding valid_subscription
IsPrefixOf-valid p v ne e = record {
  nonempty = ground arith;
  topic = ground arith;
  room = ground (arith, length-drop_last_star star p);
}

exact_of_valid :
    (p : Text)
    → valid_subscription (str p) ≡ true
    → text_beq p (codes "*") ≡ false
    → ends_with star p ≡ false
    → valid_event_topic (str p) ≡ true
unfolding valid_subscription
exact_of_valid p v ne e = ground arith

-- A covered subscription delivers no topic that the grant does not match.
pub covers_sound :
    (grant requested topic : Text)
    → subscription_covers grant requested ≡ true
    → subscription_matches requested topic ≡ true
    → subscription_matches grant topic ≡ true
unfolding subscription_covers subscription_matches
covers_sound grant requested topic h m = ground (
  arith,
  text_beq_iff grant requested,
  text_beq_iff requested (codes "*"),
  text_beq_iff requested topic,
  starts_with_nil (drop_last grant),
  starts_with_trans (drop_last grant) (drop_last requested) topic,
  IsPrefixOf-valid grant,
)

all-append : (p : ℕ → Bool) (s t : Text) → all p s ≡ true → all p t ≡ true → all p (s ++ t) ≡ true
all-append p [] t h k = k
all-append p (c ∷ s) t h k = ground (arith, all-append p s t)

valid_extended :
    (s : Text)
    → valid_event_topic (str s) ≡ true
    → length s + 1 ≤ 128
    → valid_event_topic (str (s ++ codes "a")) ≡ true
unfolding valid_event_topic is_topic_char is_ascii_alnum
valid_extended [] v h = cc
valid_extended (c ∷ s) v h =
    ground (arith, all-append is_topic_char s (codes "a"), length-append s (codes "a"))

starts_distinct :
    (s : Text)
    → text_beq s [] ≡ false
    → starts_with s (codes "a") ≡ true
    → starts_with s (codes "b") ≡ true
    → ⊥
starts_distinct [] n p q = cc
starts_distinct (c ∷ s) n p q = ground arith

append_longer : (s : Text) → text_beq s (s ++ codes "a") ≡ false
append_longer [] = refl
append_longer (c ∷ s) = ground (arith, append_longer s)

topic_a : valid_event_topic (str (codes "a")) ≡ true
unfolding valid_event_topic is_topic_char is_ascii_alnum
topic_a = refl

topic_b : valid_event_topic (str (codes "b")) ≡ true
unfolding valid_event_topic is_topic_char is_ascii_alnum
topic_b = refl

module _ (grant requested : Text) (valid_grant : valid_subscription (str grant) ≡ true)
    (valid_requested : valid_subscription (str requested) ≡ true)
    (included : (topic : Text)
      → valid_event_topic (str topic) ≡ true
      → subscription_matches requested topic ≡ true
      → subscription_matches grant topic ≡ true) where
  covers_global : text_beq requested (codes "*") ≡ true → subscription_covers grant requested ≡ true
  unfolding subscription_covers subscription_matches
  covers_global e = ground (
    arith,
    included (codes "a") topic_a,
    included (codes "b") topic_b,
    starts_distinct (drop_last grant),
    IsPrefixOf-valid grant valid_grant,
    text_beq_iff grant (codes "a"),
    text_beq_iff grant (codes "b"),
  )

  covers_exact :
      text_beq requested (codes "*") ≡ false
      → ends_with star requested ≡ false
      → subscription_covers grant requested ≡ true
  unfolding subscription_covers subscription_matches
  covers_exact n e = ground (
    arith,
    included requested (exact_of_valid requested valid_requested n e),
    text_beq_iff requested requested,
  )

  covers_prefix :
      text_beq requested (codes "*") ≡ false
      → ends_with star requested ≡ true
      → subscription_covers grant requested ≡ true
  unfolding subscription_covers subscription_matches
  covers_prefix n e =
      let p = IsPrefixOf-valid requested valid_requested n e in
      ground (
        arith,
        included (drop_last requested) p.topic,
        included (drop_last requested ++ codes "a")
            (valid_extended (drop_last requested) p.topic p.room),
        starts_with_refl (drop_last requested),
        starts_with-append (drop_last requested) (codes "a"),
        append_longer (drop_last requested),
        text_beq_iff grant (drop_last requested),
        text_beq_iff (drop_last requested) (drop_last requested ++ codes "a"),
        text_beq_iff grant (drop_last requested ++ codes "a"),
      )

  -- A valid grant covers a valid subscription if every valid topic that the subscription matches
  -- is matched by the grant: with `covers_sound`, the test decides the inclusion of the two sets.
  pub covers_complete : subscription_covers grant requested ≡ true
  covers_complete = elim (Bool-cases (text_beq requested (codes "*"))) [
    | inl e ↦ covers_global e
    | inr n ↦ elim (Bool-cases (ends_with star requested)) [
      | inl e ↦ covers_prefix n e
      | inr e ↦ covers_exact n e
    ]
  ]

-- What is covered is valid on both sides.
pub covers_valid :
    (grant requested : Text)
    → subscription_covers grant requested ≡ true
    → (valid_subscription (str grant) ≡ true) × (valid_subscription (str requested) ≡ true)
unfolding subscription_covers
covers_valid grant requested h = ground arith

all_without_star : (t : Text) → all is_topic_char t ≡ true → ends_with star t ≡ false
unfolding is_topic_char is_ascii_alnum
all_without_star [] h = refl
all_without_star (c ∷ []) h = ground arith
all_without_star (c ∷ d ∷ t) h = all_without_star (d ∷ t) (ground arith)

-- A topic is the exact pattern for itself.
pub topic_as_pattern :
    (t : Text)
    → valid_event_topic (str t) ≡ true
    → (valid_subscription (str t) ≡ true)
      × (ends_with star t ≡ false)
      × (text_beq t (codes "*") ≡ false)
unfolding valid_subscription valid_event_topic
topic_as_pattern t v = ground (arith, all_without_star t, text_beq_iff t (codes "*"))

-- On topics, to cover is to match.
pub covers_topic :
    (grant topic : Text)
    → valid_event_topic (str topic) ≡ true
    → subscription_covers grant topic
      ≡ (valid_subscription (str grant) && subscription_matches grant topic)
unfolding subscription_covers subscription_matches
covers_topic grant topic v = ground (arith, topic_as_pattern topic v)
