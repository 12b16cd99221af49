-- ===== src/Presentation/Chains.antt =====
-- The locales that are tried for a message, and the message that is found.
use msys_core.Common.{
  ℕ, zero, suc, ◌≡◌, refl, ap, true, false, not, ◌||◌, Option, none, some, List, [], ◌∷◌, ◌++◌,
  length, elem, all, nat_eq, arith, if◌then◌else◌, IsNodup, head?, elem-append, inl, inr, ◌⊎◌,
  is_some, Option-cases, Bool-cases,
}
use msys_core.Common.Text.{Text, text_eq, text_beq, text_beq_iff}
use msys_core.Common.Dict.{Dict, get}
use msys_core.Presentation.Locales.{
  parent, climb, or_default, chain_from, locale_chain, message, first_message,
}
use msys_core.Presentation.Parents.{is_ancestor, elem-climb}

append_new-IsNodup :
    (l : Text) (result : List Text)
    → IsNodup result
    → IsNodup (if elem l result then result else result ++ (l ∷ []))
append_new-IsNodup l result h = elim (Bool-cases (elem l result)) [
  | inl old ↦ rw (old) h
  | inr new ↦ rw (new) (appended result h new)
]
  where
    appended : (xs : List Text) → IsNodup xs → elem l xs ≡ false → IsNodup (xs ++ (l ∷ []))
    appended [] n e = (refl, tt)
    appended (x ∷ xs) n e =
        ground
          (arith, elem-append x xs (l ∷ []), appended xs n.1, text_beq_iff l x, text_beq_iff x l)

climb-IsNodup :
    (fuel : ℕ) (current : Text) (result : List Text)
    → IsNodup result
    → IsNodup (climb fuel current result)
unfolding climb
climb-IsNodup zero current result h = h
climb-IsNodup (suc fuel) [] result h = h
climb-IsNodup (suc fuel) (c ∷ t) result h =
    climb-IsNodup fuel (parent (c ∷ t)) _ (append_new-IsNodup (c ∷ t) result h)

head-climb :
    (fuel : ℕ) (current x : Text) (result : List Text)
    → head? (climb fuel current (x ∷ result)) ≡ some x
unfolding climb
head-climb zero current x result = refl
head-climb (suc fuel) [] x result = refl
head-climb (suc fuel) (c ∷ t) x result = elim (Bool-cases (elem (c ∷ t) (x ∷ result))) [
  | inl old ↦ rw (old, climb) (head-climb fuel (parent (c ∷ t)) x result)
  | inr new ↦ rw (new, climb) (head-climb fuel (parent (c ∷ t)) x (result ++ ((c ∷ t) ∷ [])))
]

head-append : (x : Text) (xs ys : List Text) → head? xs ≡ some x → head? (xs ++ ys) ≡ some x
head-append x [] ys h = cc
head-append x (y ∷ xs) ys h = h

head-chain_from :
    (current default_locale : Text)
    → (current ≡ [] → default_locale ≡ [])
    → head? (chain_from current default_locale) ≡ some current
unfolding chain_from climb
head-chain_from [] default_locale h = ap some (h refl)
head-chain_from (c ∷ t) default_locale h =
    let first = head-climb (length t) (parent (c ∷ t)) (c ∷ t) [] in
    elim (Bool-cases (elem default_locale (climb (length t) (parent (c ∷ t)) ((c ∷ t) ∷ [])))) [
      | inl old ↦ rw (old) first
      | inr new ↦ rw (new) (
          head-append (c ∷ t) (climb (length t) (parent (c ∷ t)) ((c ∷ t) ∷ []))
            (default_locale ∷ []) first)
    ]

or_default-nil :
    (normalized : Option Text) (default_locale : Text)
    → or_default normalized default_locale ≡ []
    → default_locale ≡ []
or_default-nil none default_locale h = h
or_default-nil (some []) default_locale h = h
or_default-nil (some (c ∷ t)) default_locale h = cc

elem-chain_from :
    (l current default_locale : Text)
    → elem l (chain_from current default_locale)
      ≡ (is_ancestor l current || text_beq l default_locale)
unfolding chain_from
elem-chain_from l current default_locale =
    let result = climb (length current) current [] in
    ground (
      arith,
      elem-climb (length current) l current [],
      elem-climb (length current) default_locale current [],
      elem-append l result (default_locale ∷ []),
      text_beq_iff l default_locale,
      text_beq_iff default_locale l,
    )

-- The chain of a requested locale, or of the default without one, starts with it, holds it, what
-- stands before each of its dashes, and the default, and nothing else, and nothing twice.
pub locale_chain_lem :
    (normalized : Option Text) (default_locale : Text)
    → IsNodup (locale_chain normalized default_locale)
      × (head? (locale_chain normalized default_locale)
          ≡ some (or_default normalized default_locale))
      × ((l : Text)
          → elem l (locale_chain normalized default_locale)
            ≡ (is_ancestor l (or_default normalized default_locale) || text_beq l default_locale))
unfolding locale_chain chain_from
locale_chain_lem normalized default_locale =
    let current = or_default normalized default_locale in
    (
      append_new-IsNodup default_locale (climb (length current) current [])
          (climb-IsNodup (length current) current [] tt),
      head-chain_from current default_locale (or_default-nil normalized default_locale),
      λ l. elem-chain_from l current default_locale,
    )

-- What `text` finds is the message of a locale of the chain, and before it none has one; if it
-- finds nothing, no locale of the chain has one.
pub first_message_lem :
    (messages : Dict Text (Dict Text Text)) (key : Text) (chain : List Text)
    → ((first_message messages key chain ≡ none)
        × (all (λ l. not (is_some (message key (get l messages)))) chain ≡ true))
      ⊎ ((before : List Text) × (l : Text) × (after : List Text) × (chain ≡ before ++ (l ∷ after))
          × (first_message messages key chain ≡ message key (get l messages))
          × (is_some (message key (get l messages)) ≡ true)
          × (all (λ k. not (is_some (message key (get k messages)))) before ≡ true))
unfolding first_message
first_message_lem messages key [] = inl (refl, refl)
first_message_lem messages key (candidate ∷ chain) =
    elim (Option-cases (message key (get candidate messages))) [
      | inr (value, e) ↦ inr ([], candidate, chain, refl, ground (arith), rw (e) refl, refl)
      | inl e ↦ elim (first_message_lem messages key chain) [
        | inl (nothing, empty) ↦ inl (ground arith, ground arith)
        | inr (before, l, after, same, found, some_here, empty) ↦ inr (
          candidate ∷ before,
          l,
          after,
          ap (λ xs. candidate ∷ xs) same,
          ground arith,
          some_here,
          ground arith,
        )
      ]
    ]
