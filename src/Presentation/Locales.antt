-- ===== src/Presentation/Locales.antt =====
-- `_locale_chain` from the normalised locale on, and `PresentationCatalog.text`: the locales that
-- are tried for a message.
use msys_core.Common.{
  ℕ, zero, suc, Option, none, some, List, [], ◌∷◌, ◌++◌, length, elem, nat_eq, if◌then◌else◌,
}
use msys_core.Common.Text.{Text, text_eq}
use msys_core.Common.Dict.{Dict, get}

-- `current.rpartition("-")[0]`: what stands before the last dash, or nothing.
unfoldable pub parent : Text → Text
parent [] = []
parent (c ∷ t) = let rest = parent t in if elem b'-' t then c ∷ rest else []

-- The loop over a locale and its parents; `fuel` bounds its turns.
unfoldable pub climb : ℕ → Text → List Text → List Text
climb zero current result = result
climb (suc fuel) [] result = result
climb (suc fuel) (c ∷ t) result =
    climb fuel (parent (c ∷ t)) (if elem (c ∷ t) result then result else result ++ ((c ∷ t) ∷ []))

-- `normalized or default_locale`
abbrev pub or_default : Option Text → Text → Text
or_default none default_locale = default_locale
or_default (some []) default_locale = default_locale
or_default (some (c ∷ t)) default_locale = c ∷ t

unfoldable pub chain_from : Text → Text → List Text
chain_from current default_locale =
    let result = climb (length current) current [] in
    if elem default_locale result then result else result ++ (default_locale ∷ [])

-- `_locale_chain`, once the requested locale is normalised.
unfoldable pub locale_chain : Option Text → Text → List Text
unfolding chain_from
locale_chain normalized default_locale =
    chain_from (or_default normalized default_locale) default_locale

-- `self.messages.get(candidate, {}).get(key)`, where it is a string and not empty.
abbrev pub message : Text → Option (Dict Text Text) → Option Text
message key none = none
message key (some locale_messages) = elim (get key locale_messages) [
  | none ↦ none
  | some [] ↦ none
  | some (c ∷ t) ↦ some (c ∷ t)
]

-- The loop of `text`
unfoldable pub first_message : Dict Text (Dict Text Text) → Text → List Text → Option Text
first_message messages key [] = none
first_message messages key (candidate ∷ chain) =
    let later = first_message messages key chain in
    elim (message key (get candidate messages)) [ none ↦ later | some value ↦ some value ]
