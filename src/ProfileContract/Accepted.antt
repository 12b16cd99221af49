-- ===== src/ProfileContract/Accepted.antt =====
-- What an accepted profile holds.
use msys_core.Common.{
  ℕ, ◌≤◌, ◌≡◌, ◌↔◌, refl, Bool, true, not, ◌&&◌, some, List, [], ◌∷◌, map, arith, leb, length, elem,
  all, IsNodup, nat_eq, length-map, inl, inr,
}
use msys_core.Common.Result.{Result-cases, ok}
use msys_core.Common.Text.{Text, text_eq, text_beq_iff}
use msys_core.ProfileContract.Checks.{as_array, as_string, unique_from, unique_strings}
use msys_core.Value.{Value, Items, null, str, list, items}

-- A text that `_string` takes for a pattern, with at most 255 characters and no NUL.
unfoldable pub is_item : (Text → Bool) → Text → Bool
is_item pattern t = leb 1 (length t) && leb (length t) 255 && not (elem 0 t) && pattern t

as_string-str :
    (pattern : Text → Bool) (t : Text)
    → is_item pattern t ≡ true
    → as_string 1 (some 255) (some pattern) (str t) ≡ ok t
unfolding as_string is_item
as_string-str pattern t h = ground arith

as_string-ok :
    (pattern : Text → Bool) (v : Value) (t : Text)
    → as_string 1 (some 255) (some pattern) v ≡ ok t
    → (v ≡ str t) × (is_item pattern t ≡ true)
unfolding as_string is_item
as_string-ok pattern (str s) t h = ground arith
as_string-ok pattern null t h = cc
as_string-ok pattern _ t h = cc

-- None of the texts has been seen.
abbrev apart : List Text → List Text → Bool
apart seen [] = true
apart seen (t ∷ ts) = not (elem t seen) && apart seen ts

apart-cons :
    (t : Text) (seen ts : List Text) → apart (t ∷ seen) ts ≡ (apart seen ts && not (elem t ts))
apart-cons t seen [] = refl
apart-cons t seen (x ∷ ts) =
    ground (arith, apart-cons t seen ts, text_beq_iff t x, text_beq_iff x t)

unique_from-ok :
    (pattern : Text → Bool) (seen : List Text) (vs : List Value) (ts : List Text)
    → unique_from pattern seen vs ≡ ok ts
    → (vs ≡ map str ts) × IsNodup ts × (all (is_item pattern) ts ≡ true) × (apart seen ts ≡ true)
unfolding unique_from
unique_from-ok pattern seen [] ts h = ground arith
unique_from-ok pattern seen (v ∷ vs) ts h =
    elim (Result-cases (as_string 1 (some 255) (some pattern) v)) [
      | inl (item, e) ↦ elim (Result-cases (unique_from pattern (item ∷ seen) vs)) [
        | inl (rest, r) ↦ ground (
          arith,
          as_string-ok pattern v item e,
          unique_from-ok pattern (item ∷ seen) vs rest r,
          apart-cons item seen rest,
        )
        | inr (x, r) ↦ absurd (ground arith)
      ]
      | inr (x, e) ↦ absurd (ground arith)
    ]

unique_from-reads :
    (pattern : Text → Bool) (seen ts : List Text)
    → IsNodup ts
    → all (is_item pattern) ts ≡ true
    → apart seen ts ≡ true
    → unique_from pattern seen (map str ts) ≡ ok ts
unfolding unique_from
unique_from-reads pattern seen [] n a s = refl
unique_from-reads pattern seen (t ∷ ts) n a s =
    ground (
      arith,
      as_string-str pattern t,
      apart-cons t seen ts,
      unique_from-reads pattern (t ∷ seen) ts,
    )

unseen : (ts : List Text) → apart [] ts ≡ true
unseen [] = refl
unseen (t ∷ ts) = unseen ts

-- A value is a list of unique strings exactly when it is a list of at most so many strings, each
-- accepted as an item and none twice; what is returned are these strings, in their order.
pub unique_strings_iff :
    (pattern : Text → Bool) (maximum_items : ℕ) (value : Value) (ts : List Text)
    → (unique_strings pattern maximum_items value ≡ ok ts) ↔ (
        (xs : Items) × (value ≡ list xs)
        × (items xs ≡ map str ts)
        × (length ts ≤ maximum_items)
        × IsNodup ts
        × (all (is_item pattern) ts ≡ true))
unfolding unique_strings as_array
unique_strings_iff pattern maximum_items value ts = (
  reads_list value,
  λ (xs, same, texts, low, distinct, fine). rw (same) (
      ground (
        arith,
        texts,
        length-map str ts,
        unique_from-reads pattern [] ts distinct fine (unseen ts),
      )),
)
  where
    reads_list :
        (value : Value)
        → unique_strings pattern maximum_items value ≡ ok ts
        → (xs : Items) × (value ≡ list xs)
          × (items xs ≡ map str ts)
          × (length ts ≤ maximum_items)
          × IsNodup ts
          × (all (is_item pattern) ts ≡ true)
    reads_list (list xs) h =
        let (texts, distinct, fine, fresh) =
          unique_from-ok pattern [] (items xs) ts (ground arith) in
        (xs, refl, texts, ground (arith, texts, length-map str ts), distinct, fine)
    reads_list null h = absurd (ground arith)
    reads_list _ h = absurd (ground arith)
