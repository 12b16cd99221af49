-- ===== src/Presentation/Paths.antt =====
-- The relative paths of catalogs, lines 23 to 25 and 181 to 188 of presentation_i18n.py.
use msys_core.Common.{
  ℕ, ◌≡◌, refl, Bool, true, false, not, ◌&&◌, ◌||◌, List, [], ◌∷◌, leb, length, elem, all, nat_eq,
  nat_beq, arith, if◌then◌else◌,
}
use msys_core.Common.Text.{is_alnum, Text, codes, text_beq}
use msys_core.Value.{Value, str}

-- `[A-Za-z0-9._-]`
abbrev pub is_segment_char : ℕ → Bool
is_segment_char c = is_alnum c || nat_beq c b'.' || nat_beq c b'_' || nat_beq c b'-'

-- `_PACKAGE_RELATIVE_PATH`: at the start of a segment, or inside one.
unfoldable mutual
  pub at_segment : Text → Bool
  at_segment [] = false
  at_segment (c ∷ t) = is_alnum c && in_segment t

  pub in_segment : Text → Bool
  in_segment [] = true
  in_segment (c ∷ t) = elim (nat_beq c b'/') [
    | true ↦ at_segment t
    | false ↦ is_segment_char c && in_segment t
  ]

-- The paths that `get` looks up.
unfoldable pub is_relative_path : Value → Bool
unfolding at_segment
is_relative_path (str t) = leb 1 (length t) && leb (length t) 1024 && not (elem 0 t) && at_segment t
is_relative_path _ = false

-- `t.split("/")`: the first segment, and the others.
abbrev pub split_first : Text → Text × List Text
split_first [] = ([], [])
split_first (c ∷ t) =
    let (first, others) = split_first t in
    if nat_beq c b'/' then ([], first ∷ others) else (c ∷ first, others)

abbrev pub split : Text → List Text
split t = let (first, others) = split_first t in first ∷ others

abbrev pub starts_alnum : Text → Bool
starts_alnum [] = false
starts_alnum (c ∷ t) = is_alnum c

mutual
  unfolding at_segment

  at_segment-split : (t : Text) → at_segment t ≡ true → all starts_alnum (split t) ≡ true
  at_segment-split [] h = ground arith
  at_segment-split (c ∷ t) h = ground (arith, in_segment-split t)

  in_segment-split : (t : Text) → in_segment t ≡ true → all starts_alnum (split_first t).1 ≡ true
  in_segment-split [] h = refl
  in_segment-split (c ∷ t) h = ground (arith, at_segment-split t, in_segment-split t)

-- The segments of a path that is looked up start with a letter or a digit: none is empty, `.` or
-- `..`, so that joined to the package root the path names a file below it.
pub is_relative_path-split :
    (t : Text)
    → is_relative_path (str t) ≡ true
    → all
        (λ segment.
          starts_alnum segment
          && not (text_beq segment (codes "."))
          && not (text_beq segment (codes "..")))
        (split t)
      ≡ true
unfolding is_relative_path
is_relative_path-split t h = plain (split t) (at_segment-split t (ground arith))
  where
    plain :
        (segments : List Text)
        → all starts_alnum segments ≡ true
        → all
            (λ segment.
              starts_alnum segment
              && not (text_beq segment (codes "."))
              && not (text_beq segment (codes "..")))
            segments
          ≡ true
    plain [] h = refl
    plain ([] ∷ rest) h = cc
    plain ((c ∷ t) ∷ rest) h = ground (arith, plain rest)
