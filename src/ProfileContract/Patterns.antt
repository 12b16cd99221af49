-- ===== src/ProfileContract/Patterns.antt =====
-- The regular expressions of profile_contract.py, lines 16 to 24, as full matches on code points.
use msys_core.Common.{Bool, true, false, ◌&&◌, ◌||◌, [], ◌∷◌, ℕ, leb, nat_beq, all}
use msys_core.Common.Text.{Text, starts_with, drop_length, codes}

pub is_lower : ℕ → Bool
is_lower c = leb b'a' c && leb c b'z'

pub is_upper : ℕ → Bool
is_upper c = leb b'A' c && leb c b'Z'

pub is_digit : ℕ → Bool
is_digit c = leb b'0' c && leb c b'9'

pub is_lower_alnum : ℕ → Bool
unfolding is_lower is_digit
is_lower_alnum c = is_lower c || is_digit c

-- `[first][rest]*`
abbrev pub matches_word : (ℕ → Bool) → (ℕ → Bool) → Text → Bool
matches_word first rest [] = false
matches_word first rest (c ∷ t) = first c && all rest t

-- `^[a-z][a-z0-9.-]*$`, of profile ids and of roles
unfoldable pub is_name : Text → Bool
unfolding is_lower is_lower_alnum
is_name = matches_word is_lower (λ c. is_lower_alnum c || nat_beq c b'.' || nat_beq c b'-')

-- `^[A-Za-z_][A-Za-z0-9_]*$`
unfoldable pub is_env_name : Text → Bool
unfolding is_lower is_upper is_digit
is_env_name =
    matches_word (λ c. is_lower c || is_upper c || nat_beq c b'_')
      (λ c. is_lower c || is_upper c || is_digit c || nat_beq c b'_')

-- `[a-z0-9._-]`
pub is_local_char : ℕ → Bool
unfolding is_lower_alnum
is_local_char c = is_lower_alnum c || nat_beq c b'.' || nat_beq c b'_' || nat_beq c b'-'

-- `^x-[a-z0-9][a-z0-9._-]*$`
unfoldable pub is_extension : Text → Bool
unfolding is_lower_alnum is_local_char
is_extension t =
    starts_with (codes "x-") t
    && matches_word is_lower_alnum is_local_char (drop_length (codes "x-") t)

-- `[a-z][a-z0-9._-]*`, the part of a component reference after the package
pub is_local_id : Text → Bool
unfolding is_lower is_local_char
is_local_id = matches_word is_lower is_local_char

-- `[a-z0-9_-]`
pub is_segment_char : ℕ → Bool
unfolding is_lower_alnum
is_segment_char c = is_lower_alnum c || nat_beq c b'_' || nat_beq c b'-'

-- `[a-z0-9][a-z0-9_-]*(?:\.[a-z0-9][a-z0-9_-]*)+:` and then a local id: at the start of a segment,
-- or inside one, with or without a dot before.
mutual
  unfolding is_lower_alnum is_segment_char is_local_id

  pub in_segment : Bool → Text → Bool
  in_segment dotted [] = false
  in_segment dotted (c ∷ t) = elim (nat_beq c b'.') [
    | true ↦ segment_start t
    | false ↦ elim (nat_beq c b':') [
      | true ↦ dotted && is_local_id t
      | false ↦ is_segment_char c && in_segment dotted t
    ]
  ]

  pub segment_start : Text → Bool
  segment_start [] = false
  segment_start (c ∷ t) = is_lower_alnum c && in_segment true t

abbrev pub first_segment : Text → Bool
first_segment [] = false
first_segment (c ∷ t) = is_lower_alnum c && in_segment false t

unfoldable pub is_component_ref : Text → Bool
unfolding is_lower_alnum in_segment is_local_id
is_component_ref t = first_segment t || is_local_id t
