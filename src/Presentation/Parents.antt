-- ===== src/Presentation/Parents.antt =====
-- The loop of `_locale_chain`: it ends, and collects a locale and what stands before its dashes.
use msys_core.Common.{
  ℕ, zero, suc, ◌≤◌, ◌≡◌, refl, ap, ◌∙◌, Bool, false, ◌&&◌, ◌||◌, List, [], ◌∷◌, ◌++◌, leb, length,
  elem, nat_eq, arith, if◌then◌else◌, elem-append, inl, inr, Bool-cases,
}
use msys_core.Common.Text.{Text, starts_with, text_eq, text_beq, text_beq_iff}
use msys_core.Presentation.Locales.{parent, climb}

-- A parent is shorter, so that the loop ends.
pub length-parent : (c : ℕ) (t : Text) → length (parent (c ∷ t)) ≤ length t
unfolding parent
length-parent c [] = ground arith
length-parent c (d ∷ t) = ground (arith, length-parent d t)

climb_more :
    (fuel : ℕ) (current : Text) (result : List Text)
    → length current ≤ fuel
    → climb (suc fuel) current result ≡ climb fuel current result
unfolding climb
climb_more zero [] result h = refl
climb_more zero (c ∷ t) result h = absurd (omega (arith, h))
climb_more (suc fuel) [] result h = refl
climb_more (suc fuel) (c ∷ t) result h =
    climb_more fuel (parent (c ∷ t))
      (if elem (c ∷ t) result then result else result ++ ((c ∷ t) ∷ []))
      (omega (arith, length-parent c t, h))

-- The loop ends within as many turns as the locale has characters: more fuel changes nothing.
pub climb_enough :
    (fuel : ℕ) (current : Text) (result : List Text)
    → length current ≤ fuel
    → climb fuel current result ≡ climb (length current) current result
climb_enough zero [] result h = refl
climb_enough zero (c ∷ t) result h = absurd (omega (arith, h))
climb_enough (suc fuel) current result h = elim (Bool-cases (leb (length current) fuel)) [
  | inl low ↦
      climb_more fuel current result (ground (arith, low))
      ∙ climb_enough fuel current result (ground (arith, low))
  | inr high ↦ ap (λ n. climb n current result) (ground (arith, high, h))
]

-- A locale itself, or what stands before one of its dashes.
abbrev pub is_ancestor : Text → Text → Bool
is_ancestor [] current = false
is_ancestor (d ∷ l) current =
    text_beq (d ∷ l) current || starts_with ((d ∷ l) ++ (b'-' ∷ [])) current

starts_with-parent :
    (l t : Text)
    → starts_with (l ++ (b'-' ∷ [])) t
      ≡ (elem b'-' t && (text_beq l (parent t) || starts_with (l ++ (b'-' ∷ [])) (parent t)))
unfolding parent
starts_with-parent [] [] = ground arith
starts_with-parent [] (c ∷ t) = ground arith
starts_with-parent (d ∷ l) [] = ground arith
starts_with-parent (d ∷ l) (c ∷ t) = ground (arith, starts_with-parent l t)

parent-top : (t : Text) → elem b'-' t ≡ false → parent t ≡ []
unfolding parent
parent-top [] h = refl
parent-top (c ∷ t) h = ground arith

is_ancestor-nil : (l : Text) → is_ancestor l [] ≡ false
is_ancestor-nil [] = refl
is_ancestor-nil (d ∷ l) = refl

is_ancestor-parent :
    (l : Text) (c : ℕ) (t : Text)
    → is_ancestor l (c ∷ t) ≡ (text_beq l (c ∷ t) || is_ancestor l (parent (c ∷ t)))
is_ancestor-parent [] c t = ground arith
is_ancestor-parent (d ∷ l) c t =
    ground (arith, starts_with-parent (d ∷ l) (c ∷ t), parent-top (c ∷ t))

pub elem-climb :
    (fuel : ℕ) (l current : Text) (result : List Text)
    → length current ≤ fuel
    → elem l (climb fuel current result) ≡ (elem l result || is_ancestor l current)
unfolding climb
elem-climb zero l [] result h = ground (arith, is_ancestor-nil l)
elem-climb zero l (c ∷ t) result h = absurd (omega (arith, h))
elem-climb (suc fuel) l [] result h = ground (arith, is_ancestor-nil l)
elem-climb (suc fuel) l (c ∷ t) result h = elim (Bool-cases (elem (c ∷ t) result)) [
  | inl old ↦
      rw (old, climb)
        (ground (
          arith,
          elem-climb fuel l (parent (c ∷ t)) result,
          length-parent c t,
          is_ancestor-parent l c t,
          text_beq_iff l (c ∷ t),
        ))
  | inr new ↦
      rw (new, climb)
        (ground (
          arith,
          elem-climb fuel l (parent (c ∷ t)) (result ++ ((c ∷ t) ∷ [])),
          elem-append l result ((c ∷ t) ∷ []),
          length-parent c t,
          is_ancestor-parent l c t,
          text_beq_iff l (c ∷ t),
          text_beq_iff (c ∷ t) l,
        ))
]
