-- ===== src/Common/Text.antt =====
-- Python's `str` as the list of its code points.
use Prim.Native.Nat.{ℕ, ◌≤◌}
use Prim.Native.Char.{code}
use Prim.Native.String.{String}
use mathlib.Core.Path.{◌≡◌, refl, ap}
use mathlib.Core.Logic.{◌↔◌}
use mathlib.Core.Bool.{Bool, true, false, ◌&&◌, ◌||◌}
use mathlib.Core.List.{List, [], ◌∷◌, ◌++◌}
use native.Mathlib.Omega.{arith}
use msys_core.Common.Tests.{PyEq, nat_beq, ltb, leb}
use msys_core.Common.Lists.{length}

abbrev pub Text : Type 0
Text = List ℕ

-- `String` has its own `[]` and `∷`.
abbrev pub codes : String → Text
codes String.[] = []
codes (String.◌∷◌ c s) = code c ∷ codes s

abbrev pub text_beq : Text → Text → Bool
text_beq [] [] = true
text_beq [] (d ∷ t) = false
text_beq (c ∷ s) [] = false
text_beq (c ∷ s) (d ∷ t) = nat_beq c d && text_beq s t

pub text_beq_iff : (s t : Text) → (text_beq s t ≡ true) ↔ (s ≡ t)
text_beq_iff [] [] = (λ h. refl, λ h. refl)
text_beq_iff [] (d ∷ t) = (λ h. cc, λ h. cc)
text_beq_iff (c ∷ s) [] = (λ h. cc, λ h. cc)
text_beq_iff (c ∷ s) (d ∷ t) = ground (arith, text_beq_iff s t)

instance abbrev pub text_eq : PyEq Text
text_eq = record { same = text_beq; same_iff = text_beq_iff }

-- `s <= t`: by the first code point that differs.
abbrev pub text_leb : Text → Text → Bool
text_leb [] t = true
text_leb (c ∷ s) [] = false
text_leb (c ∷ s) (d ∷ t) = ltb c d || (nat_beq c d && text_leb s t)

pub text_leb_total : (s t : Text) → text_leb s t ≡ false → text_leb t s ≡ true
text_leb_total [] t h = cc
text_leb_total (c ∷ s) [] h = refl
text_leb_total (c ∷ s) (d ∷ t) h = ground (arith, text_leb_total s t)

pub text_leb_refl : (s : Text) → text_leb s s ≡ true
text_leb_refl [] = refl
text_leb_refl (c ∷ s) = ground (arith, text_leb_refl s)

pub text_leb_trans :
    (s t u : Text) → text_leb s t ≡ true → text_leb t u ≡ true → text_leb s u ≡ true
text_leb_trans [] t u p q = refl
text_leb_trans (c ∷ s) [] u p q = cc
text_leb_trans (c ∷ s) (d ∷ t) [] p q = cc
text_leb_trans (c ∷ s) (d ∷ t) (f ∷ u) p q = ground (arith, text_leb_trans s t u)

pub text_leb_antisymm : (s t : Text) → text_leb s t ≡ true → text_leb t s ≡ true → s ≡ t
text_leb_antisymm [] [] p q = refl
text_leb_antisymm [] (d ∷ t) p q = cc
text_leb_antisymm (c ∷ s) [] p q = cc
text_leb_antisymm (c ∷ s) (d ∷ t) p q = ground (arith, text_leb_antisymm s t)

-- `t.startswith(s)`
abbrev pub starts_with : Text → Text → Bool
starts_with [] t = true
starts_with (c ∷ s) [] = false
starts_with (c ∷ s) (d ∷ t) = nat_beq c d && starts_with s t

-- `t[len(s):]`
abbrev pub drop_length : Text → Text → Text
drop_length [] t = t
drop_length (c ∷ s) [] = []
drop_length (c ∷ s) (d ∷ t) = drop_length s t

-- `t.endswith(c)` for one character, and `t[:-1]`
abbrev pub ends_with : ℕ → Text → Bool
ends_with c [] = false
ends_with c (d ∷ []) = nat_beq d c
ends_with c (d ∷ e ∷ t) = ends_with c (e ∷ t)

abbrev pub drop_last : Text → Text
drop_last [] = []
drop_last (d ∷ []) = []
drop_last (d ∷ e ∷ t) = d ∷ drop_last (e ∷ t)

pub starts_with-append : (s t : Text) → starts_with s (s ++ t) ≡ true
starts_with-append [] t = refl
starts_with-append (c ∷ s) t = ground (arith, starts_with-append s t)

pub starts_with_refl : (s : Text) → starts_with s s ≡ true
starts_with_refl [] = refl
starts_with_refl (c ∷ s) = ground (arith, starts_with_refl s)

pub starts_with_trans :
    (s t u : Text) → starts_with s t ≡ true → starts_with t u ≡ true → starts_with s u ≡ true
starts_with_trans [] t u p q = refl
starts_with_trans (c ∷ s) [] u p q = cc
starts_with_trans (c ∷ s) (d ∷ t) [] p q = cc
starts_with_trans (c ∷ s) (d ∷ t) (f ∷ u) p q = ground (arith, starts_with_trans s t u)

pub append-drop_length : (s t : Text) → starts_with s t ≡ true → s ++ drop_length s t ≡ t
append-drop_length [] t h = refl
append-drop_length (c ∷ s) [] h = cc
append-drop_length (c ∷ s) (d ∷ t) h = ground (arith, append-drop_length s t)

pub drop_length-append : (s t : Text) → drop_length s (s ++ t) ≡ t
drop_length-append [] t = refl
drop_length-append (c ∷ s) t = drop_length-append s t

pub ends_with-append : (c : ℕ) (s : Text) → ends_with c (s ++ c ∷ []) ≡ true
ends_with-append c [] = ground arith
ends_with-append c (d ∷ []) = ground arith
ends_with-append c (d ∷ e ∷ t) = ends_with-append c (e ∷ t)

pub drop_last-append : (c : ℕ) (s : Text) → drop_last (s ++ c ∷ []) ≡ s
drop_last-append c [] = refl
drop_last-append c (d ∷ []) = refl
drop_last-append c (d ∷ e ∷ t) = ap (◌∷◌ d) (drop_last-append c (e ∷ t))

pub length-drop_last : (t : Text) → length (drop_last t) ≤ length t
length-drop_last [] = omega arith
length-drop_last (d ∷ []) = omega arith
length-drop_last (d ∷ e ∷ t) = omega (arith, length-drop_last (e ∷ t))

-- `[A-Za-z0-9]`
abbrev pub is_alnum : ℕ → Bool
is_alnum c = leb b'0' c && leb c b'9' || leb b'A' c && leb c b'Z' || leb b'a' c && leb c b'z'
