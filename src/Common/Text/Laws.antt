-- ===== src/Common/Text/Laws.antt =====
-- Trimming and lowering are idempotent, and commute.
use Prim.Native.Nat.{ℕ}
use Prim.Native.Char.{Char, char, code}
use Prim.Native.String.{String, [], ◌∷◌}
use mathlib.Core.Path.{◌≡◌, refl, ap, ap₂, ◌∙◌}
use mathlib.Core.Logic.{inl, inr}
use mathlib.Core.Bool.{true, false}
use native.Mathlib.Omega.{arith}
use text.Mathlib.TextEquality.{Char-path, eq_iff}
use infrastructure_managemen.Common.Tests.{Bool-cases}
use infrastructure_managemen.Common.Text.{
  is_space, trim_left, keep, trim_right, trim_space, lower_code, lower_char, to_lower, equal_fold,
}

keep-ne : (c : Char) (s : String) → is_space (code c) ≡ false → keep c s ≡ c ∷ s
unfolding keep
keep-ne c [] h = rw h
keep-ne c (d ∷ s) h = refl

trim_right-keep : (c : Char) (r : String) → trim_right r ≡ r → trim_right (keep c r) ≡ keep c r
unfolding trim_right
trim_right-keep c [] h = elim (Bool-cases (is_space (code c))) [ inl e ↦ rw e | inr e ↦ rw (e, e) ]
trim_right-keep c (d ∷ r) h = rw h

trim_right_idem : (s : String) → trim_right (trim_right s) ≡ trim_right s
unfolding trim_right
trim_right_idem [] = refl
trim_right_idem (c ∷ s) = trim_right-keep c (trim_right s) (trim_right_idem s)

trim_left-trim_right-trim_left :
    (s : String) → trim_left (trim_right (trim_left s)) ≡ trim_right (trim_left s)
unfolding trim_left trim_right
trim_left-trim_right-trim_left [] = refl
trim_left-trim_right-trim_left (c ∷ s) = elim (Bool-cases (is_space (code c))) [
  | inl e ↦ rw e (trim_left-trim_right-trim_left s)
  | inr e ↦ rw (e, trim_right) (rw (keep-ne c (trim_right s) e) (rw e))
]

pub trim_space_idem : (s : String) → trim_space (trim_space s) ≡ trim_space s
unfolding trim_space
trim_space_idem s = rw trim_left-trim_right-trim_left (trim_right_idem (trim_left s))

lower_code_idem : (n : ℕ) → lower_code (lower_code n) ≡ lower_code n
unfolding lower_code
lower_code_idem n = ground arith

is_space-lower_code : (n : ℕ) → is_space (lower_code n) ≡ is_space n
unfolding lower_code is_space
is_space-lower_code n = ground arith

lower_char_idem : (c : Char) → lower_char (lower_char c) ≡ lower_char c
unfolding lower_char
lower_char_idem (char n p) = Char-path _ _ (lower_code_idem n)

is_space-lower_char : (c : Char) → is_space (code (lower_char c)) ≡ is_space (code c)
unfolding lower_char
is_space-lower_char (char n p) = is_space-lower_code n

pub to_lower_idem : (s : String) → to_lower (to_lower s) ≡ to_lower s
unfolding to_lower
to_lower_idem [] = refl
to_lower_idem (c ∷ s) = ap₂ ◌∷◌ (lower_char_idem c) (to_lower_idem s)

to_lower-keep : (c : Char) (s : String) → to_lower (keep c s) ≡ keep (lower_char c) (to_lower s)
unfolding to_lower keep
to_lower-keep c [] = elim (Bool-cases (is_space (code c))) [
  | inl e ↦ rw (e, is_space-lower_char, e)
  | inr e ↦ rw (e, is_space-lower_char, e)
]
to_lower-keep c (d ∷ s) = refl

to_lower-trim_left : (s : String) → to_lower (trim_left s) ≡ trim_left (to_lower s)
unfolding to_lower trim_left
to_lower-trim_left [] = refl
to_lower-trim_left (c ∷ s) = elim (Bool-cases (is_space (code c))) [
  | inl e ↦ rw (e, is_space-lower_char, e) (to_lower-trim_left s)
  | inr e ↦ rw (e, is_space-lower_char, e)
]

to_lower-trim_right : (s : String) → to_lower (trim_right s) ≡ trim_right (to_lower s)
unfolding to_lower trim_right
to_lower-trim_right [] = refl
to_lower-trim_right (c ∷ s) =
    to_lower-keep c (trim_right s) ∙ ap (keep (lower_char c)) (to_lower-trim_right s)

pub to_lower-trim_space : (s : String) → to_lower (trim_space s) ≡ trim_space (to_lower s)
unfolding trim_space
to_lower-trim_space s = to_lower-trim_right (trim_left s) ∙ ap trim_right (to_lower-trim_left s)

pub equal_fold_iff : (s t : String) → equal_fold s t ≡ true → to_lower s ≡ to_lower t
unfolding equal_fold
equal_fold_iff s t h = (eq_iff _ _).0 h
