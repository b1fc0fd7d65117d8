-- ===== src/Common/Text.antt =====
-- Go's package `strings` and the formatting of numbers, over the native text. White space is
-- Unicode's, as in `unicode.IsSpace`; the case of ASCII letters is mapped, and other letters stay.
pub mod Laws
use Prim.Native.Nat.{ℕ, zero, suc, ◌+◌, ◌-◌, ◌*◌, ◌/◌, ◌%◌, ◌≤◌}
use Prim.Native.Char.{Char, char, code, IsScalar}
use Prim.Native.String.{String, [], ◌∷◌, ◌++◌, char_at}
use mathlib.Core.Path.{◌≡◌, refl}
use mathlib.Core.Bool.{Bool, true, false, ◌&&◌, ◌||◌}
use mathlib.Core.List
use mathlib.Core.List.{List}
use native.Mathlib.Omega.{arith}
use text.Mathlib.Text.{◌==◌, starts_with}
use infrastructure_managemen.Common.Tests.{ltb, leb, eqb, if◌then◌else◌}
use infrastructure_managemen.Common.Int.{ℤ, pos, negsuc}

-- unicode.IsSpace
unfoldable pub is_space : ℕ → Bool
is_space c =
    (leb 9 c && leb c 13)
    || eqb c 32
    || eqb c 0x85
    || eqb c 0xa0
    || eqb c 0x1680
    || (leb 0x2000 c && leb c 0x200a)
    || eqb c 0x2028
    || eqb c 0x2029
    || eqb c 0x202f
    || eqb c 0x205f
    || eqb c 0x3000

unfoldable pub trim_left : String → String
unfolding is_space
trim_left [] = []
trim_left (c ∷ s) = if is_space (code c) then trim_left s else c ∷ s

-- A character before a text that is trimmed on its right.
unfoldable pub keep : Char → String → String
unfolding is_space
keep c [] = if is_space (code c) then [] else c ∷ []
keep c (d ∷ s) = c ∷ (d ∷ s)

unfoldable pub trim_right : String → String
unfolding keep
trim_right [] = []
trim_right (c ∷ s) = keep c (trim_right s)

-- strings.TrimSpace
unfoldable pub trim_space : String → String
unfolding trim_left trim_right
trim_space s = trim_right (trim_left s)

unfoldable pub lower_code : ℕ → ℕ
lower_code n = if leb 65 n && leb n 90 then n + 32 else n

pub lower_code-IsScalar : (n : ℕ) → IsScalar n → IsScalar (lower_code n)
unfolding lower_code
lower_code-IsScalar n p = ground arith

unfoldable pub lower_char : Char → Char
unfolding lower_code
lower_char (char n p) = char (lower_code n) (lower_code-IsScalar n p)

-- strings.ToLower
unfoldable pub to_lower : String → String
unfolding lower_char
to_lower [] = []
to_lower (c ∷ s) = lower_char c ∷ to_lower s

-- strings.EqualFold
unfoldable pub equal_fold : String → String → Bool
unfolding to_lower
equal_fold s t = to_lower s == to_lower t

-- strings.Join
unfoldable pub join : List String → String → String
join List.[] sep = ""
join (List.◌∷◌ s ss) sep = elim ss [ List.[] ↦ s | List.◌∷◌ _ _ ↦ s ++ (sep ++ join ss sep) ]

tests : (trim_space " a b  " ≡ "a b") × (to_lower "Node_EXPORTER" ≡ "node_exporter")
unfolding trim_space to_lower
tests = (refl, refl)
