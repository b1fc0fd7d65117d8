-- ===== src/Common/Numerals.antt =====
-- strconv.Itoa and strconv.FormatInt in base ten.
use Prim.Native.Nat.{ℕ, zero, suc, ◌/◌, ◌%◌, ◌<◌}
use Prim.Native.String.{String, [], ◌∷◌, ◌++◌, char_at}
use mathlib.Core.Path.{◌≡◌, refl}
use native.Mathlib.Omega.{arith}
use infrastructure_managemen.Common.Tests.{ltb, if◌then◌else◌}
use infrastructure_managemen.Common.Int.{ℤ, pos, negsuc}

unfoldable pub digit : ℕ → String
digit n = char_at "0123456789" n ∷ []

-- The fuel bounds the number of digits.
unfoldable pub itoa_fuel : ℕ → ℕ → String
unfolding digit
itoa_fuel zero n = ""
itoa_fuel (suc f) n =
    let front = itoa_fuel f (n / 10) in if ltb n 10 then digit n else front ++ digit (n % 10)

-- More fuel than the number changes nothing.
pub itoa_fuel_enough : (f g n : ℕ) → n < f → n < g → itoa_fuel f n ≡ itoa_fuel g n
unfolding itoa_fuel
itoa_fuel_enough zero g n h k = absurd (omega arith)
itoa_fuel_enough (suc f) zero n h k = absurd (omega arith)
itoa_fuel_enough (suc f) (suc g) n h k = ground (arith, itoa_fuel_enough f g (n / 10))

unfoldable pub itoa_ℕ : ℕ → String
unfolding itoa_fuel
itoa_ℕ n = itoa_fuel (suc n) n

unfoldable pub itoa : ℤ → String
unfolding itoa_ℕ
itoa (pos n) = itoa_ℕ n
itoa (negsuc n) = "-" ++ itoa_ℕ (suc n)

tests : (itoa (pos 1053) ≡ "1053") × (itoa (negsuc 0) ≡ "-1") × (itoa (pos 0) ≡ "0")
unfolding itoa
tests = (refl, refl, refl)
