-- ===== src/Base/Numerals.antt =====
-- `%u`, `%d`, `%x` and `std::to_string`: numbers in a base, without leading zeros, and digits read as a number.
use Prim.Native.Nat.{ℕ, zero, suc, ◌+◌, ◌-◌, ◌*◌, ◌/◌, ◌%◌, ◌<◌}
use mathlib.Core.Path.{◌≡◌}
use mathlib.Core.Bool.{Bool, true, false, ◌&&◌}
use mathlib.Core.List.{[], ◌∷◌, ◌++◌}
use native.Mathlib.Omega.{arith}
use nospoon.Base.Tests.{if◌then◌else◌, ltb}
use nospoon.Base.Texts.{Bytes, is_digit}

-- A digit, in lower case beyond 9.
unfoldable pub digit_char : ℕ → ℕ
digit_char d = if ltb d 10 then b'0' + d else b'a' + (d - 10)

unfoldable pub print_fuel : ℕ → ℕ → ℕ → Bytes
unfolding digit_char
print_fuel base zero n = digit_char (n % base) ∷ []
print_fuel base (suc fuel) n = elim (ltb n base) [
  | true ↦ digit_char n ∷ []
  | false ↦ print_fuel base fuel (n / base) ++ (digit_char (n % base) ∷ [])
]

unfoldable pub decimal : ℕ → Bytes
unfolding print_fuel
decimal n = print_fuel 10 n n

unfoldable pub hexadecimal : ℕ → Bytes
unfolding print_fuel
hexadecimal n = print_fuel 16 n n

-- The number that leading decimal digits spell: `atoi` on a text that starts with a digit or with
-- none. The source applies it to texts short enough for `int`, or says what it does with the rest.
unfoldable pub read_digits : ℕ → Bytes → ℕ
read_digits acc [] = acc
read_digits acc (c ∷ s) = if is_digit c then read_digits (acc * 10 + (c - b'0')) s else acc

-- A test of every number below a bound, by evaluation.
unfoldable pub holds_below : (ℕ → Bool) → ℕ → Bool
holds_below test zero = true
holds_below test (suc bound) = holds_below test bound && test bound

pub holds_below-apply :
    (test : ℕ → Bool) {k bound : ℕ} → k < bound → holds_below test bound ≡ true → test k ≡ true
unfolding holds_below
holds_below-apply test {k} {bound = zero} small all_hold = absurd (omega arith)
holds_below-apply test {k} {bound = suc bound} small all_hold =
    ground (arith, holds_below-apply test {k = k} {bound = bound})
