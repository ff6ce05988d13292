-- ===== src/Base/Int.antt =====
-- `int`: the integers over the native numbers, and `atoi`.
use Prim.Native.Nat.{ℕ, zero, suc}
use mathlib.Core.Bool.{Bool, false, ◌||◌, ◌&&◌}
use mathlib.Core.List.{[], ◌∷◌}
use nospoon.Base.Tests.{if◌then◌else◌, leb, ◌==◌}
use nospoon.Base.Texts.{Bytes}
use nospoon.Base.Numerals.{read_digits, decimal}

-- `negsuc n` is -(n + 1).
pub data ℤ : Type 0 where
  pos : ℕ → ℤ
  negsuc : ℕ → ℤ

abbrev pub negate : ℕ → ℤ
negate zero = pos 0
negate (suc n) = negsuc n

-- `lo <= v && v <= hi` for bounds that are not negative
abbrev pub within : ℕ → ℕ → ℤ → Bool
within lo hi (pos n) = leb lo n && leb n hi
within lo hi (negsuc n) = false

-- `isspace` in the C locale
abbrev pub is_c_space : ℕ → Bool
is_c_space c = c == b' ' || leb 9 c && leb c 13

-- The number after an optional sign.
unfoldable pub read_signed : Bytes → ℤ
unfolding read_digits
read_signed [] = pos 0
read_signed (c ∷ s) =
    if c == b'-'
    then negate (read_digits 0 s)
    else if c == b'+'
    then pos (read_digits 0 s)
    else pos (read_digits 0 (c ∷ s))

-- `atoi`. A number beyond `int` is undefined there, and is kept whole here.
unfoldable pub atoi : Bytes → ℤ
unfolding read_signed
atoi [] = pos 0
atoi (c ∷ s) = if is_c_space c then atoi s else read_signed (c ∷ s)

abbrev pub is_zero : ℤ → Bool
is_zero (pos n) = n == 0
is_zero (negsuc n) = false

-- `%d` and `std::to_string`
unfoldable pub decimal_int : ℤ → Bytes
unfolding decimal
decimal_int (pos n) = decimal n
decimal_int (negsuc n) = b'-' ∷ decimal (suc n)
