-- ===== src/Tun/Netmask.antt =====
-- cpp/tun_macos.cpp and cpp/tun_windows.cpp: the address and the prefix of a network, and the dotted
-- netmask.
use nospoon.Base.{
  ◌≡◌, refl, ℕ, ◌+◌, ◌-◌, ◌*◌, ◌/◌, ◌%◌, ◌^◌, ◌≤◌, true, [], ◌∷◌, ◌++◌, Option, none, some, ◌==◌,
  ltb, if◌then◌else◌, Bytes, take, same, same_iff, is_digit, arith,
}
use nospoon.Base.Int.{ℤ, pos, negsuc, negate, is_c_space}
use nospoon.Base.Numerals.{decimal, read_digits, holds_below, holds_below-apply}

-- `ip_cidr.substr(0, slash)`, the whole text where there is none
abbrev pub before : Option ℕ → Bytes → Bytes
before none ip_cidr = ip_cidr
before (some slash) ip_cidr = take slash ip_cidr

-- `prefix == 0 ? 0u : 0xFFFFFFFFu << (32 - prefix)`
unfoldable pub mask : ℕ → ℕ
mask prefix = if prefix == 0 then 0 else (0xFFFFFFFF * 2 ^ (32 - prefix)) % 2 ^ 32

-- "%u.%u.%u.%u" of its bytes
unfoldable pub netmask : ℕ → Bytes
unfolding mask decimal
netmask prefix =
    let m = mask prefix in
    decimal (m / 2 ^ 24 % 256)
    ++ (b'.'
        ∷ (decimal (m / 2 ^ 16 % 256)
            ++ (b'.' ∷ (decimal (m / 2 ^ 8 % 256) ++ (b'.' ∷ decimal (m % 256))))))

-- A netmask by its definition: bit k of byte i, from the front, is set if it is one of the first
-- `prefix` bits.
abbrev pub bit_of : ℕ → ℕ → ℕ → ℕ
bit_of prefix i k = if ltb (i * 8 + k) prefix then 2 ^ (7 - k) else 0

abbrev pub octet : ℕ → ℕ → ℕ
octet prefix i =
    bit_of prefix i 0
    + bit_of prefix i 1
    + bit_of prefix i 2
    + bit_of prefix i 3
    + bit_of prefix i 4
    + bit_of prefix i 5
    + bit_of prefix i 6
    + bit_of prefix i 7

unfoldable pub reference : ℕ → Bytes
unfolding decimal
reference prefix =
    decimal (octet prefix 0)
    ++ (b'.'
        ∷ (decimal (octet prefix 1)
            ++ (b'.' ∷ (decimal (octet prefix 2) ++ (b'.' ∷ decimal (octet prefix 3))))))

netmask_table : holds_below (λ prefix. same (netmask prefix) (reference prefix)) 33 ≡ true
unfolding holds_below same netmask reference
netmask_table = refl

-- For a prefix up to 32 the dotted netmask, printed from a shifted word, is the text of the four
-- bytes in which the first bits, as many as the prefix says, are set.
pub netmask_lem : (prefix : ℕ) → prefix ≤ 32 → netmask prefix ≡ reference prefix
netmask_lem prefix h =
    (same_iff (netmask prefix) (reference prefix)).0
      (holds_below-apply (λ p. same (netmask p) (reference p)) (omega arith) netmask_table)

-- `std::stoi`: it throws, none here, where no digit stands behind the spaces and a sign, and beyond
-- the range of `int`.
abbrev pub in_int : ℤ → Option ℤ
in_int (pos n) = if ltb n (2 ^ 31) then some (pos n) else none
in_int (negsuc n) = if ltb n (2 ^ 31) then some (negsuc n) else none

unfoldable pub digits_or : (ℕ → ℤ) → Bytes → Option ℤ
unfolding read_digits
digits_or sign [] = none
digits_or sign (c ∷ s) = if is_digit c then in_int (sign (read_digits 0 (c ∷ s))) else none

unfoldable pub stoi : Bytes → Option ℤ
unfolding digits_or
stoi [] = none
stoi (c ∷ s) =
    if is_c_space c
    then stoi s
    else if c == b'-'
    then digits_or negate s
    else if c == b'+'
    then digits_or pos s
    else digits_or pos (c ∷ s)
