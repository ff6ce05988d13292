-- ===== src/Validation.antt =====
-- cpp/validation.hpp: the checks of config fields.
pub mod Scan
pub mod Cidr
pub mod Parts
pub mod Network6
mod Tests
use nospoon.Base.{
  ℕ, zero, suc, ◌+◌, Bool, true, false, not, ◌&&◌, ◌||◌, List, [], ◌∷◌, ◌++◌, Option, none, some,
  leb, ◌==◌, if◌then◌else◌, length, take, drop, all, Bytes, codes, find, is_digit, is_hex_digit,
}
use nospoon.Base.Int.{ℤ, within, atoi}

pub record Result : Type 0 where
  pub valid : Bool
  pub error : Bytes

abbrev pub passed : Result
passed = record { valid = true; error = [] }

abbrev pub failed : Bytes → Result
failed message = record { valid = false; error = message }

unfoldable pub validate_hex64 : Bytes → Bytes → Result
validate_hex64 value label =
    if not (length value == 64)
    then failed (label ++ codes " must be exactly 64 hex characters")
    else if all is_hex_digit value
    then passed
    else failed (label ++ codes " must be exactly 64 hex characters")

-- `\d{1,most}` in front of what `k` matches. No digit follows a `\d` group in the pattern, so the
-- longest run of digits is the only match.
unfoldable pub leading_digits : Bytes → Bytes
leading_digits [] = []
leading_digits (c ∷ s) = if is_digit c then c ∷ leading_digits s else []

unfoldable pub after_digits : Bytes → Bytes
after_digits [] = []
after_digits (c ∷ s) = if is_digit c then after_digits s else c ∷ s

unfoldable pub match_digits : ℕ → (Bytes → Bool) → Bytes → Bool
unfolding leading_digits after_digits
match_digits most k s =
    leb 1 (length (leading_digits s)) && leb (length (leading_digits s)) most && k (after_digits s)

unfoldable pub match_char : ℕ → (Bytes → Bool) → Bytes → Bool
match_char c k [] = false
match_char c k (x ∷ s) = x == c && k s

unfoldable pub match_end : Bytes → Bool
match_end [] = true
match_end (_ ∷ _) = false

-- `^\d{1,3}\.\d{1,3}\.\d{1,3}\.\d{1,3}/\d{1,2}$`
unfoldable pub matches_cidr : Bytes → Bool
matches_cidr = match_digits 3 (
    match_char b'.' (
      match_digits 3 (
        match_char b'.' (
          match_digits 3
            (match_char b'.' (match_digits 3 (match_char b'/' (match_digits 2 match_end))))))))

-- `value.substr(slash + 1)`; npos + 1 is 0
abbrev pub after_slash : Bytes → Option ℕ → Bytes
after_slash value none = value
after_slash value (some slash) = drop (slash + 1) value

-- `sscanf` with "%d.%d.%d.%d", on a text that the pattern has matched: numbers and dots.
unfoldable pub scan_octets : ℕ → Bytes → List ℤ
unfolding atoi after_digits
scan_octets zero s = []
scan_octets (suc n) s = atoi s ∷ scan_octets n (drop 1 (after_digits s))

unfoldable pub validate_cidr : Bytes → Bytes → Result
validate_cidr value label =
    if not (matches_cidr value)
    then failed (label ++ codes " must be in CIDR format (e.g. 10.0.0.1/24)")
    else if not (within 0 32 (atoi (after_slash value (find b'/' value))))
    then failed (label ++ codes " has invalid prefix (0-32)")
    else if all (within 0 255) (scan_octets 4 value)
    then passed
    else failed (label ++ codes " has invalid IP octet (0-255)")

abbrev pub has : ℕ → Bytes → Bool
has c [] = false
has c (x ∷ s) = x == c || has c s

abbrev pub is_v6_char : ℕ → Bool
is_v6_char c = c == b':' || is_hex_digit c

-- The checks behind the search for the slash.
unfoldable pub validate_cidr_v6_at : Bytes → Bytes → Option ℕ → Result
unfolding atoi
validate_cidr_v6_at value label none =
    failed (label ++ codes " must be in CIDR format (e.g. fd00::1/64)")
validate_cidr_v6_at value label (some slash) =
    let addr = take slash value in
    if not (within 1 128 (atoi (drop (slash + 1) value)))
    then failed (label ++ codes " has invalid prefix (1-128)")
    else if not (has b':' addr)
    then failed (label ++ codes " is not a valid IPv6 address")
    else if all is_v6_char addr
    then passed
    else failed (label ++ codes " has invalid character")

unfoldable pub validate_cidr_v6 : Bytes → Bytes → Result
unfolding validate_cidr_v6_at find
validate_cidr_v6 value label = validate_cidr_v6_at value label (find b'/' value)

unfoldable pub validate_mtu : ℤ → Result
validate_mtu value =
    if within 576 65535 value then passed else failed (codes "MTU must be between 576 and 65535")
