-- ===== src/Config/Hex.antt =====
-- cpp/config.hpp: `hex_to_bytes` and `bytes_to_hex`.
use nospoon.Base.{
  ℕ, zero, suc, ◌+◌, ◌-◌, ◌*◌, ◌/◌, ◌%◌, ◌<◌, ◌≡◌, refl, ap, ◌∙◌, Bool, true, not, ◌&&◌, [], ◌∷◌,
  Option, none, some, arith, leb, ◌==◌, if◌then◌else◌, length, drop, all, All, Bytes, is_digit,
  is_hex_digit,
}
use nospoon.Base.Numerals.{digit_char}
use nospoon.Validation.{validate_hex64}

unfoldable pub hex_value : ℕ → ℕ
hex_value c = if is_digit c then c - b'0' else if leb b'a' c then c - b'a' + 10 else c - b'A' + 10

-- `sscanf` with "%02x" at the front of the text: one or two hex digits. (Before the digits `sscanf`
-- would also skip blanks and take a sign or "0x"; no such text passes `validate_hex64`.)
unfoldable pub scan_byte : Bytes → Option ℕ
unfolding hex_value
scan_byte [] = none
scan_byte (a ∷ []) = if is_hex_digit a then some (hex_value a) else none
scan_byte (a ∷ b ∷ _) =
    if not (is_hex_digit a)
    then none
    else if is_hex_digit b
    then some (hex_value a * 16 + hex_value b)
    else some (hex_value a)

abbrev cons_byte : Option ℕ → Option Bytes → Option Bytes
cons_byte none r = none
cons_byte (some b) none = none
cons_byte (some b) (some bs) = some (b ∷ bs)

unfoldable pub scan_bytes : ℕ → Bytes → Option Bytes
unfolding scan_byte
scan_bytes zero s = some []
scan_bytes (suc n) s = cons_byte (scan_byte s) (scan_bytes n (drop 2 s))

-- The bytes of `out`, or `none` for `false`.
unfoldable pub hex_to_bytes : Bytes → ℕ → Option Bytes
unfolding scan_bytes
hex_to_bytes hex len = if not (length hex == len * 2) then none else scan_bytes len hex

-- "%02x" of each byte
unfoldable pub bytes_to_hex : Bytes → Bytes
unfolding digit_char
bytes_to_hex [] = []
bytes_to_hex (b ∷ bs) = digit_char (b / 16) ∷ digit_char (b % 16) ∷ bytes_to_hex bs

abbrev pub IsByte : ℕ → Type 0
IsByte b = b < 256

pub length-bytes_to_hex : (bs : Bytes) → length (bytes_to_hex bs) ≡ length bs * 2
unfolding bytes_to_hex
length-bytes_to_hex [] = refl
length-bytes_to_hex (b ∷ bs) = omega (arith, length-bytes_to_hex bs)

digit_hex : (d : ℕ) → d < 16 → (is_hex_digit (digit_char d) ≡ true) × (hex_value (digit_char d) ≡ d)
unfolding digit_char hex_value
digit_hex d h = ground arith

scan_byte-digits :
    (b : ℕ) (s : Bytes)
    → b < 256
    → scan_byte (digit_char (b / 16) ∷ digit_char (b % 16) ∷ s) ≡ some b
unfolding scan_byte
scan_byte-digits b s h =
    let hi = digit_hex (b / 16) (omega arith) in
    let lo = digit_hex (b % 16) (omega arith) in rw (hi.0, lo.0, hi.1, lo.1) (ap some (omega arith))

scan_step :
    (n a b : ℕ) (s : Bytes) {x : ℕ} {bs : Bytes}
    → scan_byte (a ∷ b ∷ s) ≡ some x
    → scan_bytes n s ≡ some bs
    → scan_bytes (suc n) (a ∷ b ∷ s) ≡ some (x ∷ bs)
unfolding scan_bytes
scan_step n a b s e h = rw (e, h)

scan_bytes-bytes_to_hex :
    (bs : Bytes) → All IsByte bs → scan_bytes (length bs) (bytes_to_hex bs) ≡ some bs
unfolding bytes_to_hex
scan_bytes-bytes_to_hex [] h = unfold scan_bytes in refl
scan_bytes-bytes_to_hex (b ∷ bs) h =
    let ih = scan_bytes-bytes_to_hex bs h.1 in
    let e = scan_byte-digits b (bytes_to_hex bs) h.0 in
    scan_step (length bs) (digit_char (b / 16)) (digit_char (b % 16)) (bytes_to_hex bs) e ih

sized_scan :
    (hex : Bytes) (len : ℕ) → length hex ≡ len * 2 → hex_to_bytes hex len ≡ scan_bytes len hex
unfolding hex_to_bytes
sized_scan hex len h = ground arith

-- Bytes, numbers below 256, that are printed in hex are read back.
pub hex_to_bytes-bytes_to_hex :
    (bs : Bytes) → All IsByte bs → hex_to_bytes (bytes_to_hex bs) (length bs) ≡ some bs
hex_to_bytes-bytes_to_hex bs h =
    sized_scan (bytes_to_hex bs) (length bs) (length-bytes_to_hex bs) ∙ scan_bytes-bytes_to_hex bs h

bytes_to_hex-all : (bs : Bytes) → All IsByte bs → all is_hex_digit (bytes_to_hex bs) ≡ true
unfolding bytes_to_hex
bytes_to_hex-all [] h = refl
bytes_to_hex-all (b ∷ bs) h =
    rw ((digit_hex (b / 16) (omega arith)).0, (digit_hex (b % 16) (omega arith)).0)
      (bytes_to_hex-all bs h.1)

-- 32 bytes printed in hex pass the check of seeds and keys.
pub validate_hex64-bytes_to_hex :
    (bs label : Bytes)
    → All IsByte bs
    → length bs ≡ 32
    → (validate_hex64 (bytes_to_hex bs) label).valid ≡ true
unfolding validate_hex64
validate_hex64-bytes_to_hex bs label h l =
    ground (arith, length-bytes_to_hex bs, bytes_to_hex-all bs h)

and_parts : (x y z : Bool) → (x && (y && z)) ≡ true → (x ≡ true) × (y ≡ true) × (z ≡ true)
and_parts x y z h = ground arith

hex_value-lt : (c : ℕ) → is_hex_digit c ≡ true → hex_value c < 16
unfolding hex_value
hex_value-lt c h = ground arith

scan_byte-hex :
    (a b : ℕ) (s : Bytes)
    → is_hex_digit a ≡ true
    → is_hex_digit b ≡ true
    → scan_byte (a ∷ b ∷ s) ≡ some (hex_value a * 16 + hex_value b)
unfolding scan_byte
scan_byte-hex a b s h k = rw (h, k)

scan_hex :
    (n : ℕ) (hex : Bytes)
    → length hex ≡ n * 2
    → all is_hex_digit hex ≡ true
    → (bs : Bytes) × (scan_bytes n hex ≡ some bs) × (length bs ≡ n) × All IsByte bs
scan_hex zero hex l h = ([], unfold scan_bytes in refl, refl, tt)
scan_hex (suc n) [] l h = absurd (omega arith)
scan_hex (suc n) (a ∷ []) l h = absurd (omega arith)
scan_hex (suc n) (a ∷ b ∷ s) l h =
    let (ha, hb, hs) = parts in
    let (bs, e, k, small) = scan_hex n s (omega arith) hs in
    (
      (hex_value a * 16 + hex_value b) ∷ bs,
      scan_step n a b s (scan_byte-hex a b s ha hb) e,
      omega arith,
      (omega (arith, hex_value-lt a ha, hex_value-lt b hb), small),
    )
  where
    parts : (is_hex_digit a ≡ true) × (is_hex_digit b ≡ true) × (all is_hex_digit s ≡ true)
    parts = and_parts (is_hex_digit a) (is_hex_digit b) (all is_hex_digit s) h

pub hex64_parts :
    (hex label : Bytes)
    → (validate_hex64 hex label).valid ≡ true
    → (length hex ≡ 64) × (all is_hex_digit hex ≡ true)
unfolding validate_hex64
hex64_parts hex label h = ground arith

-- Every text that passes the check of seeds and keys is read as 32 bytes.
pub hex_to_bytes-validate_hex64 :
    (hex label : Bytes)
    → (validate_hex64 hex label).valid ≡ true
    → (bs : Bytes) × (hex_to_bytes hex 32 ≡ some bs) × (length bs ≡ 32) × All IsByte bs
hex_to_bytes-validate_hex64 hex label h =
    let (l, digits) = hex64_parts hex label h in
    let (bs, e, k, small) = scan_hex 32 hex (omega arith) digits in
    (bs, sized_scan hex 32 (omega arith) ∙ e, k, small)
