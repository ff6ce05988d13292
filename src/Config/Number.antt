-- ===== src/Config/Number.antt =====
-- cpp/config.hpp: a number behind its key, read by `json_int`.
use nospoon.Base.{
  ◌≡◌, refl, ap, ◌∙◌, ℕ, ◌+◌, true, [], ◌∷◌, ◌++◌, some, Bytes, length, length-append, drop, all,
  arith, append_assoc, is_digit, ◌-◌, ◌*◌,
}
use nospoon.Config.Json.{find_key, quoted, json_int, int_at, skip_blanks}
use nospoon.Base.Int.{ℤ, pos, atoi, read_signed}
use nospoon.Base.Numerals.{read_digits}
use nospoon.Config.Key.{drop_prefix, find_key_from-here}
use nospoon.Config.Plain.{Skips}

ends-digits :
    (acc : ℕ) (s r : Bytes)
    → all is_digit s ≡ true
    → read_digits acc (s ++ (b'\n' ∷ r)) ≡ read_digits acc s
unfolding read_digits
ends-digits acc [] r h = refl
ends-digits acc (x ∷ s) r h = ground (arith, ends-digits (acc * 10 + (x - b'0')) s r)

digit_read : (c : ℕ) (s : Bytes) → is_digit c ≡ true → atoi (c ∷ s) ≡ pos (read_digits 0 (c ∷ s))
unfolding atoi read_signed
digit_read c s h = ground arith

digit_no_blank : (c : ℕ) (s : Bytes) → is_digit c ≡ true → skip_blanks (c ∷ s) ≡ c ∷ s
unfolding skip_blanks
digit_no_blank c s h = ground arith

blank_skipped : (s : Bytes) → skip_blanks (b' ' ∷ s) ≡ skip_blanks s
unfolding skip_blanks
blank_skipped s = refl

-- A number behind its key, and a line's end behind that.
number_read :
    (c : ℕ) (s r : Bytes)
    → all is_digit (c ∷ s) ≡ true
    → atoi (skip_blanks (b' ' ∷ c ∷ (s ++ (b'\n' ∷ r)))) ≡ pos (read_digits 0 (c ∷ s))
number_read c s r h =
    ap atoi
      (blank_skipped (c ∷ (s ++ (b'\n' ∷ r))) ∙ digit_no_blank c (s ++ (b'\n' ∷ r)) (ground arith))
    ∙ (digit_read c (s ++ (b'\n' ∷ r)) (ground arith) ∙ ap pos (ends-digits 0 (c ∷ s) r h))

module _ (pre key : Bytes) (c : ℕ) (s r : Bytes) (h : Skips key pre)
    (digits : all is_digit (c ∷ s) ≡ true) (fallback : ℤ) where
  abbrev tail : Bytes
  tail = b' ' ∷ c ∷ (s ++ (b'\n' ∷ r))

  abbrev json : Bytes
  json = pre ++ (quoted key ++ (b':' ∷ tail))

  abbrev colon : Bytes
  colon = pre ++ (quoted key ++ (b':' ∷ []))

  length-colon : 0 + length pre + length (quoted key) + 0 + 1 ≡ length colon
  length-colon =
      omega (
        arith,
        length-append pre (quoted key ++ (b':' ∷ [])),
        length-append (quoted key) (b':' ∷ []),
      )

  key_found : find_key json key ≡ some (length colon)
  unfolding find_key
  key_found =
      h (quoted key ++ (b':' ∷ tail)) 0
      ∙ (find_key_from-here key [] tail refl (0 + length pre) ∙ ap some length-colon)

  behind_colon : drop (length colon) json ≡ tail
  behind_colon = drop_prefix (length colon) colon tail json (simp append_assoc) refl

  pub json_int-digits : json_int json key fallback ≡ pos (read_digits 0 (c ∷ s))
  unfolding json_int
  json_int-digits =
      ap (int_at json fallback) key_found
      ∙ (ap (λ (t : Bytes). atoi (skip_blanks t)) behind_colon ∙ number_read c s r digits)
