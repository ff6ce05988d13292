-- ===== src/Config/Plain.antt =====
-- cpp/config.hpp: the readers on a text of keys and plain values, such as the program writes itself.
use nospoon.Base.{
  ◌≡◌, ◌≢◌, refl, sym, ap, ◌∙◌, ℕ, suc, ◌+◌, Bool, true, false, ◌&&◌, ◌||◌, [], ◌∷◌, ◌++◌, none,
  some, ◌==◌, if◌then◌else◌, Bytes, codes, length, length-append, take-length, all, arith,
  append_assoc, starts_with, append-nil, is_hex_digit, is_digit,
}
use mathlib.Core.Option
use nospoon.Config.Strip.{strip, outside, in_text, start, plain, strip-start, strip_text}
use nospoon.Config.Json.{
  find_key, find_key_from, is_key_at, quoted, closing, unescape, read_text, json_string, value_text,
}
use nospoon.Config.Text.{closing_plain, closing_quote, unescape_plain}
use nospoon.Config.Key.{
  NoQuote, find_key_from-skip, find_key_from_next, from_key, json_string-written,
}

-- The bytes of hex digits, addresses and numbers.
abbrev pub is_value : ℕ → Bool
is_value c = is_hex_digit c || c == b'.' || c == b':' || c == b'/'

abbrev pub IsValue : Bytes → Type 0
IsValue s = all is_value s ≡ true

value-NoQuote : (s : Bytes) → IsValue s → NoQuote s
value-NoQuote [] h = refl
value-NoQuote (c ∷ s) h = ground (arith, value-NoQuote s)

-- A value in a text is no comment, whatever it holds.
pub strip-value :
    (before : ℕ) (s r : Bytes)
    → IsValue s
    → (before == b'\\') ≡ false
    → strip (in_text before) (s ++ (b'"' ∷ r)) ≡ s ++ (b'"' ∷ strip outside r)
unfolding strip
strip-value before [] r h k = ground arith
strip-value before (c ∷ s) r h k = ground (arith, strip-value c s r)

start_plain : (c d : ℕ) → (c == b'"') ≡ false → (c == b'/') ≡ false → start c d ≡ plain
unfolding start
start_plain c d h k = ground arith

pub strip_plain_byte :
    (c d : ℕ) (s : Bytes)
    → (c == b'"') ≡ false
    → (c == b'/') ≡ false
    → strip outside (c ∷ d ∷ s) ≡ c ∷ strip outside (d ∷ s)
strip_plain_byte c d s h k = strip-start c d s (start_plain c d h k)

-- A value with its quotes.
pub strip-quoted :
    (v r : Bytes)
    → IsValue v
    → strip outside (b'"' ∷ (v ++ (b'"' ∷ r))) ≡ b'"' ∷ (v ++ (b'"' ∷ strip outside r))
strip-quoted v r h =
    strip_text b'"' (v ++ (b'"' ∷ r)) refl ∙ ap (◌∷◌ b'"') (strip-value b'"' v r h refl)

digit_apart : (c : ℕ) → is_digit c ≡ true → ((c == b'"') ≡ false) × ((c == b'/') ≡ false)
digit_apart c h = ground arith

-- Digits outside texts stay.
pub strip-digits :
    (s : Bytes) (d : ℕ) (r : Bytes)
    → all is_digit s ≡ true
    → strip outside (s ++ (d ∷ r)) ≡ s ++ strip outside (d ∷ r)
strip-digits [] d r h = refl
strip-digits (c ∷ []) d r h =
    let apart = digit_apart c (ground arith) in strip_plain_byte c d r apart.0 apart.1
strip-digits (c ∷ e ∷ s) d r h =
    let apart = digit_apart c (ground arith) in
    strip_plain_byte c e (s ++ (d ∷ r)) apart.0 apart.1
    ∙ ap (◌∷◌ c) (strip-digits (e ∷ s) d r (ground arith))

value_apart : (c : ℕ) → is_value c ≡ true → (c ≢ b'"') × (c ≢ b'\\')
value_apart c h = ground arith

closing-value : (s r : Bytes) → IsValue s → closing (s ++ (b'"' ∷ r)) ≡ some (length s)
closing-value [] r h = closing_quote r
closing-value (c ∷ s) r h =
    let apart = value_apart c (ground arith) in
    closing_plain c (s ++ (b'"' ∷ r)) apart.1 apart.0
    ∙ ap (Option.map suc) (closing-value s r (ground arith))

unescape-value : (s : Bytes) → IsValue s → unescape s ≡ s
unescape-value [] h = unfold unescape in refl
unescape-value (c ∷ s) h =
    unescape_plain c s (value_apart c (ground arith)).1
    ∙ ap (◌∷◌ c) (unescape-value s (ground arith))

pub read_text-value : (s r : Bytes) → IsValue s → read_text (s ++ (b'"' ∷ r)) ≡ s
unfolding read_text
read_text-value s r h = rw (closing-value s r h, take-length s (b'"' ∷ r)) (unescape-value s h)

-- Two texts differ at a place that both have.
unfoldable pub mismatch : Bytes → Bytes → Bool
mismatch [] t = false
mismatch (p ∷ ps) [] = false
mismatch (p ∷ ps) (c ∷ t) = if p == c then mismatch ps t else true

pub mismatch_lem : (p t r : Bytes) → mismatch p t ≡ true → starts_with p (t ++ r) ≡ false
unfolding mismatch starts_with
mismatch_lem [] t r h = absurd (cc)
mismatch_lem (p ∷ ps) [] r h = absurd (cc)
mismatch_lem (p ∷ ps) (c ∷ t) r h = ground (arith, mismatch_lem ps t r)

-- The pattern begins nowhere in the text, whatever follows.
unfoldable pub is_clear : Bytes → Bytes → Bool
unfolding mismatch
is_clear q [] = true
is_clear q (c ∷ s) = mismatch q (c ∷ s) && is_clear q s

not_prefix : (q s : Bytes) → starts_with q s ≡ false → is_key_at q s ≡ false
unfolding is_key_at
not_prefix q s h = rw h

pub clear-skips :
    (q s r : Bytes) (pos : ℕ)
    → is_clear q s ≡ true
    → find_key_from q pos (s ++ r) ≡ find_key_from q (pos + length s) r
unfolding is_clear
clear-skips q [] r pos h = ap (λ (n : ℕ). find_key_from q n r) (omega arith)
clear-skips q (c ∷ s) r pos h =
    find_key_from_next q pos c (s ++ r)
      (not_prefix q (c ∷ (s ++ r)) (mismatch_lem q (c ∷ s) r (ground arith)))
    ∙ clear-skips q s r (pos + 1) (ground arith)
    ∙ ap (λ (n : ℕ). find_key_from q n r) (omega arith)

-- A key with a byte that no value has.
abbrev pub IsWord : Bytes → Type 0
IsWord key = (all is_value key ≡ false) × NoQuote key

word_mismatch :
    (key v r : Bytes)
    → IsWord key
    → IsValue v
    → starts_with (key ++ (b'"' ∷ [])) (v ++ (b'"' ∷ r)) ≡ false
unfolding starts_with
word_mismatch [] v r w h = absurd (cc (w.0))
word_mismatch (k ∷ key) [] r w h = ground arith
word_mismatch (k ∷ key) (c ∷ v) r w h = ground (arith, word_mismatch key v r)

-- The search passes a value in quotes, up to its closing quote.
pub value-skips :
    (key v r : Bytes) (pos : ℕ)
    → IsWord key
    → IsValue v
    → find_key_from (quoted key) pos (b'"' ∷ (v ++ (b'"' ∷ r)))
      ≡ find_key_from (quoted key) (pos + 1 + length v) (b'"' ∷ r)
unfolding starts_with
value-skips key v r pos w h =
    find_key_from_next (quoted key) pos b'"' (v ++ (b'"' ∷ r))
      (not_prefix (quoted key) (b'"' ∷ (v ++ (b'"' ∷ r))) (word_mismatch key v r w h))
    ∙ find_key_from-skip v key (b'"' ∷ r) (pos + 1) (value-NoQuote v h)

-- A search for a key that begins in front of a text goes on behind it.
abbrev pub Skips : Bytes → Bytes → Type 0
Skips key s =
    (r : Bytes) (pos : ℕ)
    → find_key_from (quoted key) pos (s ++ r) ≡ find_key_from (quoted key) (pos + length s) r

pub clear-Skips : (key s : Bytes) → is_clear (quoted key) s ≡ true → Skips key s
clear-Skips key s h r pos = clear-skips (quoted key) s r pos h

pub append-Skips : (key s t : Bytes) → Skips key s → Skips key t → Skips key (s ++ t)
append-Skips key s t h k r pos =
    ap (find_key_from (quoted key) pos) (append_assoc s t r)
    ∙ (h (t ++ r) pos
        ∙ (k r (pos + length s)
            ∙ ap (λ (n : ℕ). find_key_from (quoted key) n r) (omega (arith, length-append s t))))

-- A value in quotes and what stands up to the next one.
abbrev pub field : Bytes → Bytes → Bytes
field v chunk = b'"' ∷ (v ++ (b'"' ∷ chunk))

pub field-Skips :
    (key v chunk : Bytes)
    → IsWord key
    → IsValue v
    → is_clear (quoted key) (b'"' ∷ chunk) ≡ true
    → Skips key (field v chunk)
field-Skips key v chunk w h c r pos =
    ap (λ (s : Bytes). find_key_from (quoted key) pos (b'"' ∷ s)) (append_assoc v (b'"' ∷ chunk) r)
    ∙ (value-skips key v (chunk ++ r) pos w h
        ∙ (clear-skips (quoted key) (b'"' ∷ chunk) r (pos + 1 + length v) c
            ∙ ap (λ (n : ℕ). find_key_from (quoted key) n r)
                (omega (arith, length-append v (b'"' ∷ chunk)))))

pub digits-Skips : (key s : Bytes) → all is_digit s ≡ true → Skips key s
digits-Skips key s h r pos = find_key_from-skip s key r pos (digits-NoQuote s h)
  where
    digits-NoQuote : (s : Bytes) → all is_digit s ≡ true → NoQuote s
    digits-NoQuote [] h = refl
    digits-NoQuote (c ∷ s) h = ground (arith, digits-NoQuote s)

-- A key that a text does not have.
pub find_key-Skips : (key s : Bytes) → Skips key s → find_key s key ≡ none
unfolding find_key find_key_from
find_key-Skips key s h = ap (find_key_from (quoted key) 0) (sym (append-nil s)) ∙ h [] 0

-- A value of a key.
pub json_string-value :
    (pre key v rest : Bytes)
    → Skips key pre
    → read_text (v ++ (b'"' ∷ rest)) ≡ v
    → json_string (pre ++ (quoted key ++ (codes ": " ++ (b'"' ∷ (v ++ (b'"' ∷ rest)))))) key ≡ v
json_string-value pre key v rest h e =
    json_string-written pre key [] (codes " ") v rest (h (from_key pre key [] (codes " ") v rest) 0)
      refl refl
    ∙ e

pub json_string-absent : (json key : Bytes) → find_key json key ≡ none → json_string json key ≡ []
unfolding json_string
json_string-absent json key h = ap (value_text json) h
