-- ===== src/Config/Text.antt =====
-- `json_string` reads back a value that was written with JSON escapes.
use nospoon.Base.{
  ℕ, suc, ◌+◌, ◌≡◌, ◌≢◌, refl, sym, ap, ◌∙◌, ◌||◌, [], ◌∷◌, ◌++◌, append_assoc, some, arith, ◌==◌,
  if◌then◌else◌, length, length-append, take-length, Bytes,
}
use mathlib.Core.Option
use nospoon.Config.Json.{closing, unescape_char, unescape, read_text}

-- What `org.json` and other writers emit for a byte.
abbrev pub escape_char : ℕ → Bytes
escape_char c =
    if c == b'"' || c == b'\\' || c == b'/'
    then b'\\' ∷ c ∷ []
    else if c == 8
    then b'\\' ∷ b'b' ∷ []
    else if c == 12
    then b'\\' ∷ b'f' ∷ []
    else if c == b'\n'
    then b'\\' ∷ b'n' ∷ []
    else if c == b'\r'
    then b'\\' ∷ b'r' ∷ []
    else if c == b'\t'
    then b'\\' ∷ b't' ∷ []
    else c ∷ []

abbrev pub escape : Bytes → Bytes
escape [] = []
escape (c ∷ s) = escape_char c ++ escape s

pub closing_quote : (s : Bytes) → closing (b'"' ∷ s) ≡ some 0
unfolding closing
closing_quote [] = refl
closing_quote (d ∷ s) = refl

pub closing_plain :
    (c : ℕ) (s : Bytes) → c ≢ b'\\' → c ≢ b'"' → closing (c ∷ s) ≡ Option.map suc (closing s)
unfolding closing
closing_plain c [] h k = ground arith
closing_plain c (d ∷ s) h k = ground arith

closing_escaped :
    (d : ℕ) (s : Bytes) → closing (b'\\' ∷ d ∷ s) ≡ Option.map (λ i. i + 2) (closing s)
unfolding closing
closing_escaped d s = refl

pub unescape_plain : (c : ℕ) (s : Bytes) → c ≢ b'\\' → unescape (c ∷ s) ≡ c ∷ unescape s
unfolding unescape
unescape_plain c [] h = refl
unescape_plain c (d ∷ s) h = ground arith

unescape_escaped : (d : ℕ) (s : Bytes) → unescape (b'\\' ∷ d ∷ s) ≡ unescape_char d ∷ unescape s
unfolding unescape
unescape_escaped d s = refl

closing_step :
    (c : ℕ) (s : Bytes) (n : ℕ)
    → closing s ≡ some n
    → closing (escape_char c ++ s) ≡ some (length (escape_char c) + n)
closing_step c s n e = ground (
  arith,
  closing_plain c s,
  closing_escaped c s,
  closing_escaped b'b' s,
  closing_escaped b'f' s,
  closing_escaped b'n' s,
  closing_escaped b'r' s,
  closing_escaped b't' s,
)

unescape_step : (c : ℕ) (s : Bytes) → unescape (escape_char c ++ s) ≡ c ∷ unescape s
unfolding unescape_char
unescape_step c s = ground (
  arith,
  unescape_plain c s,
  unescape_escaped c s,
  unescape_escaped b'b' s,
  unescape_escaped b'f' s,
  unescape_escaped b'n' s,
  unescape_escaped b'r' s,
  unescape_escaped b't' s,
)

closing-escape : (v r : Bytes) → closing (escape v ++ (b'"' ∷ r)) ≡ some (length (escape v))
closing-escape [] r = closing_quote r
closing-escape (c ∷ v) r =
    rw append_assoc
      (closing_step c (escape v ++ (b'"' ∷ r)) (length (escape v)) (closing-escape v r))
    ∙ ap some (sym (length-append (escape_char c) (escape v)))

unescape-escape : (v : Bytes) → unescape (escape v) ≡ v
unescape-escape [] = unfold unescape in refl
unescape-escape (c ∷ v) = unescape_step c (escape v) ∙ ap (◌∷◌ c) (unescape-escape v)

pub read_text-escape : (v r : Bytes) → read_text (escape v ++ (b'"' ∷ r)) ≡ v
unfolding read_text
read_text-escape v r =
    rw (closing-escape v r, take-length (escape v) (b'"' ∷ r)) (unescape-escape v)
