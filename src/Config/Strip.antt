-- ===== src/Config/Strip.antt =====
-- cpp/config.hpp: `strip_comments`. The place in the loop is a mode; a text's own state holds the
-- byte before, `input[i - 1]`.
use nospoon.Base.{
  ℕ, ◌≡◌, refl, ap, ◌∙◌, true, false, not, ◌&&◌, [], ◌∷◌, arith, ◌==◌, if◌then◌else◌, Bytes, all,
}

pub data Mode : Type 0 where
  outside : Mode
  in_text : ℕ → Mode
  in_line : Mode
  in_block : Mode

-- How the byte `c` in front of `d` reads outside texts and comments.
pub data Start : Type 0 where
  text line block plain : Start

unfoldable pub start : ℕ → ℕ → Start
start c d =
    if c == b'"'
    then text
    else if c == b'/' && d == b'/'
    then line
    else if c == b'/' && d == b'*'
    then block
    else plain

-- A quote ends a text unless a backslash stands before it.
abbrev pub text_step : ℕ → ℕ → Mode
text_step before c = if c == b'"' && not (before == b'\\') then outside else in_text c

unfoldable pub strip : Mode → Bytes → Bytes
unfolding start
strip m [] = []
strip (in_text before) (c ∷ s) = c ∷ strip (text_step before c) s
strip in_line (c ∷ s) = strip (if c == b'\n' then outside else in_line) s
strip in_block (c ∷ []) = []
strip in_block (c ∷ d ∷ s) = elim (c == b'*' && d == b'/') [
  | true ↦ strip outside s
  | false ↦ strip in_block (d ∷ s)
]
strip outside (c ∷ []) = c ∷ []
strip outside (c ∷ d ∷ s) = elim (start c d) [
  | text ↦ c ∷ strip (in_text c) (d ∷ s)
  | line ↦ strip in_line s
  | block ↦ strip in_block s
  | plain ↦ c ∷ strip outside (d ∷ s)
]

unfoldable pub strip_comments : Bytes → Bytes
unfolding strip
strip_comments = strip outside

abbrev again : Mode → Mode
again (in_text before) = in_text before
again _ = outside

-- What is left begins with the byte that stood behind a slash, if no comment starts there.
abbrev HeadIs : ℕ → Bytes → Type 0
HeadIs d [] = ⊥
HeadIs d (x ∷ _) = x ≡ d

strip-HeadIs : (d : ℕ) (s : Bytes) → (d == b'/') ≡ false → HeadIs d (strip outside (d ∷ s))
unfolding strip
strip-HeadIs d [] h = refl
strip-HeadIs d (e ∷ s) h = ground arith

strip_plain :
    (c d : ℕ) (out : Bytes)
    → start c d ≡ plain
    → ((d == b'/') ≡ false → HeadIs d out)
    → strip outside (c ∷ out) ≡ c ∷ strip outside out
unfolding strip
strip_plain c d [] p h = refl
strip_plain c d (x ∷ out) p h = ground arith

start-text : (c d : ℕ) → start c d ≡ text → c ≡ b'"'
unfolding start
start-text c d h = ground arith

pub strip_text : (c : ℕ) (s : Bytes) → c ≡ b'"' → strip outside (c ∷ s) ≡ c ∷ strip (in_text c) s
unfolding strip
strip_text c [] e = refl
strip_text c (d ∷ s) e = ground arith

abbrev pub taken : Start → ℕ → ℕ → Bytes → Bytes
taken text c d s = c ∷ strip (in_text c) (d ∷ s)
taken line c d s = strip in_line s
taken block c d s = strip in_block s
taken plain c d s = c ∷ strip outside (d ∷ s)

pub strip-start :
    (c d : ℕ) (s : Bytes) {k : Start} → start c d ≡ k → strip outside (c ∷ d ∷ s) ≡ taken k c d s
unfolding strip
strip-start c d s {k} e = ground arith

strip_outside :
    (c d : ℕ) (s : Bytes) (k : Start)
    → start c d ≡ k
    → strip (in_text c) (strip (in_text c) (d ∷ s)) ≡ strip (in_text c) (d ∷ s)
    → strip outside (strip in_line s) ≡ strip in_line s
    → strip outside (strip in_block s) ≡ strip in_block s
    → strip outside (strip outside (d ∷ s)) ≡ strip outside (d ∷ s)
    → strip outside (strip outside (c ∷ d ∷ s)) ≡ strip outside (c ∷ d ∷ s)
strip_outside c d s text e t l b o =
    rw (strip-start c d s e) (strip_text c _ (start-text c d e) ∙ ap (◌∷◌ c) t)
strip_outside c d s line e t l b o = rw (strip-start c d s e) l
strip_outside c d s block e t l b o = rw (strip-start c d s e) b
strip_outside c d s plain e t l b o =
    rw (strip-start c d s e)
      (strip_plain c d (strip outside (d ∷ s)) e (strip-HeadIs d s) ∙ ap (◌∷◌ c) o)

strip-strip : (m : Mode) (s : Bytes) → strip (again m) (strip m s) ≡ strip m s
unfolding strip
strip-strip outside [] = refl
strip-strip (in_text b) [] = refl
strip-strip in_line [] = refl
strip-strip in_block [] = refl
strip-strip (in_text before) (c ∷ s) =
    ground (arith, strip-strip outside s, strip-strip (in_text c) s)
strip-strip in_line (c ∷ s) = ground (arith, strip-strip outside s, strip-strip in_line s)
strip-strip in_block (c ∷ []) = refl
strip-strip in_block (c ∷ d ∷ s) =
    ground (arith, strip-strip outside s, strip-strip in_block (d ∷ s))
strip-strip outside (c ∷ []) = refl
strip-strip outside (c ∷ d ∷ s) =
    strip_outside c d s (start c d) refl (strip-strip (in_text c) (d ∷ s)) (strip-strip in_line s)
      (strip-strip in_block s) (strip-strip outside (d ∷ s))

-- Text with its comments stripped has none left: stripping it again changes nothing.
pub strip_comments_idem : (s : Bytes) → strip_comments (strip_comments s) ≡ strip_comments s
unfolding strip_comments
strip_comments_idem s = strip-strip outside s

abbrev NoQuote : Bytes → Type 0
NoQuote s = all (λ c. if c == b'"' then false else true) s ≡ true
