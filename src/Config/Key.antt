-- ===== src/Config/Key.antt =====
-- `find_key` finds a key, and the value behind it.
use nospoon.Base.{
  ℕ, ◌+◌, ◌≡◌, ◌≢◌, refl, ap, ◌∙◌, true, false, [], ◌∷◌, ◌++◌, append_assoc, some, arith, ◌==◌,
  if◌then◌else◌, length, length-append, drop, drop-length, all, Bytes, find, find_from, starts_with,
  is_space,
}
use nospoon.Config.Json.{
  spaces, is_key_at, find_key_from, quoted, find_key, text_at, value_text, json_string, read_text,
}
use nospoon.Config.Text.{escape, read_text-escape}

abbrev pub NoByte : ℕ → Bytes → Type 0
NoByte b s = all (λ c. if c == b then false else true) s ≡ true

abbrev pub NoQuote : Bytes → Type 0
NoQuote = NoByte b'"'

abbrev pub AllSpaces : Bytes → Type 0
AllSpaces s = all is_space s ≡ true

pub starts_with-append : (p s : Bytes) → starts_with p (p ++ s) ≡ true
unfolding starts_with
starts_with-append [] s = refl
starts_with-append (x ∷ p) s = ground (arith, starts_with-append p s)

spaces-append : (ws s : Bytes) → AllSpaces ws → spaces (ws ++ (b':' ∷ s)) ≡ length ws
unfolding spaces
spaces-append [] s h = refl
spaces-append (c ∷ ws) s h = ground (arith, spaces-append ws s)

pub find-skip : (b : ℕ) (xs s : Bytes) → NoByte b xs → find b (xs ++ (b ∷ s)) ≡ some (length xs)
unfolding find
find-skip b [] s h = ground arith
find-skip b (c ∷ xs) s h = ground (arith, find-skip b xs s)

pub drop_prefix : (n : ℕ) (xs s json : Bytes) → json ≡ xs ++ s → n ≡ length xs → drop n json ≡ s
drop_prefix n xs s json e h = rw (e, h) (drop-length xs s)

pub not_key : (c : ℕ) (key s : Bytes) → c ≢ b'"' → is_key_at (quoted key) (c ∷ s) ≡ false
unfolding is_key_at
not_key c key s h = ground arith

pub find_key_from_next :
    (pattern : Bytes) (pos c : ℕ) (s : Bytes)
    → is_key_at pattern (c ∷ s) ≡ false
    → find_key_from pattern pos (c ∷ s) ≡ find_key_from pattern (pos + 1) s
unfolding find_key_from
find_key_from_next pattern pos c s h = rw h

pub find_key_from-skip :
    (pre key s : Bytes) (pos : ℕ)
    → NoQuote pre
    → find_key_from (quoted key) pos (pre ++ s) ≡ find_key_from (quoted key) (pos + length pre) s
find_key_from-skip [] key s pos h = ap (λ (n : ℕ). find_key_from (quoted key) n s) (omega arith)
find_key_from-skip (c ∷ pre) key s pos h =
    find_key_from_next (quoted key) pos c (pre ++ s) (not_key c key (pre ++ s) (ground arith))
    ∙ find_key_from-skip pre key s (pos + 1) (ground arith)
    ∙ ap (λ (n : ℕ). find_key_from (quoted key) n s) (omega arith)

module _ (key ws s : Bytes) (blank : AllSpaces ws) where
  key_here : is_key_at (quoted key) (quoted key ++ (ws ++ (b':' ∷ s))) ≡ true
  unfolding is_key_at
  key_here = rw (
    starts_with-append (quoted key) (ws ++ (b':' ∷ s)),
    drop-length (quoted key) (ws ++ (b':' ∷ s)),
    spaces-append ws s blank,
    drop-length ws (b':' ∷ s),
  )

  pub find_key_from-here :
      (pos : ℕ)
      → find_key_from (quoted key) pos (quoted key ++ (ws ++ (b':' ∷ s)))
        ≡ some (pos + length (quoted key) + length ws + 1)
  unfolding find_key_from
  find_key_from-here pos =
      rw (key_here, drop-length (quoted key) (ws ++ (b':' ∷ s)), spaces-append ws s blank)

-- A text behind its key: `pre` stands before the key, blanks may stand before the colon, and anything
-- without a quote behind it.
module _ (pre key ws gap body rest : Bytes) where
  abbrev pub from_key : Bytes
  from_key = quoted key ++ (ws ++ (b':' ∷ (gap ++ (b'"' ∷ (body ++ (b'"' ∷ rest))))))

  abbrev pub written : Bytes
  written = pre ++ from_key

  abbrev up_to_colon : Bytes
  up_to_colon = pre ++ (quoted key ++ (ws ++ (b':' ∷ [])))

  abbrev up_to_quote : Bytes
  up_to_quote = up_to_colon ++ (gap ++ (b'"' ∷ []))

  length_colon : length up_to_colon ≡ length pre + length (quoted key) + length ws + 1
  length_colon = omega (
    arith,
    length-append pre (quoted key ++ (ws ++ (b':' ∷ []))),
    length-append (quoted key) (ws ++ (b':' ∷ [])),
    length-append ws (b':' ∷ []),
  )

  length_quote : length up_to_quote ≡ length up_to_colon + length gap + 1
  length_quote =
      omega (arith, length-append up_to_colon (gap ++ (b'"' ∷ [])), length-append gap (b'"' ∷ []))

  -- The search does not stop before the key.
  abbrev pub Reaches : Type 0
  Reaches =
      find_key_from (quoted key) 0 written ≡ find_key_from (quoted key) (0 + length pre) from_key

  find_key-written : Reaches → AllSpaces ws → find_key written key ≡ some (length up_to_colon)
  unfolding find_key
  find_key-written h blank =
      h ∙ find_key_from-here key ws _ blank (0 + length pre) ∙ ap some (omega (arith, length_colon))

  quote_place :
      NoQuote gap
      → find_from b'"' (length up_to_colon) written ≡ some (length up_to_colon + length gap)
  unfolding find_from
  quote_place free = rw (
    drop_prefix (length up_to_colon) up_to_colon (gap ++ (b'"' ∷ (body ++ (b'"' ∷ rest)))) written
        (simp append_assoc) refl,
    find-skip b'"' gap (body ++ (b'"' ∷ rest)) free,
  )

  text_written :
      text_at written (some (length up_to_colon + length gap)) ≡ read_text (body ++ (b'"' ∷ rest))
  text_written = ap read_text (
      drop_prefix (length up_to_colon + length gap + 1) up_to_quote (body ++ (b'"' ∷ rest)) written
        (simp append_assoc) (omega (arith, length_quote)))

  pub json_string-written :
      Reaches
      → AllSpaces ws
      → NoQuote gap
      → json_string written key ≡ read_text (body ++ (b'"' ∷ rest))
  unfolding json_string
  json_string-written h blank free =
      ap (value_text written) (find_key-written h blank)
      ∙ ap (text_at written) (quote_place free)
      ∙ text_written

module _ (pre key ws gap v rest : Bytes) where
  -- A value written with its escapes behind its key is read back, whatever the bytes of key and
  -- value: blanks may stand before the colon, and no quote stands before the key or between colon
  -- and value.
  pub json_string-escape :
      NoQuote pre
      → AllSpaces ws
      → NoQuote gap
      → json_string (written pre key ws gap (escape v) rest) key ≡ v
  json_string-escape h blank free =
      json_string-written pre key ws gap (escape v) rest
        (find_key_from-skip pre key (from_key pre key ws gap (escape v) rest) 0 h) blank free
      ∙ read_text-escape v rest
