-- ===== src/Validation/Scan.antt =====
-- Texts of digits: what the pattern, `atoi` and `sscanf` read of them.
use nospoon.Base.{
  ℕ, ◌+◌, ◌-◌, ◌*◌, ◌≤◌, ◌≡◌, refl, ap, ◌∙◌, Bool, true, false, [], ◌∷◌, ◌++◌, arith, ◌==◌,
  if◌then◌else◌, length, all, Bytes, is_digit, some, find,
}
use nospoon.Base.Int.{pos, atoi}
use nospoon.Base.Numerals.{read_digits}
use nospoon.Validation.{leading_digits, after_digits, match_digits, match_char, match_end}

abbrev pub AllDigits : Bytes → Type 0
AllDigits s = all is_digit s ≡ true

-- A rest that does not go on with a digit.
abbrev pub Stops : Bytes → Type 0
Stops [] = Unit {0}
Stops (c ∷ _) = is_digit c ≡ false

pub leading-append-after : (s : Bytes) → leading_digits s ++ after_digits s ≡ s
unfolding leading_digits after_digits
leading-append-after [] = refl
leading-append-after (c ∷ s) = ground (arith, leading-append-after s)

pub leading_digits-AllDigits : (s : Bytes) → AllDigits (leading_digits s)
unfolding leading_digits
leading_digits-AllDigits [] = refl
leading_digits-AllDigits (c ∷ s) = ground (arith, leading_digits-AllDigits s)

pub after_digits-Stops : (s : Bytes) → Stops (after_digits s)
unfolding after_digits
after_digits-Stops [] = tt
after_digits-Stops (c ∷ s) = ground (arith, after_digits-Stops s)

pub leading_digits-append : (ds r : Bytes) → AllDigits ds → Stops r → leading_digits (ds ++ r) ≡ ds
unfolding leading_digits
leading_digits-append [] [] h s = refl
leading_digits-append [] (c ∷ r) h s = rw s
leading_digits-append (d ∷ ds) r h s = ground (arith, leading_digits-append ds r)

pub after_digits-append : (ds r : Bytes) → AllDigits ds → Stops r → after_digits (ds ++ r) ≡ r
unfolding after_digits
after_digits-append [] [] h s = refl
after_digits-append [] (c ∷ r) h s = rw s
after_digits-append (d ∷ ds) r h s = ground (arith, after_digits-append ds r)

pub read_digits-append :
    (acc : ℕ) (ds r : Bytes)
    → AllDigits ds
    → Stops r
    → read_digits acc (ds ++ r) ≡ read_digits acc ds
unfolding read_digits
read_digits-append acc [] [] h s = refl
read_digits-append acc [] (c ∷ r) h s = rw s
read_digits-append acc (d ∷ ds) r h s =
    ground (arith, read_digits-append (acc * 10 + (d - b'0')) ds r)

atoi-digit : (d : ℕ) (s : Bytes) → is_digit d ≡ true → atoi (d ∷ s) ≡ pos (read_digits 0 (d ∷ s))
unfolding atoi
atoi-digit d s h = ground arith

-- `atoi` reads the digits in front.
pub atoi-append :
    (ds r : Bytes)
    → 1 ≤ length ds
    → AllDigits ds
    → Stops r
    → atoi (ds ++ r) ≡ pos (read_digits 0 ds)
atoi-append [] r l h s = absurd (omega arith)
atoi-append (d ∷ ds) r l h s =
    atoi-digit d (ds ++ r) (ground arith) ∙ ap pos (read_digits-append 0 (d ∷ ds) r h s)

pub match_digits-true :
    (most : ℕ) (k : Bytes → Bool) (s : Bytes)
    → match_digits most k s ≡ true
    → (1 ≤ length (leading_digits s))
      × (length (leading_digits s) ≤ most)
      × (k (after_digits s) ≡ true)
unfolding match_digits
match_digits-true most k s h = ground arith

pub match_char-true :
    (c : ℕ) (k : Bytes → Bool) (s : Bytes)
    → match_char c k s ≡ true
    → (r : Bytes) × (s ≡ c ∷ r) × (k r ≡ true)
unfolding match_char
match_char-true c k [] h = cc
match_char-true c k (x ∷ r) h = (r, ground arith, ground arith)

pub match_end-true : (s : Bytes) → match_end s ≡ true → s ≡ []
unfolding match_end
match_end-true [] h = refl
match_end-true (x ∷ s) h = cc

pub match_digits-append :
    (most : ℕ) (k : Bytes → Bool) (ds r : Bytes)
    → AllDigits ds
    → Stops r
    → 1 ≤ length ds
    → length ds ≤ most
    → match_digits most k (ds ++ r) ≡ k r
unfolding match_digits
match_digits-append most k ds r h s lo hi =
    rw (leading_digits-append ds r h s, after_digits-append ds r h s) (ground arith)

pub match_char-cons : (c : ℕ) (k : Bytes → Bool) (r : Bytes) → match_char c k (c ∷ r) ≡ k r
unfolding match_char
match_char-cons c k r = ground arith

-- The first slash stands behind a text that has none.
pub find-append :
    (c : ℕ) (xs r : Bytes)
    → all (λ x. if x == c then false else true) xs ≡ true
    → find c (xs ++ (c ∷ r)) ≡ some (length xs)
unfolding find
find-append c [] r h = ground arith
find-append c (x ∷ xs) r h = ground (arith, find-append c xs r)
