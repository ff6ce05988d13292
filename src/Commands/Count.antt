-- ===== src/Commands/Count.antt =====
-- cpp/commands.cpp: the options of `init` and `addclient`. The arguments are those behind the
-- directory or the path.
use nospoon.Base.{
  ◌≡◌, refl, ℕ, ◌≤◌, true, false, List, [], ◌∷◌, Option, none, some, if◌then◌else◌, Bytes, codes,
  same, is_empty, is_digit, all, ◌==◌, arith, Bool-cases, inl, inr,
}
use nospoon.Base.Int.{ℤ, pos, negsuc, negate, is_c_space, within}
use nospoon.Base.Numerals.{read_digits}

abbrev pub signed : (ℕ → ℤ) → Bytes → Option ℤ
signed sign s =
    if is_empty s then none else if all is_digit s then some (sign (read_digits 0 s)) else none

unfoldable pub behind_spaces : Bytes → Option ℤ
unfolding read_digits
behind_spaces [] = none
behind_spaces (c ∷ s) =
    if is_c_space c
    then behind_spaces s
    else if c == b'-'
    then signed negate s
    else if c == b'+'
    then signed pos s
    else signed pos (c ∷ s)

-- `strtol` where it reads the whole text, else none. Of no text it gives 0. A number beyond `long`
-- is out of the range of a count either way.
unfoldable pub strtol : Bytes → Option ℤ
unfolding behind_spaces
strtol s = if is_empty s then some (pos 0) else behind_spaces s

-- The count that a text gives, none for an error.
abbrev pub count_of : Option ℤ → Option ℕ
count_of none = none
count_of (some (negsuc v)) = none
count_of (some (pos v)) = if within 1 253 (pos v) then some v else none

abbrev pub if_counted : Option ℕ → (ℕ → Option ℕ) → Option ℕ
if_counted none next = none
if_counted (some v) next = next v

-- `for (int i = start; i < argc - 1; i++)`: every -n is checked, the last one counts.
unfoldable pub parse_count : List Bytes → ℕ → Option ℕ
unfolding strtol same
parse_count [] n = some n
parse_count (a ∷ []) n = some n
parse_count (a ∷ b ∷ args) n =
    if same a (codes "-n")
    then if_counted (count_of (strtol b)) (parse_count (b ∷ args))
    else parse_count (b ∷ args) n

-- The argument behind the last one that is the option.
unfoldable pub last_option : Bytes → Option Bytes → List Bytes → Option Bytes
unfolding same
last_option name found [] = found
last_option name found (a ∷ []) = found
last_option name found (a ∷ b ∷ args) =
    last_option name (if same a name then some b else found) (b ∷ args)

count_of-bounds : (o : Option ℤ) {v : ℕ} → count_of o ≡ some v → (1 ≤ v) × (v ≤ 253)
count_of-bounds none h = absurd (cc)
count_of-bounds (some (negsuc k)) h = absurd (cc)
count_of-bounds (some (pos k)) h = ground arith

counted :
    (o : Option ℕ) (next : ℕ → Option ℕ) {v : ℕ}
    → if_counted o next ≡ some v
    → (w : ℕ) × (o ≡ some w) × (next w ≡ some v)
counted none next h = absurd (cc)
counted (some w) next h = (w, refl, h)

-- The count is in range if the one at the start is.
pub parse_count-bounds :
    (args : List Bytes) (n : ℕ) {v : ℕ}
    → (1 ≤ n) × (n ≤ 253)
    → parse_count args n ≡ some v
    → (1 ≤ v) × (v ≤ 253)
unfolding parse_count
parse_count-bounds [] n r h = ground arith
parse_count-bounds (a ∷ []) n r h = ground arith
parse_count-bounds (a ∷ b ∷ args) n {v} r h = elim (Bool-cases (same a (codes "-n"))) [
  | inl flag ↦
      let (w, one, rest) = counted (count_of (strtol b)) (parse_count (b ∷ args)) (flagged flag) in
      parse_count-bounds (b ∷ args) w (count_of-bounds (strtol b) one) rest
  | inr other ↦ parse_count-bounds (b ∷ args) n r (skipped other)
]
  where
    flagged :
        same a (codes "-n") ≡ true
        → if_counted (count_of (strtol b)) (parse_count (b ∷ args)) ≡ some v
    flagged flag = ground arith

    skipped : same a (codes "-n") ≡ false → parse_count (b ∷ args) n ≡ some v
    skipped other = ground arith
