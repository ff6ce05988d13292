-- ===== src/Commands/Names.antt =====
-- cpp/commands.cpp: the names of client files, and the search for one that is free.
use nospoon.Base.{
  ◌≡◌, refl, sym, ap, subst, ◌∙◌, ℕ, zero, suc, ◌+◌, ◌-◌, ◌*◌, ◌/◌, ◌%◌, ◌≤◌, ◌<◌, Bool, true,
  false, [], ◌∷◌, ◌++◌, Option, none, some, if◌then◌else◌, Bytes, codes, length, ltb, replicate,
  drop, drop-length, same, same_iff, all, is_digit, append_assoc, arith, Bool-cases, ◌⊎◌, inl, inr,
}
use nospoon.Base.Dict
use nospoon.Base.Dict.{Dict, get, Distinct, get-erase, erase-Distinct}
use nospoon.Base.Numerals.{decimal, print_fuel, digit_char, read_digits}
use nospoon.Commands.{client_name}

-- `dir + "/" + client_name(i) + ".jsonc"`
unfoldable pub file_name : Bytes → ℕ → Bytes
unfolding client_name
file_name dir i = dir ++ (b'/' ∷ (client_name i ++ codes ".jsonc"))

-- `std::ifstream(name).good()`: the program may read what is there.
abbrev pub is_there : Option Bytes → Bool
is_there none = false
is_there (some _) = true

-- The loop that skips names that are taken, on fuel: the number that is free.
unfoldable pub free_index : ℕ → Bytes → ℕ → Dict Bytes → Option ℕ
unfolding file_name
free_index zero dir i files = none
free_index (suc fuel) dir i files =
    let rest = free_index fuel dir (i + 1) files in
    if is_there (get (file_name dir i) files) then rest else some i

digit_value : (d : ℕ) → d < 10 → (is_digit (digit_char d) ≡ true) × (digit_char d - b'0' ≡ d)
unfolding digit_char
digit_value d h = ground arith

read_digits-snoc :
    (acc d : ℕ) (xs : Bytes)
    → all is_digit xs ≡ true
    → is_digit d ≡ true
    → read_digits acc (xs ++ (d ∷ [])) ≡ read_digits acc xs * 10 + (d - b'0')
unfolding read_digits
read_digits-snoc acc d [] h k = ground arith
read_digits-snoc acc d (x ∷ xs) h k = ground (arith, read_digits-snoc (acc * 10 + (x - b'0')) d xs)

all-append :
    (xs ys : Bytes)
    → all is_digit xs ≡ true
    → all is_digit ys ≡ true
    → all is_digit (xs ++ ys) ≡ true
all-append [] ys h k = k
all-append (x ∷ xs) ys h k = ground (arith, all-append xs ys)

-- What `%d` prints is digits that read as the number.
pub record Spells (n : ℕ) (s : Bytes) : Type 0 where
  pub digits : all is_digit s ≡ true
  pub value : read_digits 0 s ≡ n

one_digit : (n : ℕ) → n < 10 → Spells n (digit_char n ∷ [])
unfolding read_digits
one_digit n h = record {
  digits = rw ((digit_value n h).0);
  value = ground (arith, digit_value n h);
}

snoc-Spells : (n : ℕ) (s : Bytes) → Spells (n / 10) s → Spells n (s ++ (digit_char (n % 10) ∷ []))
snoc-Spells n s h =
    let d = digit_value (n % 10) (omega arith) in
    record {
      digits = all-append s (digit_char (n % 10) ∷ []) h.digits (rw (d.0));
      value =
          read_digits-snoc 0 (digit_char (n % 10)) s h.digits d.0 ∙ (omega (arith, d.1, h.value));
    }

no_digits : (n : ℕ) → n ≡ 0 → Spells n []
unfolding read_digits
no_digits n h = record { digits = refl; value = sym h }

print_fuel-Spells : (fuel n : ℕ) → n ≤ fuel → Spells n (print_fuel 10 fuel n)
unfolding print_fuel
print_fuel-Spells zero n h = snoc-Spells n [] (no_digits (n / 10) (omega arith))
print_fuel-Spells (suc fuel) n h = elim (Bool-cases (ltb n 10)) [
  | inl small ↦ rw (small, print_fuel) (one_digit n (ground arith))
  | inr large ↦
      rw (large, print_fuel)
        (snoc-Spells n (print_fuel 10 fuel (n / 10))
          (print_fuel-Spells fuel (n / 10) (ground arith)))
]

pub decimal-Spells : (n : ℕ) → Spells n (decimal n)
unfolding decimal
decimal-Spells n = print_fuel-Spells n n (omega arith)

snoc-cons : (xs : Bytes) (x : ℕ) → (c : ℕ) × (s : Bytes) × (xs ++ (x ∷ []) ≡ c ∷ s)
snoc-cons [] x = (x, [], refl)
snoc-cons (y ∷ xs) x = (y, xs ++ (x ∷ []), refl)

print_fuel-cons : (fuel n : ℕ) → (c : ℕ) × (s : Bytes) × (print_fuel 10 fuel n ≡ c ∷ s)
unfolding print_fuel digit_char
print_fuel-cons zero n = (digit_char (n % 10), [], refl)
print_fuel-cons (suc fuel) n = elim (Bool-cases (ltb n 10)) [
  | inl small ↦ (digit_char n, [], ground arith)
  | inr large ↦
      let (c, s, e) = snoc-cons (print_fuel 10 fuel (n / 10)) (digit_char (n % 10)) in
      (c, s, rw (large, print_fuel) e)
]

-- A number is not printed as nothing.
pub decimal-cons : (n : ℕ) → (c : ℕ) × (s : Bytes) × (decimal n ≡ c ∷ s)
unfolding decimal
decimal-cons n = print_fuel-cons n n

zeros-digits :
    (k : ℕ) (s : Bytes) → all is_digit s ≡ true → all is_digit (replicate k b'0' ++ s) ≡ true
zeros-digits zero s h = h
zeros-digits (suc k) s h = zeros-digits k s h

zeros-value : (k : ℕ) (s : Bytes) → read_digits 0 (replicate k b'0' ++ s) ≡ read_digits 0 s
unfolding read_digits
zeros-value zero s = refl
zeros-value (suc k) s = zeros-value k s

stops :
    (acc : ℕ) (s t : Bytes)
    → all is_digit s ≡ true
    → read_digits acc (s ++ (b'.' ∷ t)) ≡ read_digits acc s
unfolding read_digits
stops acc [] t h = refl
stops acc (x ∷ s) t h = ground (arith, stops (acc * 10 + (x - b'0')) s t)

abbrev padded : ℕ → Bytes
padded i =
    replicate (if ltb (length (decimal i)) 3 then 3 - length (decimal i) else 0) b'0' ++ decimal i

abbrev front : Bytes → Bytes
front dir = dir ++ codes "/client-"

spelled : (dir : Bytes) (i : ℕ) → file_name dir i ≡ front dir ++ (padded i ++ codes ".jsonc")
unfolding file_name client_name
spelled dir i = sym (append_assoc dir (codes "/client-") (padded i ++ codes ".jsonc"))

-- The number is read back from the name.
number_of-file_name :
    (dir : Bytes) (i : ℕ) → read_digits 0 (drop (length (front dir)) (file_name dir i)) ≡ i
number_of-file_name dir i =
    let k = if ltb (length (decimal i)) 3 then 3 - length (decimal i) else 0 in
    let s = decimal-Spells i in
    ap (λ (n : Bytes). read_digits 0 (drop (length (front dir)) n)) (spelled dir i)
    ∙ (ap (read_digits 0) (drop-length (front dir) (padded i ++ codes ".jsonc"))
        ∙ (stops 0 (padded i) (codes "jsonc") (zeros-digits k (decimal i) s.digits)
            ∙ (zeros-value k (decimal i) ∙ s.value)))

pub file_name-injective : (dir : Bytes) (i j : ℕ) → file_name dir i ≡ file_name dir j → i ≡ j
file_name-injective dir i j e =
    sym (number_of-file_name dir i)
    ∙ (ap (λ (n : Bytes). read_digits 0 (drop (length (front dir)) n)) e
        ∙ number_of-file_name dir j)

differ : (dir : Bytes) (i j : ℕ) → i < j → same (file_name dir i) (file_name dir j) ≡ false
differ dir i j h = elim (Bool-cases (same (file_name dir i) (file_name dir j))) [
  | inl e ↦
      let k = file_name-injective dir i j ((same_iff (file_name dir i) (file_name dir j)).0 e) in
      absurd (omega arith)
  | inr e ↦ e
]

-- A search from a number on does not see a file of a lower one.
free_index-erase :
    (fuel : ℕ) (dir : Bytes) (k i : ℕ) (files : Dict Bytes)
    → Distinct files
    → k < i
    → free_index fuel dir i (Dict.erase (file_name dir k) files) ≡ free_index fuel dir i files
unfolding free_index
free_index-erase zero dir k i files d h = refl
free_index-erase (suc fuel) dir k i files d h = rw (
  get-erase (file_name dir k) (file_name dir i) files d,
  differ dir k i h,
  free_index-erase fuel dir k (i + 1) files d (omega arith),
)

length-erase :
    (k : Bytes) (files : Dict Bytes)
    → is_there (get k files) ≡ true
    → length (Dict.erase k files) + 1 ≡ length files
unfolding get Dict.erase
length-erase k [] h = absurd (cc)
length-erase k ((j, v) ∷ files) h = ground (arith, length-erase k files)

free_index-step :
    (fuel : ℕ) (dir : Bytes) (i : ℕ) (files : Dict Bytes)
    → (is_there (get (file_name dir i) files) ≡ true
        → (j : ℕ) × (free_index fuel dir (i + 1) files ≡ some j) × (i + 1 ≤ j))
    → (j : ℕ) × (free_index (suc fuel) dir i files ≡ some j) × (i ≤ j)
unfolding free_index
free_index-step fuel dir i files later =
    elim (Bool-cases (is_there (get (file_name dir i) files))) [
      | inl taken ↦ let (j, found, le) = later taken in (j, rw taken found, omega arith)
      | inr free ↦ (i, rw free, omega arith)
    ]

-- The search for the name of a client's file, from any number on, ends with a number that is no
-- lower within one round more than there are files, when no path stands twice among them.
pub free_index-total :
    (fuel : ℕ) (dir : Bytes) (i : ℕ) (files : Dict Bytes)
    → Distinct files
    → length files < fuel
    → (j : ℕ) × (free_index fuel dir i files ≡ some j) × (i ≤ j)
free_index-total zero dir i files d h = absurd (omega arith)
free_index-total (suc fuel) dir i files d h = free_index-step fuel dir i files (λ taken.
    subst (λ (o : Option ℕ). (j : ℕ) × (o ≡ some j) × (i + 1 ≤ j))
      (free_index-erase fuel dir i (i + 1) files d (omega arith))
      (free_index-total fuel dir (i + 1) (Dict.erase (file_name dir i) files)
        (erase-Distinct (file_name dir i) files d)
        (omega (arith, length-erase (file_name dir i) files taken))))

if_some :
    (b : Bool) (r : Option ℕ) (i : ℕ) {j : ℕ}
    → (if b then r else some i) ≡ some j
    → ((b ≡ true) × (r ≡ some j)) ⊎ ((b ≡ false) × (i ≡ j))
if_some true r i h = inl (refl, h)
if_some false r i h = inr (refl, cc)

none_there : (o : Option Bytes) → is_there o ≡ false → o ≡ none
none_there none h = refl
none_there (some b) h = absurd (cc)

-- The number that is found names no file.
pub free_index-free :
    (fuel : ℕ) (dir : Bytes) (i : ℕ) (files : Dict Bytes) {j : ℕ}
    → free_index fuel dir i files ≡ some j
    → get (file_name dir j) files ≡ none
unfolding free_index
free_index-free zero dir i files h = absurd (cc)
free_index-free (suc fuel) dir i files {j} h =
    elim (if_some (is_there (get (file_name dir i) files)) (free_index fuel dir (i + 1) files) i
      h) [
        | inl (_, later) ↦ free_index-free fuel dir (i + 1) files later
        | inr (free, here) ↦
            none_there (get (file_name dir j) files)
              (subst (λ (n : ℕ). is_there (get (file_name dir n) files) ≡ false) here free)
      ]
