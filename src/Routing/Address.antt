-- ===== src/Routing/Address.antt =====
-- The text of an IPv4 address stands for that address and no other.
use nospoon.Base.{
  ℕ, zero, suc, ◌+◌, ◌<◌, ◌≡◌, refl, sym, ap, ◌∙◌, ◌↔◌, true, [], ◌∷◌, ◌++◌, arith, ◌==◌, ==_iff,
  get_or, all, All, Bytes, is_digit,
}
use nospoon.Base.Numerals.{decimal, read_digits, holds_below, holds_below-apply}
use nospoon.Routing.{format_ipv4}

digits_table : holds_below (λ n. all is_digit (decimal n)) 256 ≡ true
unfolding holds_below decimal
digits_table = refl

value_table : holds_below (λ n. read_digits 0 (decimal n) == n) 256 ≡ true
unfolding holds_below decimal read_digits
value_table = refl

pub decimal-digits : (n : ℕ) → n < 256 → all is_digit (decimal n) ≡ true
decimal-digits n h = holds_below-apply (λ n. all is_digit (decimal n)) h digits_table

pub read_digits-decimal : (n : ℕ) → n < 256 → read_digits 0 (decimal n) ≡ n
read_digits-decimal n h =
    (==_iff (read_digits 0 (decimal n)) n).0
      (holds_below-apply (λ n. read_digits 0 (decimal n) == n) h value_table)

pub decimal-injective : (a b : ℕ) → a < 256 → b < 256 → decimal a ≡ decimal b → a ≡ b
decimal-injective a b ha hb e =
    sym (read_digits-decimal a ha) ∙ ap (read_digits 0) e ∙ read_digits-decimal b hb

∷-injective : {x y : ℕ} {xs ys : Bytes} → x ∷ xs ≡ y ∷ ys → (x ≡ y) × (xs ≡ ys)
∷-injective e = (cc, cc)

-- Texts of digits, each with a dot and a rest behind, agree part by part.
dot_split :
    (xs ys : Bytes) {r s : Bytes}
    → all is_digit xs ≡ true
    → all is_digit ys ≡ true
    → xs ++ (b'.' ∷ r) ≡ ys ++ (b'.' ∷ s)
    → (xs ≡ ys) × (r ≡ s)
dot_split [] [] hx hy e = (refl, (∷-injective e).1)
dot_split [] (y ∷ ys) hx hy e = let h = (∷-injective e).0 in absurd (ground arith)
dot_split (x ∷ xs) [] hx hy e = let h = (∷-injective e).0 in absurd (ground arith)
dot_split (x ∷ xs) (y ∷ ys) hx hy e =
    let (h, t) = ∷-injective e in
    let (same, rest) = dot_split xs ys (ground arith) (ground arith) t in (cc, rest)

-- The four octets from an offset.
pub record SameOctets (p q : Bytes) (off : ℕ) : Type 0 where
  pub octet0 : get_or p off 0 ≡ get_or q off 0
  pub octet1 : get_or p (off + 1) 0 ≡ get_or q (off + 1) 0
  pub octet2 : get_or p (off + 2) 0 ≡ get_or q (off + 2) 0
  pub octet3 : get_or p (off + 3) 0 ≡ get_or q (off + 3) 0

abbrev pub IsByte : ℕ → Type 0
IsByte b = b < 256

pub get_or-IsByte : (p : Bytes) (i : ℕ) → All IsByte p → get_or p i 0 < 256
get_or-IsByte [] i h = omega arith
get_or-IsByte (x ∷ p) zero h = h.0
get_or-IsByte (x ∷ p) (suc i) h = get_or-IsByte p i h.1

-- Two headers of bytes print the same address exactly when their four octets agree.
pub format_ipv4_iff :
    (p q : Bytes) (off : ℕ)
    → All IsByte p
    → All IsByte q
    → (format_ipv4 p off ≡ format_ipv4 q off) ↔ SameOctets p q off
unfolding format_ipv4
format_ipv4_iff p q off hp hq = (
  λ e.
      let (e0, r0) = dot_split _ _ (digits p off hp) (digits q off hq) e in
      let (e1, r1) = dot_split _ _ (digits p (off + 1) hp) (digits q (off + 1) hq) r0 in
      let (e2, r2) = dot_split _ _ (digits p (off + 2) hp) (digits q (off + 2) hq) r1 in
      record {
        octet0 = octet off e0;
        octet1 = octet (off + 1) e1;
        octet2 = octet (off + 2) e2;
        octet3 = octet (off + 3) r2;
      },
  λ s. rw (s.octet0, s.octet1, s.octet2, s.octet3),
)
  where
    digits : (b : Bytes) (i : ℕ) → All IsByte b → all is_digit (decimal (get_or b i 0)) ≡ true
    digits b i h = decimal-digits (get_or b i 0) (get_or-IsByte b i h)

    octet : (i : ℕ) → decimal (get_or p i 0) ≡ decimal (get_or q i 0) → get_or p i 0 ≡ get_or q i 0
    octet i = decimal-injective _ _ (get_or-IsByte p i hp) (get_or-IsByte q i hq)
