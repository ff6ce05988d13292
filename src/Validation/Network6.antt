-- ===== src/Validation/Network6.antt =====
-- cpp/validation.hpp: what the loose check of an IPv6 network lets through.
use nospoon.Base.{
  ◌≡◌, refl, ap, sym, subst, append_assoc, Bool-cases, inl, inr, ◌∙◌, ℕ, suc, ◌+◌, Bool, true,
  false, ◌||◌, [], ◌∷◌, ◌++◌, Option, none, some, ◌==◌, ==_iff, if◌then◌else◌, Bytes, find, take,
  drop, all, is_hex_digit, arith,
}
use mathlib.Core.Option
use nospoon.Base.Int.{atoi, within}
use nospoon.Validation.{validate_cidr_v6, validate_cidr_v6_at, has, is_v6_char}

-- An address of hex digits and colons with one colon at least, a slash, and a number.
pub record IsNetwork6 (s : Bytes) : Type 0 where
  pub before : Bytes
  pub behind : Bytes
  pub prefix : Bytes
  pub spelled : s ≡ before ++ (b':' ∷ (behind ++ (b'/' ∷ prefix)))
  pub before_chars : all (λ c. c == b':' || is_hex_digit c) before ≡ true
  pub behind_chars : all (λ c. c == b':' || is_hex_digit c) behind ≡ true
  pub prefix_range : within 1 128 (atoi prefix) ≡ true

some-injective : {m n : ℕ} → some m ≡ some n → m ≡ n
some-injective h = cc h

-- Where the byte is found, it stands.
find-cut : (b : ℕ) (s : Bytes) (i : ℕ) → find b s ≡ some i → s ≡ take i s ++ (b ∷ drop (suc i) s)
unfolding find
find-cut b [] i h = absurd (cc)
find-cut b (c ∷ s) i h = here (λ k e. find-cut b s k e) (c == b) refl h
  where
    later :
        (o : Option ℕ)
        → ((k : ℕ) → o ≡ some k → s ≡ take k s ++ (b ∷ drop (suc k) s))
        → Option.map suc o ≡ some i
        → c ∷ s ≡ take i (c ∷ s) ++ (b ∷ drop (suc i) (c ∷ s))
    later none rest e = absurd (cc)
    later (some k) rest e =
        subst (λ (j : ℕ). c ∷ s ≡ take j (c ∷ s) ++ (b ∷ drop (suc j) (c ∷ s))) (some-injective e)
          (ap (◌∷◌ c) (rest k refl))

    here :
        ((k : ℕ) → find b s ≡ some k → s ≡ take k s ++ (b ∷ drop (suc k) s))
        → (t : Bool) → (c == b) ≡ t
        → (if t then some 0 else Option.map suc (find b s)) ≡ some i
        → c ∷ s ≡ take i (c ∷ s) ++ (b ∷ drop (suc i) (c ∷ s))
    here rest true e k =
        subst (λ (j : ℕ). c ∷ s ≡ take j (c ∷ s) ++ (b ∷ drop (suc j) (c ∷ s))) (some-injective k)
          (ap (λ (y : ℕ). y ∷ s) ((==_iff c b).0 e))
    here rest false e k = later (find b s) rest k

has-split : (c : ℕ) (s : Bytes) → has c s ≡ true → (u : Bytes) × (v : Bytes) × (s ≡ u ++ (c ∷ v))
has-split c [] h = absurd (cc)
has-split c (x ∷ s) h = elim (Bool-cases (x == c)) [
  | inl e ↦ ([], s, ap (λ (y : ℕ). y ∷ s) ((==_iff x c).0 e))
  | inr e ↦ let (u, v, eq) = has-split c s (ground (arith, e)) in (x ∷ u, v, ap (◌∷◌ x) eq)
]

all-parts :
    (f : ℕ → Bool) (u v : Bytes) → all f (u ++ v) ≡ true → (all f u ≡ true) × (all f v ≡ true)
all-parts f [] v h = (refl, h)
all-parts f (c ∷ u) v h =
    let rest = all-parts f u v (ground arith) in (ground (arith, rest), rest.1)

checks :
    (value label : Bytes) (slash : ℕ)
    → (validate_cidr_v6_at value label (some slash)).valid ≡ true
    → (within 1 128 (atoi (drop (slash + 1) value)) ≡ true)
      × (has b':' (take slash value) ≡ true)
      × (all is_v6_char (take slash value) ≡ true)
unfolding validate_cidr_v6_at
checks value label slash h = (ground arith, ground arith, ground arith)

at_slash-IsNetwork6 :
    (value label : Bytes) (o : Option ℕ)
    → find b'/' value ≡ o
    → (validate_cidr_v6_at value label o).valid ≡ true
    → IsNetwork6 value
unfolding validate_cidr_v6_at
at_slash-IsNetwork6 value label none e h = absurd (cc)
at_slash-IsNetwork6 value label (some slash) e h =
    let (range, colon, chars) = checks value label slash h in
    let (u, v, split) = has-split b':' (take slash value) colon in
    let parts =
      all-parts is_v6_char u (b':' ∷ v)
        (subst (λ (t : Bytes). all is_v6_char t ≡ true) split chars) in
    let next : slash + 1 ≡ suc slash = omega arith in
    record {
      before = u;
      behind = v;
      prefix = drop (slash + 1) value;
      spelled =
          find-cut b'/' value slash e
          ∙ ap (λ (t : Bytes). t ++ (b'/' ∷ drop (suc slash) value)) split
          ∙ ap (λ (n : ℕ). (u ++ (b':' ∷ v)) ++ (b'/' ∷ drop n value)) (sym next)
          ∙ append_assoc u (b':' ∷ v) (b'/' ∷ drop (slash + 1) value);
      before_chars = parts.0;
      behind_chars = (all-parts is_v6_char (b':' ∷ []) v parts.1).1;
      prefix_range = range;
    }

pub validate_cidr_v6-IsNetwork6 :
    (s label : Bytes) → (validate_cidr_v6 s label).valid ≡ true → IsNetwork6 s
unfolding validate_cidr_v6
validate_cidr_v6-IsNetwork6 s label h = at_slash-IsNetwork6 s label (find b'/' s) refl h
