-- ===== src/Validation/Cidr.antt =====
-- `validate_cidr` accepts the texts of an IPv4 network, and nothing else.
use nospoon.Base.{
  ℕ, zero, suc, ◌+◌, ◌≤◌, ◌≡◌, refl, sym, ap, subst, ◌∙◌, ◌↔◌, Bool, true, false, [], ◌∷◌, ◌++◌,
  append-nil, append_assoc, arith, ◌==◌, if◌then◌else◌, length, drop, all, Bytes, is_digit, find,
}
use nospoon.Base.Int.{pos, atoi}
use nospoon.Base.Numerals.{read_digits}
use nospoon.Validation.{
  matches_cidr, match_end, match_char, match_digits, leading_digits, after_digits, scan_octets,
  after_slash, validate_cidr,
}
use nospoon.Validation.Scan.{
  AllDigits, leading-append-after, leading_digits-AllDigits, atoi-append, after_digits-append,
  match_digits-true, match_char-true, match_end-true, match_digits-append, match_char-cons,
  find-append,
}

-- A group of decimal digits, at most `most` of them.
pub record IsGroup (most : ℕ) (ds : Bytes) : Type 0 where
  pub digits : AllDigits ds
  pub some_digit : 1 ≤ length ds
  pub few : length ds ≤ most

-- Four groups of up to three digits with dots between, a slash and up to two digits.
pub record Shape (value : Bytes) : Type 0 where
  pub a : Bytes
  pub b : Bytes
  pub c : Bytes
  pub d : Bytes
  pub p : Bytes
  pub spelled : value ≡ a ++ (b'.' ∷ (b ++ (b'.' ∷ (c ++ (b'.' ∷ (d ++ (b'/' ∷ p)))))))
  pub a_group : IsGroup 3 a
  pub b_group : IsGroup 3 b
  pub c_group : IsGroup 3 c
  pub d_group : IsGroup 3 d
  pub p_group : IsGroup 2 p

-- One group of the pattern and the separator behind it.
IsGroup-then :
    (most sep : ℕ) (k : Bytes → Bool) (s : Bytes)
    → match_digits most (match_char sep k) s ≡ true
    → (ds : Bytes) × (r : Bytes) × (s ≡ ds ++ (sep ∷ r)) × IsGroup most ds × (k r ≡ true)
IsGroup-then most sep k s h =
    let m = match_digits-true most (match_char sep k) s h in
    let (r, e, t) = match_char-true sep k (after_digits s) m.2 in
    (
      leading_digits s,
      r,
      sym (leading-append-after s) ∙ ap (◌++◌ (leading_digits s)) e,
      record { digits = leading_digits-AllDigits s; some_digit = m.0; few = m.1 },
      t,
    )

IsGroup-last : (most : ℕ) (s : Bytes) → match_digits most match_end s ≡ true → IsGroup most s
IsGroup-last most s h =
    let m = match_digits-true most match_end s h in
    let e : leading_digits s ≡ s =
      sym (append-nil (leading_digits s))
      ∙ ap (◌++◌ (leading_digits s)) (sym (match_end-true (after_digits s) m.2))
      ∙ leading-append-after s in
    subst (IsGroup most) e
      (record { digits = leading_digits-AllDigits s; some_digit = m.0; few = m.1 })

matches_cidr-Shape : (value : Bytes) → matches_cidr value ≡ true → Shape value
unfolding matches_cidr
matches_cidr-Shape value h =
    let (a, r1, e1, g1, h1) = IsGroup-then 3 b'.' _ value h in
    let (b, r2, e2, g2, h2) = IsGroup-then 3 b'.' _ r1 h1 in
    let (c, r3, e3, g3, h3) = IsGroup-then 3 b'.' _ r2 h2 in
    let (d, p, e4, g4, h4) = IsGroup-then 3 b'/' _ r3 h3 in
    record {
      a = a;
      b = b;
      c = c;
      d = d;
      p = p;
      spelled = cc;
      a_group = g1;
      b_group = g2;
      c_group = g3;
      d_group = g4;
      p_group = IsGroup-last 2 p h4;
    }

abbrev pub NoSlash : Bytes → Type 0
NoSlash s = all (λ x. if x == b'/' then false else true) s ≡ true

pub no_slash : (ds r : Bytes) → AllDigits ds → NoSlash r → NoSlash (ds ++ r)
no_slash [] r h n = n
no_slash (x ∷ ds) r h n = ground (arith, no_slash ds r)

group-append :
    (most c : ℕ) (k : Bytes → Bool) (ds r : Bytes)
    → is_digit c ≡ false
    → IsGroup most ds
    → match_digits most (match_char c k) (ds ++ (c ∷ r)) ≡ k r
group-append most c k ds r h g =
    match_digits-append most (match_char c k) ds (c ∷ r) g.digits h g.some_digit g.few
    ∙ match_char-cons c k r

group_end : (most : ℕ) (ds : Bytes) → IsGroup most ds → match_digits most match_end ds ≡ true
unfolding match_end
group_end most ds g =
    ap (match_digits most match_end) (sym (append-nil ds))
    ∙ match_digits-append most match_end ds [] g.digits tt g.some_digit g.few

octet :
    (n : ℕ) (ds : Bytes) (x : ℕ) (r : Bytes)
    → is_digit x ≡ false
    → IsGroup 3 ds
    → scan_octets (suc n) (ds ++ (x ∷ r)) ≡ pos (read_digits 0 ds) ∷ scan_octets n r
unfolding scan_octets
octet n ds x r stops g = rw (
  atoi-append ds (x ∷ r) g.some_digit g.digits stops,
  after_digits-append ds (x ∷ r) g.digits stops,
)

after_slash-find :
    (xs r : Bytes) → NoSlash xs → after_slash (xs ++ (b'/' ∷ r)) (find b'/' (xs ++ (b'/' ∷ r))) ≡ r
after_slash-find xs r n = rw (find-append b'/' xs r n) (behind (length xs + 1) xs r refl)
  where
    behind : (n : ℕ) (xs r : Bytes) → n ≡ length xs + 1 → drop n (xs ++ (b'/' ∷ r)) ≡ r
    behind zero xs r e = absurd (omega arith)
    behind (suc zero) [] r e = refl
    behind (suc (suc n)) [] r e = absurd (omega arith)
    behind (suc n) (x ∷ xs) r e = behind n xs r (omega arith)

-- What the code reads of such a text.
module _ {value : Bytes} (s : Shape value) where
  open s use {a, b, c, d, p, spelled, a_group, b_group, c_group, d_group, p_group}

  Shape-matches_cidr : matches_cidr value ≡ true
  unfolding matches_cidr
  Shape-matches_cidr = rw spelled (
      group-append 3 b'.' _ a _ refl a_group
      ∙ group-append 3 b'.' _ b _ refl b_group
      ∙ group-append 3 b'.' _ c _ refl c_group
      ∙ group-append 3 b'/' _ d _ refl d_group
      ∙ group_end 2 p p_group)

  Shape-octets :
      scan_octets 4 value
      ≡ pos (read_digits 0 a)
        ∷ pos (read_digits 0 b)
        ∷ pos (read_digits 0 c)
        ∷ pos (read_digits 0 d)
        ∷ []
  Shape-octets = rw spelled (
      octet 3 a b'.' _ refl a_group
      ∙ ap (◌∷◌ (pos (read_digits 0 a))) (
          octet 2 b b'.' _ refl b_group
          ∙ ap (◌∷◌ (pos (read_digits 0 b))) (
              octet 1 c b'.' _ refl c_group
              ∙ ap (◌∷◌ (pos (read_digits 0 c)))
                  (octet 0 d b'/' p refl d_group ∙ unfold scan_octets in refl))))

  address : Bytes
  address = a ++ (b'.' ∷ (b ++ (b'.' ∷ (c ++ (b'.' ∷ d)))))

  address-NoSlash : NoSlash address
  unfolding address
  address-NoSlash = no_slash a _ a_group.digits (
      no_slash b _ b_group.digits (
        no_slash c _ c_group.digits
          (subst NoSlash (append-nil d) (no_slash d [] d_group.digits refl))))

  Shape-prefix : atoi (after_slash value (find b'/' value)) ≡ pos (read_digits 0 p)
  unfolding address
  Shape-prefix =
      let cut : value ≡ address ++ (b'/' ∷ p) = spelled ∙ simp append_assoc in
      rw cut (
        rw (after_slash-find address p address-NoSlash)
          (ap atoi (sym (append-nil p)) ∙ atoi-append p [] p_group.some_digit p_group.digits tt))

-- The text of an IPv4 network: the shape, octets up to 255 and a prefix up to 32.
pub record IsNetwork (value : Bytes) : Type 0 where
  pub shape : Shape value
  pub a_max : read_digits 0 shape.a ≤ 255
  pub b_max : read_digits 0 shape.b ≤ 255
  pub c_max : read_digits 0 shape.c ≤ 255
  pub d_max : read_digits 0 shape.d ≤ 255
  pub p_max : read_digits 0 shape.p ≤ 32

valid_matches :
    (value label : Bytes) → (validate_cidr value label).valid ≡ true → matches_cidr value ≡ true
unfolding validate_cidr
valid_matches value label h = ground arith

valid_bounds :
    (value label : Bytes) (s : Shape value)
    → (validate_cidr value label).valid ≡ true
    → IsNetwork value
unfolding validate_cidr
valid_bounds value label s h =
    let m = Shape-matches_cidr s in
    let o = Shape-octets s in
    let q = Shape-prefix s in
    record {
      shape = s;
      a_max = ground arith;
      b_max = ground arith;
      c_max = ground arith;
      d_max = ground arith;
      p_max = ground arith;
    }

accepts : (value label : Bytes) → IsNetwork value → (validate_cidr value label).valid ≡ true
unfolding validate_cidr
accepts value label n =
    let m = Shape-matches_cidr n.shape in
    let o = Shape-octets n.shape in
    let q = Shape-prefix n.shape in ground (arith, n.a_max, n.b_max, n.c_max, n.d_max, n.p_max)

-- A text passes exactly when it is four groups of one to three digits with dots between, a slash and
-- one or two digits, the groups read as numbers up to 255 and the prefix up to 32.
pub validate_cidr-IsNetwork :
    (value label : Bytes) → ((validate_cidr value label).valid ≡ true) ↔ IsNetwork value
validate_cidr-IsNetwork value label = (
  λ h. valid_bounds value label (matches_cidr-Shape value (valid_matches value label h)) h,
  λ n. accepts value label n,
)
