-- ===== src/Validation/Parts.antt =====
-- cpp/validation.hpp: where the slash and the last dot of an IPv4 network stand, for the code that
-- cuts checked texts there.
use nospoon.Base.{
  ◌≡◌, refl, sym, ap, subst, ◌∙◌, ℕ, zero, suc, ◌+◌, [], ◌∷◌, ◌++◌, none, some, Bytes, find, rfind,
  drop, length, append_assoc, append-nil, arith,
}
use nospoon.Validation.Scan.{AllDigits, find-append}
use nospoon.Validation.Cidr.{Shape, NoSlash, no_slash}

rfind-none : (d : Bytes) → AllDigits d → rfind b'.' d ≡ none
unfolding rfind
rfind-none [] h = refl
rfind-none (x ∷ d) h = ground (arith, rfind-none d)

pub rfind-last : (xs d : Bytes) → AllDigits d → rfind b'.' (xs ++ (b'.' ∷ d)) ≡ some (length xs)
unfolding rfind
rfind-last [] d h = rw (rfind-none d h)
rfind-last (x ∷ xs) d h = rw (rfind-last xs d h)

drop_count :
    (n : ℕ) (xs : Bytes) (x : ℕ) (r : Bytes) → n ≡ length xs + 1 → drop n (xs ++ (x ∷ r)) ≡ r
drop_count zero xs x r e = absurd (omega arith)
drop_count (suc zero) [] x r e = refl
drop_count (suc (suc n)) [] x r e = absurd (omega arith)
drop_count (suc n) (y ∷ xs) x r e = drop_count n xs x r (omega arith)

-- What stands behind the byte after a front.
pub drop_past : (xs : Bytes) (x : ℕ) (r : Bytes) → drop (length xs + 1) (xs ++ (x ∷ r)) ≡ r
drop_past xs x r = drop_count (length xs + 1) xs x r refl

module _ {value : Bytes} (s : Shape value) where
  abbrev pub front : Bytes
  front = s.a ++ (b'.' ∷ (s.b ++ (b'.' ∷ s.c)))

  abbrev pub host : Bytes
  host = front ++ (b'.' ∷ s.d)

  pub cut : value ≡ host ++ (b'/' ∷ s.p)
  cut = s.spelled ∙ simp append_assoc

  host-NoSlash : NoSlash host
  host-NoSlash =
      subst NoSlash
        (sym (
          append_assoc s.a (b'.' ∷ (s.b ++ (b'.' ∷ s.c))) (b'.' ∷ s.d)
          ∙ ap (λ (r : Bytes). s.a ++ (b'.' ∷ r)) (append_assoc s.b (b'.' ∷ s.c) (b'.' ∷ s.d))))
        (no_slash s.a _ s.a_group.digits (
          no_slash s.b _ s.b_group.digits (
            no_slash s.c _ s.c_group.digits
              (subst NoSlash (append-nil s.d) (no_slash s.d [] s.d_group.digits refl)))))

  pub find-slash : find b'/' value ≡ some (length host)
  find-slash = ap (find b'/') cut ∙ find-append b'/' host s.p host-NoSlash

  pub rfind-dot : rfind b'.' host ≡ some (length front)
  rfind-dot = rfind-last front s.d s.d_group.digits
