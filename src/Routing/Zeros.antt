-- ===== src/Routing/Zeros.antt =====
-- cpp/routing.hpp: the run of zero groups that `format_ipv6` collapses.
use nospoon.Base.{
  ◌≡◌, refl, sym, ap, subst, ◌∙◌, ◌⊎◌, inl, inr, ℕ, zero, suc, ◌+◌, ◌≤◌, ◌<◌, Bool, true, false,
  List, [], ◌∷◌, Option, none, some, ◌==◌, ltb, if◌then◌else◌, arith, length, get_or, Bool-cases,
  ==_iff, ltb→lt,
}
use nospoon.Routing.{Runs, or_here, scan_group, scan, no_runs}

-- The groups from `s` on, `n` of them, are zero.
abbrev pub Zeros : (ℕ → ℕ) → ℕ → ℕ → Type 0
Zeros at s n = (k : ℕ) → s ≤ k → k < s + n → at k ≡ 0

abbrev Below : (ℕ → ℕ) → ℕ → (ℕ → ℕ → Type 0) → Type 0
Below at i P = (s n : ℕ) → s + n ≤ i → Zeros at s n → P s n

-- The variables of the search in front of group `i`: the run that ends there begins at `c`, the best
-- one at `b`.
pub record Scanned (at : ℕ → ℕ) (i : ℕ) (r : Runs) : Type 0 where
  pub c : ℕ
  pub ends : c + r.cur_len ≡ i
  pub zeros : Zeros at c r.cur_len
  pub left : (s n : ℕ) → s + n ≡ i → Zeros at s n → c ≤ s
  pub start : ((r.cur_len ≡ 0) × (r.cur_start ≡ none)) ⊎ (r.cur_start ≡ some c)
  pub b : ℕ
  pub best : (r.best_len ≡ 0) ⊎ (r.best_start ≡ some b)
  pub best_ends : b + r.best_len ≤ i
  pub best_zeros : Zeros at b r.best_len
  pub longest : Below at i (λ s n. n ≤ r.best_len)
  pub first : Below at i (λ s n. n ≡ r.best_len → 1 ≤ n → b ≤ s)

shorter : (at : ℕ → ℕ) (s n : ℕ) → Zeros at s (suc n) → Zeros at s n
shorter at s n z k lo hi = z k lo (omega arith)

longer : (at : ℕ → ℕ) (s n : ℕ) → Zeros at s n → at (s + n) ≡ 0 → Zeros at s (n + 1)
longer at s n z e k lo hi = elim (Bool-cases (k == s + n)) [
  | inl same ↦ ap at ((==_iff k (s + n)).0 same) ∙ e
  | inr other ↦ z k lo (ground (arith, ==_iff k (s + n)))
]

-- A run that ends behind group `i` is one of zeros up to `i` and this group.
last_zero : (at : ℕ → ℕ) (i s n : ℕ) → s + suc n ≡ i + 1 → Zeros at s (suc n) → at i ≡ 0
last_zero at i s n e z = z i (omega arith) (omega arith)

no_run_ends : (at : ℕ → ℕ) (i s n : ℕ) → (at i == 0) ≡ false → s + n ≡ i + 1 → Zeros at s n → n ≡ 0
no_run_ends at i s zero e f z = refl
no_run_ends at i s (suc n) e f z =
    let here = last_zero at i s n f z in absurd (ground (arith, ==_iff (at i) 0))

earlier : (i s n : ℕ) → s + n ≤ i + 1 → (s + n ≤ i) ⊎ (s + n ≡ i + 1)
earlier i s n h = elim (Bool-cases (s + n == i + 1)) [
  | inl same ↦ inr ((==_iff (s + n) (i + 1)).0 same)
  | inr other ↦ inl (ground (arith, ==_iff (s + n) (i + 1)))
]

-- What holds of the runs in front of group `i` and of those that end behind it holds of all.
either_end :
    (at : ℕ → ℕ) (i : ℕ) (P : ℕ → ℕ → Type 0)
    → Below at i P
    → ((s n : ℕ) → s + n ≡ i + 1 → Zeros at s n → P s n)
    → Below at (i + 1) P
either_end at i P p q s n f z = elim (earlier i s n f) [
  | inl before ↦ p s n before z
  | inr there ↦ q s n there z
]

-- Behind a group that is not zero.
nonzero-Scanned :
    (at : ℕ → ℕ) (i : ℕ) (r : Runs)
    → (at i == 0) ≡ false
    → Scanned at i r
    → Scanned at (i + 1) (record r { cur_start = none; cur_len = 0 })
nonzero-Scanned at i r e v = record {
  c = i + 1;
  ends = omega arith;
  zeros = λ k lo hi. absurd (omega arith);
  left = λ s n f z. (let none_ends = no_run_ends at i s n e f z in omega arith);
  start = inl (refl, refl);
  b = v.b;
  best = v.best;
  best_ends = (let h = v.best_ends in omega arith);
  best_zeros = v.best_zeros;
  longest =
      either_end at i (λ s n. n ≤ r.best_len) v.longest
        (λ s n f z. let none_ends = no_run_ends at i s n e f z in omega arith);
  first =
      either_end at i (λ s n. n ≡ r.best_len → 1 ≤ n → v.b ≤ s) v.first
        (λ s n f z g p. let none_ends = no_run_ends at i s n e f z in absurd (omega arith));
}

if-Scanned :
    (at : ℕ → ℕ) (i : ℕ) (b : Bool) (x y : Runs)
    → (b ≡ true → Scanned at i x)
    → (b ≡ false → Scanned at i y)
    → Scanned at i (if b then x else y)
if-Scanned at i true x y p q = p refl
if-Scanned at i false x y p q = q refl

-- The run that ends behind a zero group.
module _ (at : ℕ → ℕ) (i : ℕ) (r : Runs) (e : at i ≡ 0) (v : Scanned at i r) where
  grown : Zeros at v.c (r.cur_len + 1)
  grown = longer at v.c r.cur_len v.zeros (ap at v.ends ∙ e)

  still_left : (s n : ℕ) → s + n ≡ i + 1 → Zeros at s n → v.c ≤ s
  still_left s zero f z = let h = v.ends in omega arith
  still_left s (suc n) f z = v.left s n (omega arith) (shorter at s n z)

  better-Scanned :
      r.best_len < r.cur_len + 1
      → Scanned at (i + 1) (record {
        best_start = some v.c;
        best_len = r.cur_len + 1;
        cur_start = some v.c;
        cur_len = r.cur_len + 1;
      })
  better-Scanned more = record {
    c = v.c;
    ends = (let h = v.ends in omega arith);
    zeros = grown;
    left = still_left;
    start = inr refl;
    b = v.c;
    best = inr refl;
    best_ends = (let h = v.ends in omega arith);
    best_zeros = grown;
    longest =
        either_end at i (λ s n. n ≤ r.cur_len + 1)
          (λ s n f z. let l = v.longest s n f z in omega arith)
          (λ s n f z. let l = still_left s n f z in let h = v.ends in omega arith);
    first =
        either_end at i (λ s n. n ≡ r.cur_len + 1 → 1 ≤ n → v.c ≤ s)
          (λ s n f z g p. let l = v.longest s n f z in absurd (omega arith))
          (λ s n f z g p. still_left s n f z);
  }

  kept-Scanned :
      r.cur_len + 1 ≤ r.best_len
      → Scanned at (i + 1) (record r { cur_start = some v.c; cur_len = r.cur_len + 1 })
  kept-Scanned less = record {
    c = v.c;
    ends = (let h = v.ends in omega arith);
    zeros = grown;
    left = still_left;
    start = inr refl;
    b = v.b;
    best = v.best;
    best_ends = (let h = v.best_ends in omega arith);
    best_zeros = v.best_zeros;
    longest =
        either_end at i (λ s n. n ≤ r.best_len) v.longest
          (λ s n f z. let l = still_left s n f z in let h = v.ends in omega arith);
    first =
        either_end at i (λ s n. n ≡ r.best_len → 1 ≤ n → v.b ≤ s) v.first
          (λ s n f z g p. let l = still_left s n f z in let h = v.best_ends in omega arith);
  }

  run_start : or_here r.cur_start i ≡ v.c
  run_start = elim v.start [
    | inl (empty, no_start) ↦
        ap (λ (o : Option ℕ). or_here o i) no_start ∙ (let h = v.ends in omega arith)
    | inr given ↦ ap (λ (o : Option ℕ). or_here o i) given
  ]

  zero_from :
      (s : ℕ)
      → v.c ≡ s
      → Scanned at (i + 1) (
          if ltb r.best_len (r.cur_len + 1)
          then record {
            best_start = some s;
            best_len = r.cur_len + 1;
            cur_start = some s;
            cur_len = r.cur_len + 1;
          }
          else record r { cur_start = some s; cur_len = r.cur_len + 1 })
  zero_from s same =
      subst
        (λ (j : ℕ). Scanned at (i + 1) (
          if ltb r.best_len (r.cur_len + 1)
          then record {
            best_start = some j;
            best_len = r.cur_len + 1;
            cur_start = some j;
            cur_len = r.cur_len + 1;
          }
          else record r { cur_start = some j; cur_len = r.cur_len + 1 }))
        same
        (if-Scanned at (i + 1) (ltb r.best_len (r.cur_len + 1)) _ _
          (λ more. better-Scanned (ltb→lt r.best_len (r.cur_len + 1) more))
          (λ less. kept-Scanned (ground arith)))

group-Scanned :
    (at : ℕ → ℕ) (i : ℕ) (r : Runs) → Scanned at i r → Scanned at (i + 1) (scan_group i (at i) r)
unfolding scan_group
group-Scanned at i r v =
    if-Scanned at (i + 1) (at i == 0) _ _
      (λ e.
        let zero_here = (==_iff (at i) 0).0 e in
        zero_from at i r zero_here v (or_here r.cur_start i) (sym (run_start at i r zero_here v)))
      (λ e. nonzero-Scanned at i r e v)

pub scan-Scanned :
    (at : ℕ → ℕ) (i : ℕ) (gs : List ℕ) (r : Runs)
    → ((k : ℕ) → at (i + k) ≡ get_or gs k 1)
    → Scanned at i r
    → Scanned at (i + length gs) (scan i gs r)
unfolding scan
scan-Scanned at i [] r same v = subst (λ (j : ℕ). Scanned at j r) (omega arith) v
scan-Scanned at i (g ∷ gs) r same v =
    let here : at i ≡ g = ap at (omega arith) ∙ same 0 in
    let step =
      subst (λ (x : ℕ). Scanned at (i + 1) (scan_group i x r)) here (group-Scanned at i r v) in
    subst (λ (j : ℕ). Scanned at j (scan (i + 1) gs (scan_group i g r))) (omega arith)
      (scan-Scanned at (i + 1) gs (scan_group i g r) (λ k. ap at (omega arith) ∙ same (suc k)) step)

pub fresh-Scanned : (at : ℕ → ℕ) → Scanned at 0 no_runs
fresh-Scanned at = record {
  c = 0;
  ends = refl;
  zeros = λ k lo hi. absurd (omega arith);
  left = λ s n f z. omega arith;
  start = inl (refl, refl);
  b = 0;
  best = inl refl;
  best_ends = omega arith;
  best_zeros = λ k lo hi. absurd (omega arith);
  longest = λ s n f z. omega arith;
  first = λ s n f z g p. omega arith;
}
