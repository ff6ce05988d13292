-- ===== src/Routing/Longest.antt =====
-- cpp/routing.hpp: the run of zero groups that `format_ipv6` collapses is the longest.
use nospoon.Base.{
  ◌≡◌, refl, sym, ap, subst, inl, inr, ℕ, ◌+◌, ◌≤◌, ◌<◌, Bool, true, false, List, Option, none,
  some, ltb, if◌then◌else◌, arith, length, get_or, ltb→lt,
}
use nospoon.Routing.{Runs, scan, no_runs, longest_run}
use nospoon.Routing.Zeros.{Zeros, Scanned, scan-Scanned, fresh-Scanned}

abbrev pub group_at : List ℕ → ℕ → ℕ
group_at gs k = get_or gs k 1

-- A run of at least two zero groups, none longer, and the first of this length.
pub record IsLongest (gs : List ℕ) (s n : ℕ) : Type 0 where
  pub long : 2 ≤ n
  pub inside : s + n ≤ length gs
  pub zeros : Zeros (group_at gs) s n
  pub longest : (j m : ℕ) → j + m ≤ length gs → Zeros (group_at gs) j m → m ≤ n
  pub first : (j m : ℕ) → j + m ≤ length gs → Zeros (group_at gs) j m → m ≡ n → s ≤ j

abbrev pub IsCollapse : List ℕ → Option ℕ × ℕ → Type 0
IsCollapse gs (none, n) =
    (n ≡ 0) × ((j m : ℕ) → j + m ≤ length gs → Zeros (group_at gs) j m → m ≤ 1)
IsCollapse gs (some s, n) = IsLongest gs s n

no_best :
    (gs : List ℕ) (r : Runs)
    → Scanned (group_at gs) (length gs) r
    → r.best_len < 2
    → IsCollapse gs (none, 0)
no_best gs r v short = (refl, λ j m f z. let l = v.longest j m f z in omega arith)

some_best :
    (gs : List ℕ) (r : Runs)
    → Scanned (group_at gs) (length gs) r
    → 2 ≤ r.best_len
    → IsCollapse gs (r.best_start, r.best_len)
some_best gs r v long = elim v.best [
  | inl none_found ↦ absurd (omega arith)
  | inr found ↦
      subst (λ (o : Option ℕ). IsCollapse gs (o, r.best_len)) (sym found)
        (record {
          long = long;
          inside = v.best_ends;
          zeros = v.best_zeros;
          longest = v.longest;
          first = λ j m f z g. v.first j m f z g (omega arith);
        })
]

if-IsCollapse :
    (gs : List ℕ) (b : Bool) (x y : Option ℕ × ℕ)
    → (b ≡ true → IsCollapse gs x)
    → (b ≡ false → IsCollapse gs y)
    → IsCollapse gs (if b then x else y)
if-IsCollapse gs true x y p q = p refl
if-IsCollapse gs false x y p q = q refl

-- The run of groups that an IPv6 address collapses is a longest run of zeros and the first of these,
-- and has two groups at least; where none is collapsed, no two neighbouring groups are zero.
pub longest_run-IsCollapse : (gs : List ℕ) → IsCollapse gs (longest_run gs)
unfolding longest_run
longest_run-IsCollapse gs =
    let r = scan 0 gs no_runs in
    let v : Scanned (group_at gs) (length gs) r =
      subst (λ (j : ℕ). Scanned (group_at gs) j r) (omega arith)
        (scan-Scanned (group_at gs) 0 gs no_runs (λ k. ap (group_at gs) (omega arith))
          (fresh-Scanned (group_at gs))) in
    if-IsCollapse gs (ltb r.best_len 2) (none, 0) (r.best_start, r.best_len)
      (λ short. no_best gs r v (ltb→lt r.best_len 2 short))
      (λ long. some_best gs r v (ground arith))
