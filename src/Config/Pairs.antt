-- ===== src/Config/Pairs.antt =====
-- The loop of `json_peers` over the pairs of a block.
use nospoon.Base.{
  ℕ, zero, suc, ◌+◌, ◌≡◌, Bool, refl, sym, ap, ◌∙◌, true, false, [], ◌∷◌, ◌++◌, append_assoc,
  Option, none, some, arith, ◌==◌, ◌≤◌, if◌then◌else◌, length, length-append, length-drop,
  take-length, drop, Bytes, find,
}
use nospoon.Base.{same}
use nospoon.Base.Dict.{Dict, get, put, get-put}
use mathlib.Core.Option
use nospoon.Config.Json.{next_quote, cut_at, next_pair, Pair, read_pairs, ◌>>=◌}
use nospoon.Config.Key.{NoQuote, find-skip, drop_prefix}

next_quote-skip : (xs s : Bytes) → NoQuote xs → next_quote (xs ++ (b'"' ∷ s)) ≡ some (xs, s)
unfolding next_quote
next_quote-skip xs s h =
    ap (cut_at (xs ++ (b'"' ∷ s))) (find-skip b'"' xs s h)
    ∙ rw (
      take-length xs (b'"' ∷ s),
      drop_prefix (length xs + 1) (xs ++ (b'"' ∷ [])) s (xs ++ (b'"' ∷ s)) (simp append_assoc)
          (omega (arith, length-append xs (b'"' ∷ []))),
    )

-- A pair in quotes is read by one round.
pub next_pair-written :
    (a key b val rest : Bytes)
    → NoQuote a
    → NoQuote key
    → NoQuote b
    → NoQuote val
    → next_pair (a ++ (b'"' ∷ (key ++ (b'"' ∷ (b ++ (b'"' ∷ (val ++ (b'"' ∷ rest))))))))
      ≡ some (record { key = key; val = val; rest = rest })
unfolding next_pair
next_pair-written a key b val rest ha hk hb hv = rw (
  next_quote-skip a (key ++ (b'"' ∷ (b ++ (b'"' ∷ (val ++ (b'"' ∷ rest)))))) ha,
  next_quote-skip key (b ++ (b'"' ∷ (val ++ (b'"' ∷ rest)))) hk,
  next_quote-skip b (val ++ (b'"' ∷ rest)) hb,
  next_quote-skip val rest hv,
)

-- What is left is shorter.
abbrev Cut : ℕ → Option (Bytes × Bytes) → Type 0
Cut n none = Unit {0}
Cut n (some (x, r)) = suc (length r) ≤ n

abbrev Shorter : ℕ → Option Pair → Type 0
Shorter n none = Unit {0}
Shorter n (some p) = suc (length p.rest) ≤ n

abbrev Inside : ℕ → Option ℕ → Type 0
Inside n none = Unit {0}
Inside n (some i) = suc i ≤ n

suc-Inside : (n : ℕ) (o : Option ℕ) → Inside n o → Inside (suc n) (Option.map suc o)
suc-Inside n none h = tt
suc-Inside n (some i) h = omega arith

find-Inside : (b : ℕ) (s : Bytes) → Inside (length s) (find b s)
unfolding find
find-Inside b [] = tt
find-Inside b (c ∷ s) =
    let later = suc-Inside (length s) (find b s) (find-Inside b s) in
    elim (c == b)
      as (λ (t : Bool). Inside (suc (length s)) (if t then some 0 else Option.map suc (find b s))) [
        | true ↦ omega arith
        | false ↦ later
      ]

cut_at-Cut : (s : Bytes) (o : Option ℕ) → Inside (length s) o → Cut (length s) (cut_at s o)
cut_at-Cut s none h = tt
cut_at-Cut s (some i) h = omega (arith, length-drop (i + 1) s)

next_quote-Cut : (s : Bytes) (n : ℕ) → length s ≤ n → Cut n (next_quote s)
unfolding next_quote
next_quote-Cut s n h =
    wider (cut_at s (find b'"' s)) (cut_at-Cut s (find b'"' s) (find-Inside b'"' s))
  where
    wider : (o : Option (Bytes × Bytes)) → Cut (length s) o → Cut n o
    wider none c = tt
    wider (some (x, r)) c = omega arith

bind-Shorter :
    (n : ℕ) (o : Option (Bytes × Bytes)) (k : Bytes × Bytes → Option Pair)
    → Cut n o
    → ((x r : Bytes) → suc (length r) ≤ n → Shorter n (k (x, r)))
    → Shorter n (o >>= k)
bind-Shorter n none k c h = tt
bind-Shorter n (some (x, r)) k c h = h x r c

next_pair-Shorter : (s : Bytes) → Shorter (length s) (next_pair s)
unfolding next_pair
next_pair-Shorter s =
    let n = length s in
    bind-Shorter n (next_quote s) _ (next_quote-Cut s n (omega arith)) (λ x0 r0 h0.
      bind-Shorter n (next_quote r0) _ (next_quote-Cut r0 n (omega arith)) (λ x1 r1 h1.
        bind-Shorter n (next_quote r1) _ (next_quote-Cut r1 n (omega arith)) (λ x2 r2 h2.
          bind-Shorter n (next_quote r2) _ (next_quote-Cut r2 n (omega arith)) (λ x3 r3 h3. h3))))

-- A round, with what goes on behind it.
abbrev round : (Bytes → Dict Bytes → Dict Bytes) → Dict Bytes → Option Pair → Dict Bytes
round go m none = m
round go m (some p) = go p.rest (put p.key p.val m)

round_same :
    (n : ℕ) (o : Option Pair) (m : Dict Bytes) (f g : Bytes → Dict Bytes → Dict Bytes)
    → Shorter n o
    → ((t : Bytes) (d : Dict Bytes) → suc (length t) ≤ n → f t d ≡ g t d)
    → round f m o ≡ round g m o
round_same n none m f g c h = refl
round_same n (some p) m f g c h = h p.rest (put p.key p.val m) c

read_pairs-suc :
    (f : ℕ) (s : Bytes) (m : Dict Bytes)
    → read_pairs (suc f) s m ≡ round (read_pairs f) m (next_pair s)
unfolding read_pairs
read_pairs-suc f s m = at (next_pair s)
  where
    at :
        (o : Option Pair)
        → (elim o [ none ↦ m | some p ↦ read_pairs f p.rest (put p.key p.val m) ])
          ≡ round (read_pairs f) m o
    at none = refl
    at (some p) = refl

-- Fuel beyond the length plays no part.
pub read_pairs_fuel :
    (f g : ℕ) (s : Bytes) (m : Dict Bytes)
    → suc (length s) ≤ f
    → suc (length s) ≤ g
    → read_pairs f s m ≡ read_pairs g s m
read_pairs_fuel zero g s m h k = absurd (omega arith)
read_pairs_fuel (suc f) zero s m h k = absurd (omega arith)
read_pairs_fuel (suc f) (suc g) s m h k =
    read_pairs-suc f s m
    ∙ round_same (length s) (next_pair s) m (read_pairs f) (read_pairs g) (next_pair-Shorter s)
        (λ t d c. read_pairs_fuel f g t d (omega arith) (omega arith))
    ∙ sym (read_pairs-suc g s m)

-- The first that is there.
abbrev pub first_of : Option Bytes → Option Bytes → Option Bytes
first_of none b = b
first_of (some a) b = some a

first_of_assoc : (a b c : Option Bytes) → first_of a (first_of b c) ≡ first_of (first_of a b) c
first_of_assoc none b c = refl
first_of_assoc (some a) b c = refl

put_first :
    (k j : Bytes) (v : Bytes) (m : Dict Bytes)
    → get j (put k v m) ≡ first_of (get j (put k v [])) (get j m)
unfolding get
put_first k j v m =
    get-put k j v m
    ∙ (at (same k j) ∙ ap (λ (o : Option Bytes). first_of o (get j m)) (sym (get-put k j v [])))
  where
    at :
        (t : Bool)
        → (if t then some v else get j m) ≡ first_of (if t then some v else none) (get j m)
    at true = refl
    at false = refl

get_none : (k : Bytes) (m : Dict Bytes) → get k m ≡ first_of (get k []) (get k m)
unfolding get
get_none k m = refl

get-round :
    (k : Bytes) (go : Bytes → Dict Bytes → Dict Bytes) (o : Option Pair) (m : Dict Bytes)
    → ((t : Bytes) (d : Dict Bytes) → get k (go t d) ≡ first_of (get k (go t [])) (get k d))
    → get k (round go m o) ≡ first_of (get k (round go [] o)) (get k m)
get-round k go none m h = get_none k m
get-round k go (some p) m h =
    let one : Dict Bytes = put p.key p.val [] in
    h p.rest (put p.key p.val m)
    ∙ ap (first_of (get k (go p.rest []))) (put_first p.key k p.val m)
    ∙ first_of_assoc (get k (go p.rest [])) (get k one) (get k m)
    ∙ ap (λ (o : Option Bytes). first_of o (get k m)) (sym (h p.rest one))

-- What the loop reads goes over what was there.
pub get-read_pairs :
    (k : Bytes) (f : ℕ) (s : Bytes) (m : Dict Bytes)
    → get k (read_pairs f s m) ≡ first_of (get k (read_pairs f s [])) (get k m)
unfolding read_pairs
get-read_pairs k zero s m = get_none k m
get-read_pairs k (suc f) s m =
    ap (get k) (read_pairs-suc f s m)
    ∙ get-round k (read_pairs f) (next_pair s) m (λ t d. get-read_pairs k f t d)
    ∙ ap (λ (d : Dict Bytes). first_of (get k d) (get k m)) (sym (read_pairs-suc f s []))

-- Bytes in front without a quote play no part.
bind_tail :
    (c : ℕ) (s : Bytes) (o : Option ℕ) (h : Bytes → Option Pair)
    → (cut_at (c ∷ s) (Option.map suc o) >>= (λ (q : Bytes × Bytes). h q.1))
      ≡ (cut_at s o >>= (λ (q : Bytes × Bytes). h q.1))
bind_tail c s none h = refl
bind_tail c s (some i) h = ap h (shift i)
  where
    plus_one : (n : ℕ) → n + 1 ≡ suc n
    plus_one n = omega arith

    shift : (i : ℕ) → drop (suc i + 1) (c ∷ s) ≡ drop (i + 1) s
    shift i =
        ap (λ (n : ℕ). drop n (c ∷ s)) (plus_one (suc i))
        ∙ ap (λ (n : ℕ). drop n s) (sym (plus_one i))

next_pair-byte : (c : ℕ) (s : Bytes) → (c == b'"') ≡ false → next_pair (c ∷ s) ≡ next_pair s
unfolding next_pair find
next_pair-byte c s h = rw h (bind_tail c s (find b'"' s) _)

pub read_pairs-byte :
    (c f : ℕ) (s : Bytes) (m : Dict Bytes)
    → (c == b'"') ≡ false
    → read_pairs f (c ∷ s) m ≡ read_pairs f s m
unfolding read_pairs
read_pairs-byte c zero s m h = refl
read_pairs-byte c (suc f) s m h =
    read_pairs-suc f (c ∷ s) m
    ∙ ap (round (read_pairs f) m) (next_pair-byte c s h)
    ∙ sym (read_pairs-suc f s m)

pub read_pairs-written :
    (f : ℕ) (a key b val rest : Bytes) (m : Dict Bytes)
    → NoQuote a
    → NoQuote key
    → NoQuote b
    → NoQuote val
    → read_pairs (suc f) (a ++ (b'"' ∷ (key ++ (b'"' ∷ (b ++ (b'"' ∷ (val ++ (b'"' ∷ rest)))))))) m
      ≡ read_pairs f rest (put key val m)
read_pairs-written f a key b val rest m ha hk hb hv =
    read_pairs-suc f _ m
    ∙ ap (round (read_pairs f) m) (next_pair-written a key b val rest ha hk hb hv)
