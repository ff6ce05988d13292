-- ===== src/Commands/Hosts.antt =====
-- cpp/commands.cpp: which host octets are given out.
use nospoon.Base.{
  ◌≡◌, refl, ap, sym, subst, ◌⊎◌, inl, inr, ℕ, zero, suc, ◌+◌, ◌≤◌, ◌<◌, Bool, true, false, List,
  [], ◌∷◌, Option, none, some, ◌==◌, if◌then◌else◌, arith, length, Bool-cases, ==_iff,
}
use nospoon.Base.Int.{ℤ, pos}
use nospoon.Commands.{Subnet, is_used, first_free, hand_out, next_host, cons_host, reserve}

-- `h` is free, the hosts below it from `from` on are not.
pub record IsFirst (used : List ℤ) (from n h : ℕ) : Type 0 where
  pub low : from ≤ h
  pub high : h < from + n
  pub free : is_used h used ≡ false
  pub first : (k : ℕ) → from ≤ k → k < h → is_used k used ≡ true

abbrev pub IsFull : List ℤ → ℕ → ℕ → Type 0
IsFull used from n = (k : ℕ) → from ≤ k → k < from + n → is_used k used ≡ true

le_split : (a b : ℕ) → a ≤ b → (a ≡ b) ⊎ (suc a ≤ b)
le_split a b h = elim (Bool-cases (a == b)) [
  | inl e ↦ inl ((==_iff a b).0 e)
  | inr e ↦ inr (ground (arith, ==_iff a b))
]

abbrev Search : List ℤ → ℕ → ℕ → ℕ → Type 0
Search used from n h = ((h ≡ 0) × IsFull used from n) ⊎ IsFirst used from n h

at_or_after :
    (used : List ℤ) (from : ℕ)
    → is_used from used ≡ true
    → (P : ℕ → Type 0) → ((k : ℕ) → suc from ≤ k → P k → is_used k used ≡ true)
    → (k : ℕ) → from ≤ k
    → P k
    → is_used k used ≡ true
at_or_after used from e P h k lo hk = elim (le_split from k lo) [
  | inl same ↦ subst (λ (j : ℕ). is_used j used ≡ true) same e
  | inr above ↦ h k above hk
]

later-Search :
    (used : List ℤ) (from n h : ℕ)
    → is_used from used ≡ true
    → Search used (suc from) n h
    → Search used from (suc n) h
later-Search used from n h e (inl (z, full)) =
    inl (z, at_or_after used from e (λ k. k < from + suc n) (λ k lo hi. full k lo (omega arith)))
later-Search used from n h e (inr s) = inr (record {
  low = let l = s.low in omega arith;
  high = let l = s.high in omega arith;
  free = s.free;
  first = at_or_after used from e (λ k. k < h) s.first;
})

first_free-Search : (n from : ℕ) (used : List ℤ) → Search used from n (first_free n from used)
unfolding first_free
first_free-Search zero from used = inl (refl, λ k lo hi. absurd (omega arith))
first_free-Search (suc n) from used =
    go (is_used from used) refl (first_free-Search n (suc from) used)
  where
    go :
        (b : Bool)
        → is_used from used ≡ b
        → Search used (suc from) n (first_free n (suc from) used)
        → Search used from (suc n) (if b then first_free n (suc from) used else from)
    go true e s = later-Search used from n _ e s
    go false e s = inr (record {
      low = omega arith;
      high = omega arith;
      free = e;
      first = λ k lo hi. absurd (omega arith);
    })

-- Each host lies in .2 to .254 and is free when it is given: not used, and not given before.
abbrev pub AreFree : List ℤ → List ℕ → Type 0
AreFree used [] = Unit
AreFree used (h ∷ hs) = (2 ≤ h) × (h ≤ 254) × (is_used h used ≡ false) × AreFree (pos h ∷ used) hs

abbrev pub Reserved : ℕ → List ℤ → Option (List ℕ) × Subnet → Type 0
Reserved n used (none, net) = IsFull net.used 2 253
Reserved n used (some hs, net) = (length hs ≡ n) × AreFree used hs

nonzero : (h : ℕ) → 2 ≤ h → (h == 0) ≡ false
nonzero h l = ground (arith, ==_iff h 0)

abbrev given : Subnet → ℕ → ℕ × Subnet
given net h = (h, record net { used = pos h ∷ net.used })

hand_out-given : (net : Subnet) (h : ℕ) → 2 ≤ h → hand_out net h ≡ given net h
hand_out-given net h l =
    ap (λ (b : Bool). if◌then◌else◌ {A = ℕ × Subnet} b (0, net) (given net h)) (nonzero h l)

-- What `next_host` gives: 0 and the subnet as it was, when every octet from 2 to 254 is used, or the
-- lowest free octet, which is marked as used.
abbrev pub NextHost : Subnet → ℕ × Subnet → Type 0
NextHost net r =
    ((r ≡ (0, net)) × IsFull net.used 2 253)
    ⊎ ((h : ℕ) × (r ≡ given net h) × IsFirst net.used 2 253 h)

searched-NextHost : (net : Subnet) (h : ℕ) → Search net.used 2 253 h → NextHost net (hand_out net h)
searched-NextHost net h (inl (z, full)) = inl (ap (hand_out net) z, full)
searched-NextHost net h (inr s) = inr (h, hand_out-given net h s.low, s)

-- The lowest free octet from 2 to 254 is given and marked as used, or 0 when all of them are used,
-- and then the subnet stays as it was.
pub next_host-NextHost : (net : Subnet) → NextHost net (next_host net)
unfolding next_host
next_host-NextHost net = searched-NextHost net _ (first_free-Search 253 2 net.used)

cons-Reserved :
    (n h : ℕ) (net : Subnet) (r : Option (List ℕ) × Subnet)
    → IsFirst net.used 2 253 h
    → Reserved n (pos h ∷ net.used) r
    → Reserved (suc n) net.used (cons_host h r)
cons-Reserved n h net (none, after) s full = full
cons-Reserved n h net (some hs, after) s (l, free) =
    (omega arith, (s.low, (let i = s.high in omega arith), s.free, free))

abbrev NextReserved : ℕ → Subnet → Bool → ℕ × Subnet → Type 0
NextReserved n net b (h, net') =
    Reserved (suc n) net.used (if b then (none, net') else cons_host h (reserve n net'))

step-Reserved :
    (n : ℕ) (net : Subnet) (p : ℕ × Subnet)
    → NextHost net p
    → ((m : Subnet) → Reserved n m.used (reserve n m))
    → NextReserved n net (p.0 == 0) p
step-Reserved n net p (inl (e, full)) rest =
    subst (λ (q : ℕ × Subnet). NextReserved n net (q.0 == 0) q) (sym e) full
step-Reserved n net p (inr (h, e, s)) rest =
    subst (λ (q : ℕ × Subnet). NextReserved n net (q.0 == 0) q) (sym e)
      (subst (λ (b : Bool). NextReserved n net b (given net h)) (sym (nonzero h s.low))
        (cons-Reserved n h net (reserve n (given net h).1) s (rest (given net h).1)))

-- The n hosts that are reserved for new clients lie from 2 to 254, none was used before and no two
-- are the same; the reservation fails only when every octet from 2 to 254 is used up.
pub reserve-Reserved : (n : ℕ) (net : Subnet) → Reserved n net.used (reserve n net)
unfolding reserve
reserve-Reserved zero net = (refl, tt)
reserve-Reserved (suc n) net =
    step-Reserved n net (next_host net) (next_host-NextHost net) (reserve-Reserved n)
