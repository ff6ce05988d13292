-- ===== src/Commands/Addresses.antt =====
-- cpp/commands.cpp: the subnet of a checked address, and the hosts that `addclient` gives out in it.
use nospoon.Base.{
  ◌≢◌, refl, false, true, Bool-cases, inl, inr, same, rfind, drop, ◌+◌, ◌++◌, All, arith, ==_iff,
  ◌≡◌, sym, ap, subst, ◌∙◌, ℕ, ◌≤◌, List, [], ◌∷◌, Option, none, some, Bytes, find, length,
  take-length, append-nil,
}
use nospoon.Base.Int.{ℤ, pos, negsuc, atoi}
use nospoon.Base.Numerals.{read_digits}
use nospoon.Base.Dict.{Dict, get}
use nospoon.Config.{Config}
use nospoon.Commands.Addclient.{net_of}
use nospoon.Validation.Scan.{AllDigits, atoi-append}
use nospoon.Validation.Cidr.{Shape}
use nospoon.Validation.Parts.{front, host, cut, find-slash, rfind-dot, rfind-last, drop_past}
use nospoon.Commands.{
  Subnet, parse_subnet, address_of, prefix_of, used_by_peers, reserve, mark_peers, is_used,
  take_peer,
}
use nospoon.Commands.Hosts.{AreFree, Reserved, reserve-Reserved}

atoi-number : (d : Bytes) → 1 ≤ length d → AllDigits d → atoi d ≡ pos (read_digits 0 d)
atoi-number d some_digit h = ap atoi (sym (append-nil d)) ∙ atoi-append d [] some_digit h tt

abbrev pub number : Bytes → ℤ
number d = pos (read_digits 0 d)

address-host : {cidr : Bytes} (s : Shape cidr) → address_of cidr (find b'/' cidr) ≡ host s
address-host {cidr} s =
    ap (address_of cidr) (find-slash s) ∙ rw (cut s, take-length (host s) (b'/' ∷ s.p))

prefix-number :
    {cidr : Bytes} (s : Shape cidr) (net : Subnet)
    → prefix_of net cidr (find b'/' cidr) ≡ number s.p
prefix-number {cidr} s net =
    ap (prefix_of net cidr) (find-slash s)
    ∙ rw (cut s, drop_past (host s) b'/' s.p)
        (atoi-number s.p s.p_group.some_digit s.p_group.digits)

-- A checked address `a.b.c.d/p` gives the base `a.b.c` and the prefix p, and d counts as used.
pub parse_subnet-Shape :
    {cidr : Bytes} (s : Shape cidr) (net : Subnet)
    → parse_subnet cidr net
      ≡ some (record { base = front s; prefix = number s.p; used = number s.d ∷ net.used })
unfolding parse_subnet
parse_subnet-Shape {cidr} s net = rw (
  address-host s,
  prefix-number s net,
  rfind-dot s,
  take-length (front s) (b'.' ∷ s.d),
  drop_past (front s) b'.' s.d,
  atoi-number s.d s.d_group.some_digit s.d_group.digits,
)

some-Reserved :
    (n : ℕ) (used : List ℤ) (r : Option (List ℕ) × Subnet) (hs : List ℕ)
    → r.0 ≡ some hs
    → Reserved n used r
    → (length hs ≡ n) × AreFree used hs
some-Reserved n used (none, net) hs e v = absurd (cc)
some-Reserved n used (some gs, net) hs e v =
    subst (λ (o : Option (List ℕ)). Reserved n used (o, net)) e v

free_cons :
    (h : ℕ) (u : ℤ) (used : List ℤ)
    → is_used h (u ∷ used) ≡ false
    → ((n : ℕ) → u ≡ pos n → n ≢ h) × (is_used h used ≡ false)
unfolding is_used
free_cons h (pos m) used e = (
  (λ n named same_host. let i : m ≡ n = cc named in ground (arith, e, i, same_host, ==_iff m h)),
  ground (arith, e),
)
free_cons h (negsuc m) used e = ((λ n named. absurd (cc)), ground (arith, e))

octet_differs :
    (h : ℕ) (used : List ℤ) (front d : Bytes)
    → AllDigits d
    → 1 ≤ length d
    → is_used h (take_peer used (front ++ (b'.' ∷ d)) (rfind b'.' (front ++ (b'.' ∷ d)))) ≡ false
    → read_digits 0 d ≢ h
octet_differs h used front d digits some_digit e =
    let found : take_peer used (front ++ (b'.' ∷ d)) (rfind b'.' (front ++ (b'.' ∷ d)))
        ≡ number d ∷ used =
      ap (take_peer used (front ++ (b'.' ∷ d))) (rfind-last front d digits)
      ∙ ap (λ (u : ℤ). u ∷ used)
          (ap atoi (drop_past front b'.' d) ∙ atoi-number d some_digit digits) in
    (free_cons h (number d) used (subst (λ (us : List ℤ). is_used h us ≡ false) found e)).0
      (read_digits 0 d) refl

abbrev used_in : Option Subnet → List ℤ
used_in none = []
used_in (some net) = net.used

some_bytes-injective : {a b : Bytes} → some a ≡ some b → a ≡ b
some_bytes-injective h = cc h

-- Nothing that is used is given up.
used_by_peers-keeps :
    (h : ℕ) (peers : Dict Bytes) (used : List ℤ)
    → is_used h (used_by_peers peers used) ≡ false
    → is_used h used ≡ false
unfolding used_by_peers
used_by_peers-keeps h [] used e = e
used_by_peers-keeps h ((pk, ip) ∷ peers) used e =
    without (rfind b'.' ip) (used_by_peers-keeps h peers (take_peer used ip (rfind b'.' ip)) e)
  where
    without : (o : Option ℕ) → is_used h (take_peer used ip o) ≡ false → is_used h used ≡ false
    without none k = k
    without (some dot) k = (free_cons h (atoi (drop (dot + 1) ip)) used k).1

-- The last octet of a listed address is no free host.
used_by_peers-octet :
    (h : ℕ) (peers : Dict Bytes) (used : List ℤ) (pk front d : Bytes)
    → get pk peers ≡ some (front ++ (b'.' ∷ d))
    → AllDigits d
    → 1 ≤ length d
    → is_used h (used_by_peers peers used) ≡ false
    → read_digits 0 d ≢ h
unfolding used_by_peers get
used_by_peers-octet h [] used pk front d there digits some_digit e = absurd (cc)
used_by_peers-octet h ((j, ip) ∷ peers) used pk front d there digits some_digit e =
    elim (Bool-cases (same j pk)) [
      | inl same_key ↦
          let named : ip ≡ front ++ (b'.' ∷ d) = here_is same_key in
          let taken = used_by_peers-keeps h peers (take_peer used ip (rfind b'.' ip)) e in
          octet_differs h used front d digits some_digit
            (subst (λ (a : Bytes). is_used h (take_peer used a (rfind b'.' a)) ≡ false) named taken)
      | inr other ↦
          used_by_peers-octet h peers (take_peer used ip (rfind b'.' ip)) pk front d
            (ground (arith, other, there)) digits some_digit e
    ]
  where
    here_is : same j pk ≡ true → ip ≡ front ++ (b'.' ∷ d)
    here_is k = some_bytes-injective (ground (arith, k, there))

-- A host that addclient may give out: from 2 to 254, not the server's own last octet, and not that of
-- an address in the list of its peers.
pub record IsNew (cfg : Config) (own : ℕ) (h : ℕ) : Type 0 where
  pub low : 2 ≤ h
  pub high : h ≤ 254
  pub not_own : own ≢ h
  pub not_peer :
      (pk front d : Bytes)
      → get pk cfg.peers ≡ some (front ++ (b'.' ∷ d))
      → AllDigits d
      → 1 ≤ length d
      → read_digits 0 d ≢ h

abbrev pub AllDifferent : List ℕ → Type 0
AllDifferent [] = Unit {0}
AllDifferent (h ∷ hs) = All (λ k. h ≢ k) hs × AllDifferent hs

module _ (cfg : Config) (own : ℕ) where
  abbrev taken : List ℤ
  taken = used_by_peers cfg.peers (pos own ∷ [])

  free-IsNew : (h : ℕ) → 2 ≤ h → h ≤ 254 → is_used h taken ≡ false → IsNew cfg own h
  free-IsNew h low high e = record {
    low = low;
    high = high;
    not_own =
        (free_cons h (pos own) [] (used_by_peers-keeps h cfg.peers (pos own ∷ []) e)).0 own refl;
    not_peer = λ pk front d there digits some_digit.
        used_by_peers-octet h cfg.peers (pos own ∷ []) pk front d there digits some_digit e;
  }

  AreFree-differ :
      (g : ℕ) (used : List ℤ) (hs : List ℕ)
      → ((k : ℕ) → is_used k used ≡ false → g ≢ k)
      → AreFree used hs
      → All (λ k. g ≢ k) hs
  AreFree-differ g used [] apart f = tt
  AreFree-differ g used (h ∷ hs) apart (low, high, e, rest) = (
    apart h e,
    AreFree-differ g (pos h ∷ used) hs (λ k i. apart k (free_cons k (pos h) used i).1) rest,
  )

  AreFree-IsNew :
      (used : List ℤ) (hs : List ℕ)
      → ((h : ℕ) → is_used h used ≡ false → is_used h taken ≡ false)
      → AreFree used hs
      → All (IsNew cfg own) hs × AllDifferent hs
  AreFree-IsNew used [] sub f = (tt, tt)
  AreFree-IsNew used (h ∷ hs) sub (low, high, e, rest) =
      let (new, different) =
        AreFree-IsNew (pos h ∷ used) hs (λ k g. sub k (free_cons k (pos h) used g).1) rest in
      (
        (free-IsNew h low high (sub h e), new),
        (
          AreFree-differ h (pos h ∷ used) hs (λ k i. (free_cons k (pos h) used i).0 h refl) rest,
          different,
        ),
      )

-- The hosts that addclient gives out for a server with the address a.b.c.d/p are as many as asked
-- for, lie from 2 to 254, no two are the same, and none is d or the last octet of an address in the
-- list of the peers.
pub net_of-IsNew :
    (cfg : Config) (n : ℕ) {net : Subnet} {hs : List ℕ} (s : Shape cfg.ip)
    → net_of cfg ≡ some net
    → (reserve n net).0 ≡ some hs
    → (length hs ≡ n) × All (IsNew cfg (read_digits 0 s.d)) hs × AllDifferent hs
net_of-IsNew cfg n {net} {hs} s of h =
    let made : Subnet = record {
      base = front s;
      prefix = number s.p;
      used = used_by_peers cfg.peers (number s.d ∷ []);
    } in
    let same_net : some made ≡ some net =
      ap (mark_peers cfg.peers)
        (sym (parse_subnet-Shape s (record { base = []; prefix = pos 24; used = [] })))
      ∙ of in
    let (count, free) = some-Reserved n net.used (reserve n net) hs h (reserve-Reserved n net) in
    let (new, different) =
      AreFree-IsNew cfg (read_digits 0 s.d) net.used hs
        (λ k e. subst (λ (o : Option Subnet). is_used k (used_in o) ≡ false) (sym same_net) e)
        free in
    (count, new, different)
