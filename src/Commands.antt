-- ===== src/Commands.antt =====
-- cpp/commands.cpp: the addresses and the texts of `init` and `addclient`, and the outcome of `check`.
-- The used host octets, a `std::set<int>` there, are a list: their order plays no part.
pub mod Hosts
pub mod Addresses
pub mod Check
pub mod Save
pub mod Genkey
pub mod Names
pub mod Wanted
pub mod Clients
pub mod Count
pub mod Init
pub mod Inited
pub mod Addclient
pub mod Brace
pub mod Added
pub mod Allowlist
pub mod ClientText
pub mod ClientFile
pub mod Inspect
mod Runs
mod Tests
use nospoon.Base.{
  ℕ, zero, suc, ◌+◌, ◌-◌, Bool, true, false, ◌&&◌, List, [], ◌∷◌, ◌++◌, Option, none, some, ◌==◌,
  if◌then◌else◌, Bytes, codes, find, rfind, take, drop, length, replicate, ltb,
}
use nospoon.Base.Dict.{Dict}
use nospoon.Base.Int.{ℤ, pos, negsuc, atoi}
use nospoon.Base.Numerals.{decimal}
use nospoon.Config.{Config}

pub record Subnet : Type 0 where
  pub base : Bytes
  pub prefix : ℤ
  pub used : List ℤ

abbrev pub is_host : ℕ → ℤ → Bool
is_host h (pos n) = n == h
is_host h (negsuc n) = false

unfoldable pub is_used : ℕ → List ℤ → Bool
is_used h [] = false
is_used h (u ∷ used) = if is_host h u then true else is_used h used

abbrev pub address_of : Bytes → Option ℕ → Bytes
address_of cidr none = cidr
address_of cidr (some slash) = take slash cidr

abbrev pub prefix_of : Subnet → Bytes → Option ℕ → ℤ
prefix_of net cidr none = net.prefix
prefix_of net cidr (some slash) = atoi (drop (slash + 1) cidr)

abbrev pub with_base : Subnet → ℤ → Bytes → Option ℕ → Option Subnet
with_base net prefix addr none = none
with_base net prefix addr (some dot) =
    some (record {
      base = take dot addr;
      prefix = prefix;
      used = atoi (drop (dot + 1) addr) ∷ net.used;
    })

-- `none` for `false`; the warning about a prefix other than 24 is left out.
unfoldable pub parse_subnet : Bytes → Subnet → Option Subnet
unfolding find rfind atoi
parse_subnet cidr net =
    let slash = find b'/' cidr in
    let addr = address_of cidr slash in
    with_base net (prefix_of net cidr slash) addr (rfind b'.' addr)

-- `for (int h = from; n > 0; h++, n--)`
unfoldable pub first_free : ℕ → ℕ → List ℤ → ℕ
unfolding is_used
first_free zero from used = 0
first_free (suc n) from used =
    let later = first_free n (suc from) used in if is_used from used then later else from

abbrev pub hand_out : Subnet → ℕ → ℕ × Subnet
hand_out net h = if h == 0 then (0, net) else (h, record net { used = pos h ∷ net.used })

-- The host, 0 where there is none, and the subnet with the host taken.
unfoldable pub next_host : Subnet → ℕ × Subnet
unfolding first_free
next_host net = hand_out net (first_free 253 2 net.used)

abbrev pub cons_host : ℕ → Option (List ℕ) × Subnet → Option (List ℕ) × Subnet
cons_host h (none, net) = (none, net)
cons_host h (some hs, net) = (some (h ∷ hs), net)

-- The first loop of `make_clients`: `n` hosts, or `none` for its `return false`.
unfoldable pub reserve : ℕ → Subnet → Option (List ℕ) × Subnet
unfolding next_host
reserve zero net = (some [], net)
reserve (suc n) net =
    let (h, net') = next_host net in
    let rest = reserve n net' in if h == 0 then (none, net') else cons_host h rest

-- The addresses in the `peers` map.
abbrev pub take_peer : List ℤ → Bytes → Option ℕ → List ℤ
take_peer used ip none = used
take_peer used ip (some dot) = atoi (drop (dot + 1) ip) ∷ used

unfoldable pub used_by_peers : Dict Bytes → List ℤ → List ℤ
unfolding rfind atoi
used_by_peers [] used = used
used_by_peers ((_, ip) ∷ peers) used = used_by_peers peers (take_peer used ip (rfind b'.' ip))

abbrev pub mark_peers : Dict Bytes → Option Subnet → Option Subnet
mark_peers peers none = none
mark_peers peers (some net) = some (record net { used = used_by_peers peers net.used })

abbrev pub cleared : Option Subnet → Option Subnet
cleared none = none
cleared (some net) = some (record net { used = pos 0 ∷ pos 1 ∷ [] })

-- "client-007"
unfoldable pub client_name : ℕ → Bytes
unfolding decimal
client_name index =
    let s = decimal index in
    codes "client-" ++ (replicate (if ltb (length s) 3 then 3 - length s else 0) b'0' ++ s)

-- The texts that `addclient` puts behind the brace of the peers.
unfoldable pub entries : List (Bytes × Bytes) → Bytes
entries [] = []
entries ((pk, ip) ∷ peers) =
    codes "\n    \"" ++ (pk ++ (codes "\": \"" ++ (ip ++ (codes "\"," ++ entries peers))))

-- `raw` with the entries behind its brace
unfoldable pub insert_peers : Bytes → ℕ → List (Bytes × Bytes) → Bytes
unfolding entries
insert_peers raw brace peers = take (brace + 1) raw ++ (entries peers ++ drop (brace + 1) raw)
