-- ===== src/Routing.antt =====
-- cpp/routing.hpp: the routing table and the readers of IP packet headers. A `void*` is a number,
-- 0 the null pointer; a text is its bytes.
pub mod Table
pub mod Address
pub mod Zeros
pub mod Longest
mod Tests
use nospoon.Base.{
  ℕ, zero, suc, ◌+◌, ◌-◌, ◌*◌, ◌/◌, ◌%◌, ◌^◌, Bool, true, false, not, ◌&&◌, List, [], ◌∷◌, ◌++◌,
  Option, none, some, ltb, ◌==◌, if◌then◌else◌, length, get_or, Bytes, codes, is_empty,
}
use nospoon.Base.Dict.{Dict, get, put, erase}
use nospoon.Base.Numerals.{decimal, hexadecimal}

abbrev pub null : ℕ
null = 0

pub record RoutingTable : Type 0 where
  pub routes : Dict ℕ

abbrev pub empty_table : RoutingTable
empty_table = record { routes = [] }

unfoldable pub add : Bytes → ℕ → RoutingTable → RoutingTable
unfolding put
add ip stream t = record { routes = put ip stream t.routes }

unfoldable pub remove : Bytes → RoutingTable → RoutingTable
unfolding erase
remove ip t = record { routes = erase ip t.routes }

-- `it->second == stream` erases the entry, on a walk through the map.
unfoldable pub drop_stream : ℕ → Dict ℕ → Dict ℕ
drop_stream stream [] = []
drop_stream stream ((ip, s) ∷ m) =
    if s == stream then drop_stream stream m else (ip, s) ∷ drop_stream stream m

unfoldable pub remove_stream : ℕ → RoutingTable → RoutingTable
unfolding drop_stream
remove_stream stream t = record { routes = drop_stream stream t.routes }

abbrev pub or_null : Option ℕ → ℕ
or_null none = null
or_null (some s) = s

unfoldable pub lookup : Bytes → RoutingTable → ℕ
unfolding get
lookup ip t = or_null (get ip t.routes)

unfoldable pub size : RoutingTable → ℕ
size t = length t.routes

-- `format_ipv4`: "%u.%u.%u.%u"
unfoldable pub format_ipv4 : Bytes → ℕ → Bytes
unfolding decimal
format_ipv4 pkt off =
    decimal (get_or pkt off 0)
    ++ (b'.'
        ∷ (decimal (get_or pkt (off + 1) 0)
            ++ (b'.'
                ∷ (decimal (get_or pkt (off + 2) 0) ++ (b'.' ∷ decimal (get_or pkt (off + 3) 0))))))

-- The eight groups from `off`, `n` of them left to read.
unfoldable pub read_groups : ℕ → Bytes → ℕ → List ℕ
read_groups zero pkt off = []
read_groups (suc n) pkt off =
    (get_or pkt off 0 * 2 ^ 8 + get_or pkt (off + 1) 0) ∷ read_groups n pkt (off + 2)

-- The variables of the search for the longest run of zeros; a start of -1 is `none`.
pub record Runs : Type 0 where
  pub best_start : Option ℕ
  pub best_len : ℕ
  pub cur_start : Option ℕ
  pub cur_len : ℕ

abbrev pub or_here : Option ℕ → ℕ → ℕ
or_here none i = i
or_here (some s) i = s

-- The body of the loop, at group `i`.
unfoldable pub scan_group : ℕ → ℕ → Runs → Runs
scan_group i g r =
    if g == 0
    then (let start = or_here r.cur_start i in
        let len = r.cur_len + 1 in
        if ltb r.best_len len
        then record {
          best_start = some start;
          best_len = len;
          cur_start = some start;
          cur_len = len;
        }
        else record r { cur_start = some start; cur_len = len })
    else record r { cur_start = none; cur_len = 0 }

unfoldable pub scan : ℕ → List ℕ → Runs → Runs
unfolding scan_group
scan i [] r = r
scan i (g ∷ gs) r = scan (i + 1) gs (scan_group i g r)

abbrev pub no_runs : Runs
no_runs = record { best_start = none; best_len = 0; cur_start = none; cur_len = 0 }

-- A run of one group is not collapsed.
unfoldable pub longest_run : List ℕ → Option ℕ × ℕ
unfolding scan
longest_run gs =
    let r = scan 0 gs no_runs in if ltb r.best_len 2 then (none, 0) else (r.best_start, r.best_len)

-- `out.back() != ':'` on a text that may be empty: the separator before a group.
unfoldable pub separator : Bytes → Bytes
separator [] = []
separator (c ∷ []) = if c == b':' then [] else b':' ∷ []
separator (c ∷ d ∷ s) = separator (d ∷ s)

abbrev starts_at : Option ℕ → ℕ → Bool
starts_at none i = false
starts_at (some s) i = s == i

-- The printing loop, with `rounds` rounds at most: it goes on at `i + 1`, or behind the run.
unfoldable pub print_groups : ℕ → Option ℕ × ℕ → List ℕ → ℕ → Bytes → Bytes
unfolding hexadecimal separator
print_groups zero best gs i out = out
print_groups (suc rounds) (start, len) gs i out = elim (ltb i 8) [
  | false ↦ out
  | true ↦ elim (starts_at start i) [
    | true ↦ print_groups rounds (start, len) gs (i + len) (out ++ codes "::")
    | false ↦
        print_groups rounds (start, len) gs (i + 1)
          (out ++ (separator out ++ hexadecimal (get_or gs i 0)))
  ]
]

unfoldable pub format_groups : List ℕ → Bytes
unfolding longest_run print_groups
format_groups gs =
    let out = print_groups 8 (longest_run gs) gs 0 [] in if is_empty out then codes "::" else out

unfoldable pub format_ipv6 : Bytes → ℕ → Bytes
unfolding read_groups format_groups
format_ipv6 pkt off = format_groups (read_groups 8 pkt off)

-- The version field of the first byte, `(pkt[0] >> 4) & 0x0f`.
abbrev pub version : Bytes → ℕ
version pkt = get_or pkt 0 0 / 2 ^ 4 % 16

-- The address at the offset of its IP version; "" where the packet is short or of another version.
unfoldable pub read_ip : ℕ → ℕ → Bytes → Bytes
unfolding format_ipv4 format_ipv6
read_ip v4_offset v6_offset pkt =
    if ltb (length pkt) 1
    then []
    else if version pkt == 4
    then (if ltb (length pkt) 20 then [] else format_ipv4 pkt v4_offset)
    else if version pkt == 6
    then (if ltb (length pkt) 40 then [] else format_ipv6 pkt v6_offset)
    else []

unfoldable pub read_dest_ip : Bytes → Bytes
unfolding read_ip
read_dest_ip = read_ip 16 24

unfoldable pub read_src_ip : Bytes → Bytes
unfolding read_ip
read_src_ip = read_ip 12 8
