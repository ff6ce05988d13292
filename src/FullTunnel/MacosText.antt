-- ===== src/FullTunnel/MacosText.antt =====
-- cpp/full_tunnel_macos.cpp: the texts that `route` and `networksetup` print, and the lines of
-- /etc/pf.conf.
use nospoon.Base.{
  ℕ, ◌+◌, ◌-◌, Bool, false, not, ◌&&◌, ◌||◌, List, [], ◌∷◌, ◌++◌, Option, none, some, ◌==◌,
  if◌then◌else◌, Bytes, codes, is_empty, same, starts_with, drop, take, length,
}
use nospoon.Base.Int.{is_c_space}
use nospoon.Config.{trim_end}
use nospoon.FullTunnel.{skip_spaces, leading_word}

-- `word\s*(\S+)` at the front: the group, [] where it does not match.
unfoldable pub value_here : Bytes → Bytes → Bytes
unfolding starts_with skip_spaces leading_word
value_here word s =
    if starts_with word s then leading_word (skip_spaces (drop (length word) s)) else []

-- `regex_search`: the first place that matches.
unfoldable pub value_after : Bytes → Bytes → Bytes
unfolding value_here
value_after word [] = []
value_after word (c ∷ s) =
    let found = value_here word (c ∷ s) in
    let later = value_after word s in if is_empty found then later else found

-- `std::getline` until it fails: the lines without their ends, an empty last one left out.
abbrev pub onto_first : ℕ → List Bytes → List Bytes
onto_first c [] = (c ∷ []) ∷ []
onto_first c (l ∷ ls) = (c ∷ l) ∷ ls

unfoldable pub lines : Bytes → List Bytes
lines [] = []
lines (c ∷ s) = let rest = lines s in if c == b'\n' then [] ∷ rest else onto_first c rest

-- Trailing `\s*`, dropped.
unfoldable pub trim_spaces : Bytes → Bytes
trim_spaces [] = []
trim_spaces (c ∷ s) =
    let rest = trim_spaces s in if is_empty rest && is_c_space c then [] else c ∷ rest

unfoldable pub last_byte : Bytes → Bytes
last_byte [] = []
last_byte (c ∷ []) = c ∷ []
last_byte (c ∷ d ∷ s) = last_byte (d ∷ s)

-- The group of `\s*(.+?)\s*$` on a line: where all is space, its last byte.
unfoldable pub padded : Bytes → Bytes
unfolding skip_spaces trim_spaces last_byte
padded s = let inner = trim_spaces (skip_spaces s) in if is_empty inner then last_byte s else inner

unfoldable pub port_of : Bytes → Bytes
unfolding starts_with padded
port_of [] = []
port_of (c ∷ s) =
    let later = port_of s in
    if starts_with (codes "Hardware Port:") (c ∷ s) then padded (drop 14 (c ∷ s)) else later

unfoldable pub find_service : Bytes → Bytes → List Bytes → Bytes
unfolding port_of value_after same
find_service device current_port [] = []
find_service device current_port (l ∷ ls) =
    let next = find_service device (if is_empty (port_of l) then current_port else port_of l) ls in
    if is_empty (port_of l)
      && same (value_after (codes "Device:") l) device
      && not (is_empty device)
    then current_port
    else next

unfoldable pub contains : Bytes → Bytes → Bool
unfolding starts_with
contains word [] = false
contains word (c ∷ s) = starts_with word (c ∷ s) || contains word s

-- `find_first_not_of(" \t")` and `find_last_not_of(" \t\r\n")`
abbrev pub is_indent : ℕ → Bool
is_indent c = c == b' ' || c == b'\t'

unfoldable pub skip_indent : Bytes → Bytes
skip_indent [] = []
skip_indent (c ∷ s) = if is_indent c then skip_indent s else c ∷ s

unfoldable pub servers_of : List Bytes → List Bytes
unfolding skip_indent trim_end
servers_of [] = []
servers_of (l ∷ ls) =
    let rest = servers_of ls in
    if is_empty (skip_indent l) then rest else trim_end (skip_indent l) ∷ rest

-- The last line that passes, by the loop's index.
unfoldable pub last_match : (Bytes → Bool) → ℕ → Option ℕ → List Bytes → Option ℕ
last_match test i found [] = found
last_match test i found (l ∷ ls) = last_match test (i + 1) (if test l then some i else found) ls

-- `^word\s`
unfoldable pub has_word : Bytes → Bytes → Bool
has_word [] [] = false
has_word [] (c ∷ s) = is_c_space c
has_word (w ∷ word) [] = false
has_word (w ∷ word) (c ∷ s) = w == c && has_word word s

abbrev pub is_at : Option ℕ → ℕ → Bool
is_at none i = false
is_at (some k) i = i == k

unfoldable pub with_rule : Option ℕ → Bytes → ℕ → List Bytes → List Bytes
with_rule at rule i [] = []
with_rule at rule i (l ∷ ls) =
    let rest = with_rule at rule (i + 1) ls in if is_at at i then l ∷ rule ∷ rest else l ∷ rest

-- `(int)(result.size() - (lines.size() - load_anchor))`, or the end
abbrev pub insert_at : Option ℕ → List Bytes → List Bytes → ℕ
insert_at none result old = length result
insert_at (some load_anchor) result old = length result - (length old - load_anchor)

-- The lines of /etc/pf.conf with the three rules put in.
unfoldable pub pf_rules : Bytes → Bytes → Bytes → List Bytes → List Bytes
unfolding last_match has_word with_rule
pf_rules nat_rule pass_in pass_out old =
    let last_nat_anchor = last_match (has_word (codes "nat-anchor")) 0 none old in
    let load_anchor = last_match (has_word (codes "load anchor")) 0 none old in
    let result = with_rule last_nat_anchor nat_rule 0 old in
    let k = insert_at load_anchor result old in
    take k result ++ (pass_in ∷ pass_out ∷ drop k result)
