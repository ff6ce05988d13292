-- ===== src/Routing/Tests.antt =====
-- Runs of the header readers at concrete packets.
use nospoon.Base.{List, ℕ, ◌≡◌, refl, [], ◌∷◌, codes, Bytes, same, if◌then◌else◌}
use nospoon.Routing.{format_groups, longest_run, RoutingTable, lookup, add, remove, null}
use nospoon.Routing.Longest.{longest_run-IsCollapse, IsCollapse}
use nospoon.Routing.Table.{lookup-add, lookup-remove, IsTable}

compressed : format_groups (0x2001 ∷ 0xdb8 ∷ 0 ∷ 0 ∷ 1 ∷ 0 ∷ 0 ∷ 1 ∷ []) ≡ codes "2001:db8::1:0:0:1"
unfolding format_groups
compressed = refl

unspecified : format_groups (0 ∷ 0 ∷ 0 ∷ 0 ∷ 0 ∷ 0 ∷ 0 ∷ 0 ∷ []) ≡ codes "::"
unfolding format_groups
unspecified = refl

loopback : format_groups (0 ∷ 0 ∷ 0 ∷ 0 ∷ 0 ∷ 0 ∷ 0 ∷ 1 ∷ []) ≡ codes "::1"
unfolding format_groups
loopback = refl

trailing : format_groups (0xfe80 ∷ 1 ∷ 2 ∷ 3 ∷ 4 ∷ 0 ∷ 0 ∷ 0 ∷ []) ≡ codes "fe80:1:2:3:4::"
unfolding format_groups
trailing = refl

single_zero : format_groups (1 ∷ 0 ∷ 2 ∷ 3 ∷ 4 ∷ 5 ∷ 6 ∷ 7 ∷ []) ≡ codes "1:0:2:3:4:5:6:7"
unfolding format_groups
single_zero = refl

abbrev table : RoutingTable
table = record { routes = (codes "10.0.0.2", 7) ∷ (codes "10.0.0.3", 8) ∷ [] }

abbrev two : Bytes
two = codes "10.0.0.2"

abbrev three : Bytes
three = codes "10.0.0.3"

lookup-add_example :
    lookup three (add two 9 table) ≡ (if same two three then 9 else lookup three table)
lookup-add_example = lookup-add two three 9 table

table-IsTable : IsTable table
unfolding same
table-IsTable = ((refl, tt), (tt, tt))

lookup-remove_example :
    lookup two (remove two table) ≡ (if same two two then null else lookup two table)
lookup-remove_example = lookup-remove two two table table-IsTable

abbrev header : Bytes
header = 192 ∷ 168 ∷ 1 ∷ 20 ∷ 10 ∷ 0 ∷ 0 ∷ 2 ∷ []

abbrev two_runs : List ℕ
two_runs = 1 ∷ 0 ∷ 0 ∷ 5 ∷ 0 ∷ 0 ∷ 0 ∷ 1 ∷ []

longest_run-IsCollapse_example : IsCollapse two_runs (longest_run two_runs)
longest_run-IsCollapse_example = longest_run-IsCollapse two_runs
