-- ===== src/Routing/Table.antt =====
-- The routing table as a function from addresses to streams.
use nospoon.Base.{
  ℕ, ◌+◌, ◌≡◌, [], ◌∷◌, none, some, arith, ◌==◌, if◌then◌else◌, Bytes, same, same_iff,
}
use nospoon.Base.Dict.{
  Dict, get, Fresh, Distinct, get-put, get-erase, get-Fresh, put-Distinct, erase-Distinct,
  length-put,
}
use nospoon.Routing.{
  null, RoutingTable, add, remove, drop_stream, remove_stream, or_null, lookup, size,
}

-- Each address has one route.
abbrev pub IsTable : RoutingTable → Type 0
IsTable t = Distinct t.routes

-- The latest route of an address counts, and other addresses keep theirs.
pub lookup-add :
    (ip j : Bytes) (stream : ℕ) (t : RoutingTable)
    → lookup j (add ip stream t) ≡ (if same ip j then stream else lookup j t)
unfolding lookup add
lookup-add ip j stream t = ground (arith, get-put ip j stream t.routes)

-- A removed address has no route, and other addresses keep theirs.
pub lookup-remove :
    (ip j : Bytes) (t : RoutingTable)
    → IsTable t
    → lookup j (remove ip t) ≡ (if same ip j then null else lookup j t)
unfolding lookup remove
lookup-remove ip j t d = ground (arith, get-erase ip j t.routes d)

Fresh-drop_stream : (s : ℕ) (j : Bytes) (m : Dict ℕ) → Fresh j m → Fresh j (drop_stream s m)
unfolding drop_stream
Fresh-drop_stream s j [] f = tt
Fresh-drop_stream s j ((i, w) ∷ m) f = ground (arith, Fresh-drop_stream s j m)

drop_stream-Distinct : (s : ℕ) (m : Dict ℕ) → Distinct m → Distinct (drop_stream s m)
unfolding drop_stream
drop_stream-Distinct s [] d = tt
drop_stream-Distinct s ((i, w) ∷ m) d =
    ground (arith, drop_stream-Distinct s m d.1, Fresh-drop_stream s i m d.0)

get-drop_stream :
    (s : ℕ) (j : Bytes) (m : Dict ℕ)
    → Distinct m
    → or_null (get j (drop_stream s m))
      ≡ (if or_null (get j m) == s then null else or_null (get j m))
unfolding get drop_stream
get-drop_stream s j [] d = ground arith
get-drop_stream s j ((i, w) ∷ m) d = ground (
  arith,
  same_iff i j,
  get-drop_stream s j m d.1,
  get-Fresh i m d.0,
  get-Fresh i (drop_stream s m) (Fresh-drop_stream s i m d.0),
)

-- In a table with one route for each address, every route of the removed stream is gone, and every
-- other address keeps its route.
pub lookup-remove_stream :
    (s : ℕ) (j : Bytes) (t : RoutingTable)
    → IsTable t
    → lookup j (remove_stream s t) ≡ (if lookup j t == s then null else lookup j t)
unfolding lookup remove_stream
lookup-remove_stream s j t d = get-drop_stream s j t.routes d

pub add-IsTable : (ip : Bytes) (s : ℕ) (t : RoutingTable) → IsTable t → IsTable (add ip s t)
unfolding add
add-IsTable ip s t d = put-Distinct ip s t.routes d

pub remove-IsTable : (ip : Bytes) (t : RoutingTable) → IsTable t → IsTable (remove ip t)
unfolding remove
remove-IsTable ip t d = erase-Distinct ip t.routes d

pub remove_stream-IsTable : (s : ℕ) (t : RoutingTable) → IsTable t → IsTable (remove_stream s t)
unfolding remove_stream
remove_stream-IsTable s t d = drop_stream-Distinct s t.routes d

-- A new address adds one route; a known one is replaced in place.
pub size-add :
    (ip : Bytes) (s : ℕ) (t : RoutingTable)
    → size (add ip s t) ≡ elim (get ip t.routes) [ none ↦ size t + 1 | some _ ↦ size t ]
unfolding size add
size-add ip s t = length-put ip s t.routes
