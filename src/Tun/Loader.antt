-- ===== src/Tun/Loader.antt =====
-- cpp/tun_windows.cpp: `load_wintun_dll`, over the global that holds the library.
use nospoon.Base.{
  ◌≡◌, refl, ℕ, ◌+◌, zero, suc, Bool, true, false, ◌&&◌, ◌||◌, List, [], ◌∷◌, ◌++◌, ◌==◌, ltb,
  if◌then◌else◌, Bytes, codes, take, length, all, arith,
}

-- The text of GetModuleFileNameW and its length, whether LoadLibraryW finds a path, and which
-- functions the library has.
pub record System : Type 0 where
  pub exe_path : Bytes
  pub len : ℕ
  pub load_library : Bytes → Bool
  pub has : Bytes → Bool

pub data Call : Type 0 where
  load : Bytes → Call
  get_proc : Bytes → Call
  free : Call

abbrev pub max_path : ℕ
max_path = 260

unfoldable pub last_byte : ℕ → Bytes → ℕ
last_byte c [] = c
last_byte c (x ∷ xs) = last_byte x xs

abbrev pub is_separator : ℕ → Bool
is_separator c = c == b'\\' || c == b'/'

-- `exe_path[i] = 0` behind the last separator up to `i`; without one the path stays whole.
unfoldable pub directory : Bytes → ℕ → Bytes
unfolding last_byte
directory path zero = path
directory path (suc i) =
    let rest = directory path i in
    if is_separator (last_byte 0 (take (suc i) path)) then take (suc i) path else rest

-- The loads in their order, up to the first that succeeds: beside the program if its path is known
-- and the buffer holds the new one, then by name.
abbrev pub candidates : System → List Bytes
candidates sys =
    let beside = directory sys.exe_path sys.len ++ codes "wintun.dll" in
    (if ltb 0 sys.len && ltb sys.len max_path && ltb (length beside) max_path
      then beside ∷ []
      else [])
    ++ (codes "wintun.dll" ∷ [])

unfoldable pub load_first : System → List Bytes → Bool × List Call
load_first sys [] = (false, [])
load_first sys (path ∷ later) =
    let (found, calls) = load_first sys later in
    if sys.load_library path then (true, load path ∷ []) else (found, load path ∷ calls)

abbrev pub functions : List Bytes
functions =
    codes "WintunCreateAdapter"
    ∷ codes "WintunOpenAdapter"
    ∷ codes "WintunCloseAdapter"
    ∷ codes "WintunStartSession"
    ∷ codes "WintunEndSession"
    ∷ codes "WintunGetReadWaitEvent"
    ∷ codes "WintunReceivePacket"
    ∷ codes "WintunReleaseReceivePacket"
    ∷ codes "WintunAllocateSendPacket"
    ∷ codes "WintunSendPacket"
    ∷ codes "WintunGetRunningDriverVersion"
    ∷ []

-- LOAD, one function after the other: the first that is missing frees the library.
unfoldable pub load_functions : System → List Bytes → Bool × List Call
load_functions sys [] = (true, [])
load_functions sys (name ∷ later) =
    let (done, calls) = load_functions sys later in
    if sys.has name then (done, get_proc name ∷ calls) else (false, get_proc name ∷ free ∷ [])

abbrev pub with_library : System → Bool × List Call → Bool × List Call
with_library sys (false, calls) = (false, calls)
with_library sys (true, calls) =
    let (done, more) = load_functions sys functions in (done, calls ++ more)

-- The result is also whether `g_wintun_dll` is set behind the call.
unfoldable pub load_wintun_dll : System → Bool → Bool × List Call
unfolding directory load_first load_functions
load_wintun_dll sys loaded =
    let loading = with_library sys (load_first sys (candidates sys)) in
    if loaded then (true, []) else loading

load_functions_lem :
    (sys : System) (names : List Bytes) → (load_functions sys names).0 ≡ all (λ n. sys.has n) names
unfolding load_functions
load_functions_lem sys [] = refl
load_functions_lem sys (n ∷ names) = ground (arith, load_functions_lem sys names)

pub frees : List Call → ℕ
frees [] = 0
frees (free ∷ log) = 1 + frees log
frees (load p ∷ log) = frees log
frees (get_proc n ∷ log) = frees log

-- How many loads succeeded.
pub loads : System → List Call → ℕ
loads sys [] = 0
loads sys (free ∷ log) = loads sys log
loads sys (load p ∷ log) = (if sys.load_library p then 1 else 0) + loads sys log
loads sys (get_proc n ∷ log) = loads sys log

abbrev pub one : Bool → ℕ
one b = if b then 1 else 0

frees-append : (a b : List Call) → frees (a ++ b) ≡ frees a + frees b
unfolding frees
frees-append [] b = omega arith
frees-append (free ∷ a) b = omega (arith, frees-append a b)
frees-append (load p ∷ a) b = frees-append a b
frees-append (get_proc n ∷ a) b = frees-append a b

loads-append : (sys : System) (a b : List Call) → loads sys (a ++ b) ≡ loads sys a + loads sys b
unfolding loads
loads-append sys [] b = omega arith
loads-append sys (load p ∷ a) b = omega (arith, loads-append sys a b)
loads-append sys (free ∷ a) b = loads-append sys a b
loads-append sys (get_proc n ∷ a) b = loads-append sys a b

first_loads :
    (sys : System) (paths : List Bytes)
    → (loads sys (load_first sys paths).1 ≡ one (load_first sys paths).0)
      × (frees (load_first sys paths).1 ≡ 0)
unfolding load_first loads frees
first_loads sys [] = (refl, refl)
first_loads sys (p ∷ paths) = ground (arith, first_loads sys paths)

function_loads :
    (sys : System) (names : List Bytes)
    → (loads sys (load_functions sys names).1 ≡ 0)
      × (frees (load_functions sys names).1 + one (load_functions sys names).0 ≡ 1)
unfolding load_functions loads frees
function_loads sys [] = (refl, refl)
function_loads sys (n ∷ names) = ground (arith, function_loads sys names)

loads-with_library :
    (sys : System) (r : Bool × List Call)
    → (loads sys r.1 ≡ one r.0)
    → (frees r.1 ≡ 0)
    → loads sys (with_library sys r).1 ≡ frees (with_library sys r).1 + one (with_library sys r).0
loads-with_library sys (false, calls) p q = omega (arith, p, q)
loads-with_library sys (true, calls) p q = omega (
  arith,
  p,
  q,
  loads-append sys calls (load_functions sys functions).1,
  frees-append calls (load_functions sys functions).1,
  function_loads sys functions,
)

pub load_wintun_dll-loads :
    (sys : System) (loaded : Bool)
    → let r = load_wintun_dll sys loaded in one loaded + loads sys r.1 ≡ frees r.1 + one r.0
unfolding load_wintun_dll loads frees
load_wintun_dll-loads sys true = refl
load_wintun_dll-loads sys false =
    let first = load_first sys (candidates sys) in
    omega (
      arith,
      loads-with_library sys first (first_loads sys (candidates sys)).0
          (first_loads sys (candidates sys)).1,
    )
