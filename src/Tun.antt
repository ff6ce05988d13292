-- ===== src/Tun.antt =====
-- cpp/tun.hpp: the TUN device as the client and the server use it, over one of three backends. A
-- call gives the new state and, in order, what it asks of the system.
pub mod Descriptor
pub mod Linux
pub mod Macos
pub mod Netmask
pub mod Windows
pub mod Loader
pub mod Ring
pub mod Lifecycle
pub mod Loopback
mod Tests
use nospoon.Base.{
  ◌≡◌, refl, ℕ, ◌+◌, ◌-◌, Bool, true, false, List, [], ◌∷◌, ◌++◌, Option, none, some, ◌==◌,
  if◌then◌else◌, Bytes, codes, take, is_empty, suc, arith,
}
use nospoon.Base.Int.{ℤ, pos, negsuc}
use nospoon.Base.Numerals.{decimal}

-- What a device takes from the system and has to give back. A descriptor and a pointer are held or
-- not: `fd_ >= 0`, `session_` not null.
pub data Handle : Type 0 where
  descriptor poll adapter session stop_event async worker : Handle

-- `adapter` twice under `pOpenAdapter`: the stale one of a crashed run is closed at once.
pub data Action : Type 0 where
  acquire : Handle → Action
  release : Handle → Action
  system : Bytes → Action
  transmit : Bytes → Action

pub data Kind : Type 0 where
  required optional : Kind

-- `snprintf` into a buffer of `size` bytes
abbrev pub printed : ℕ → Bytes → Bytes
printed size s = take (size - 1) s

-- `if (system(cmd) != 0)`: the first required command that fails ends the chain, an optional one is
-- let go.
unfoldable pub run_commands : (Bytes → ℕ) → List (Kind × Bytes) → Bool × List Action
run_commands exit [] = (true, [])
run_commands exit ((Kind.required, c) ∷ later) =
    let (done, rest) = run_commands exit later in
    if exit c == 0 then (done, system c ∷ rest) else (false, system c ∷ [])
run_commands exit ((Kind.optional, c) ∷ later) =
    let (done, rest) = run_commands exit later in (done, system c ∷ rest)

-- `if (!s.empty())` around an optional command
abbrev pub unless_empty : Bytes → Bytes → List (Kind × Bytes)
unless_empty s c = if is_empty s then [] else (Kind.optional, c) ∷ []

pub record Opened (S : Type 0) : Type 0 where
  pub result : Bool
  pub state : S
  pub actions : List Action

abbrev pub failed : {S : Type 0} → S → List Action → Opened S
failed s acts = record { result = false; state = s; actions = acts }

abbrev pub same_handle : Handle → Handle → Bool
same_handle Handle.descriptor Handle.descriptor = true
same_handle Handle.poll Handle.poll = true
same_handle Handle.adapter Handle.adapter = true
same_handle Handle.session Handle.session = true
same_handle Handle.stop_event Handle.stop_event = true
same_handle Handle.async Handle.async = true
same_handle Handle.worker Handle.worker = true
same_handle _ _ = false

abbrev pub one_if : Bool → ℕ
one_if b = if b then 1 else 0

-- How often a handle is acquired, and how often released.
unfoldable pub acquired : Handle → List Action → ℕ
acquired h [] = 0
acquired h (acquire k ∷ log) = one_if (same_handle h k) + acquired h log
acquired h (_ ∷ log) = acquired h log

unfoldable pub released : Handle → List Action → ℕ
released h [] = 0
released h (release k ∷ log) = one_if (same_handle h k) + released h log
released h (_ ∷ log) = released h log

-- The public members that the callers use, over a state of the backend's own. `System` is what the
-- system answers during a call, `held` counts the handles of a state. `write` gives none for -1.
pub record Device : Type 1 where
  pub State : Type 0
  pub System : Type 0
  pub fresh : State
  pub held : Handle → State → ℕ
  pub is_open : State → Bool
  pub open_device : System → State → Bytes → ℤ → Bytes → Opened State
  pub start : State → State × List Action
  pub write : System → State → Bytes → Option ℕ × List Action
  pub close : State → State × List Action

-- What the callers rely on. A device is opened when it holds nothing, and started once.
pub record IsLawful (D : Device) : Type 0 where
  pub held-fresh : (h : Handle) → D.held h D.fresh ≡ 0
  pub held-open :
      (sys : D.System) (ip : Bytes) (mtu : ℤ) (ip6 : Bytes) (h : Handle)
      → let r = D.open_device sys D.fresh ip mtu ip6 in
        acquired h r.actions ≡ released h r.actions + D.held h r.state
  pub is_open-open :
      (sys : D.System) (ip : Bytes) (mtu : ℤ) (ip6 : Bytes)
      → let r = D.open_device sys D.fresh ip mtu ip6 in D.is_open r.state ≡ r.result
  pub failed_holds :
      (sys : D.System) (ip : Bytes) (mtu : ℤ) (ip6 : Bytes) (h : Handle)
      → let r = D.open_device sys D.fresh ip mtu ip6 in r.result ≡ false → D.held h r.state ≡ 0
  pub held-start :
      (sys : D.System) (ip : Bytes) (mtu : ℤ) (ip6 : Bytes) (h : Handle)
      → let s = (D.open_device sys D.fresh ip mtu ip6).state in
        D.held h s + acquired h (D.start s).1 ≡ released h (D.start s).1 + D.held h (D.start s).0
  pub write_holds :
      (sys : D.System) (s : D.State) (packet : Bytes) (h : Handle)
      → (acquired h (D.write sys s packet).1 ≡ 0) × (released h (D.write sys s packet).1 ≡ 0)
  pub write_closed :
      (sys : D.System) (s : D.State) (packet : Bytes)
      → D.is_open s ≡ false
      → D.write sys s packet ≡ (none, [])
  pub held-close :
      (s : D.State) (h : Handle)
      → (released h (D.close s).1 ≡ acquired h (D.close s).1 + D.held h s)
        × (D.held h (D.close s).0 ≡ 0)
  pub is_open-close : (s : D.State) → D.is_open (D.close s).0 ≡ false

-- Commands take no handle.
pub run_commands_holds :
    (exit : Bytes → ℕ) (cmds : List (Kind × Bytes)) (h : Handle)
    → (acquired h (run_commands exit cmds).1 ≡ 0) × (released h (run_commands exit cmds).1 ≡ 0)
unfolding run_commands acquired released
run_commands_holds exit [] h = (refl, refl)
run_commands_holds exit ((Kind.required, c) ∷ later) h =
    ground (arith, run_commands_holds exit later h)
run_commands_holds exit ((Kind.optional, c) ∷ later) h = run_commands_holds exit later h

pub acquired-append :
    (h : Handle) (a b : List Action) → acquired h (a ++ b) ≡ acquired h a + acquired h b
unfolding acquired
acquired-append h [] b = omega arith
acquired-append h (acquire k ∷ a) b = omega (arith, acquired-append h a b)
acquired-append h (release k ∷ a) b = acquired-append h a b
acquired-append h (system c ∷ a) b = acquired-append h a b
acquired-append h (transmit p ∷ a) b = acquired-append h a b

pub released-append :
    (h : Handle) (a b : List Action) → released h (a ++ b) ≡ released h a + released h b
unfolding released
released-append h [] b = omega arith
released-append h (release k ∷ a) b = omega (arith, released-append h a b)
released-append h (acquire k ∷ a) b = released-append h a b
released-append h (system c ∷ a) b = released-append h a b
released-append h (transmit p ∷ a) b = released-append h a b
