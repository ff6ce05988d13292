-- ===== src/Tun/Windows.antt =====
-- cpp/tun_windows.cpp: an adapter of Wintun, set up by `netsh`, with a thread that waits for its
-- packets.
use nospoon.Base.{
  ◌≡◌, refl, ℕ, ◌+◌, Bool, true, false, not, List, [], ◌∷◌, ◌++◌, Option, none, some, if◌then◌else◌,
  Bytes, codes, find, is_empty, take, drop, length, leb, suc, arith,
}
use nospoon.Base.Int.{decimal_int, ℤ, pos, negsuc}
use nospoon.Tun.Netmask.{netmask, stoi}
use nospoon.Tun.Loader
use nospoon.Tun.{
  Handle, Action, acquire, release, transmit, Kind, Opened, failed, printed, run_commands,
  unless_empty, Device, IsLawful, one_if, same_handle, acquired, released, run_commands_holds,
  acquired-append, released-append,
}

-- A pointer is null or not. The read event belongs to the session. `running` is also whether the
-- thread is there.
pub record Tun : Type 0 where
  pub adapter : Bool
  pub session : Bool
  pub stop_event : Bool
  pub mtu : ℤ
  pub async_active : Bool
  pub running : Bool

abbrev pub closed_tun : Tun
closed_tun = record {
  adapter = false;
  session = false;
  stop_event = false;
  mtu = pos 1400;
  async_active = false;
  running = false;
}

-- Whether the library is there and the calls of it and of the system succeed, the exit codes, and
-- whether the ring has a slot for so many bytes.
pub record System : Type 0 where
  pub loaded : Bool
  pub library : Loader.System
  pub stale : Bool
  pub creates : Bool
  pub starts : Bool
  pub creates_event : Bool
  pub exit : Bytes → ℕ
  pub slot : ℕ → Bool

abbrev pub set_address : Bytes → ℕ → Bytes
set_address ip_addr prefix = printed 512 (
    codes "netsh interface ipv4 set address name=\"Nospoon\" source=static addr="
    ++ (ip_addr ++ (codes " mask=" ++ (netmask prefix ++ codes " > NUL 2>&1"))))

abbrev pub add_address6 : Bytes → Bytes
add_address6 ipv6_cidr = printed 512 (
    codes "netsh interface ipv6 add address interface=\"Nospoon\" address="
    ++ (ipv6_cidr ++ codes " > NUL 2>&1"))

abbrev pub set_mtu : ℤ → Bytes
set_mtu mtu = printed 512 (
    codes "netsh interface ipv4 set subinterface \"Nospoon\" mtu="
    ++ (decimal_int mtu ++ codes " store=active > NUL 2>&1"))

abbrev pub commands : Bytes → ℕ → ℤ → Bytes → List (Kind × Bytes)
commands ip_addr prefix mtu ipv6_cidr =
    (Kind.required, set_address ip_addr prefix)
    ∷ (unless_empty ipv6_cidr (add_address6 ipv6_cidr) ++ ((Kind.required, set_mtu mtu) ∷ []))

-- Behind the commands: the session and the event. An early return gives back what was taken.
abbrev pub with_session : System → Tun → ℤ → Bool × List Action → Opened Tun
with_session sys t mtu (false, acts) =
    failed (record t { adapter = false }) (acts ++ (release Handle.adapter ∷ []))
with_session sys t mtu (true, acts) =
    if not sys.starts
    then failed (record t { adapter = false; session = false })
        (acts ++ (release Handle.adapter ∷ []))
    else if not sys.creates_event
    then failed (record t { adapter = false; session = false; stop_event = false })
        (acts ++ (acquire Handle.session ∷ release Handle.session ∷ release Handle.adapter ∷ []))
    else record {
      result = true;
      state = record t { adapter = true; session = true; stop_event = true; mtu = mtu };
      actions = acts ++ (acquire Handle.session ∷ acquire Handle.stop_event ∷ []);
    }

-- `auto stale = pOpenAdapter(w_name); if (stale) pClose(stale);`
abbrev pub close_stale : System → List Action
close_stale sys = if sys.stale then acquire Handle.adapter ∷ release Handle.adapter ∷ [] else []

abbrev pub with_adapter : System → Tun → Bytes → ℤ → Bytes → ℕ → Opened Tun
with_adapter sys t ip_addr mtu ipv6_cidr prefix =
    let (done, acts) = run_commands sys.exit (commands ip_addr prefix mtu ipv6_cidr) in
    if not sys.creates
    then failed (record t { adapter = false }) (close_stale sys)
    else with_session sys t mtu (done, (close_stale sys) ++ (acquire Handle.adapter ∷ acts))

abbrev pub with_prefix : System → Tun → Bytes → ℤ → Bytes → Option ℤ → Opened Tun
with_prefix sys t ip_addr mtu ipv6_cidr none = failed t []
with_prefix sys t ip_addr mtu ipv6_cidr (some (negsuc n)) = failed t []
with_prefix sys t ip_addr mtu ipv6_cidr (some (pos prefix)) =
    if leb prefix 32 then with_adapter sys t ip_addr mtu ipv6_cidr prefix else failed t []

abbrev pub with_slash : System → Tun → Bytes → ℤ → Bytes → Option ℕ → Opened Tun
with_slash sys t ip_cidr mtu ipv6_cidr none = failed t []
with_slash sys t ip_cidr mtu ipv6_cidr (some slash) =
    with_prefix sys t (take slash ip_cidr) mtu ipv6_cidr (stoi (drop (suc slash) ip_cidr))

unfoldable pub open_device : System → Tun → Bytes → ℤ → Bytes → Opened Tun
unfolding Loader.load_wintun_dll run_commands decimal_int find stoi netmask
open_device sys t ip_cidr mtu ipv6_cidr =
    if (Loader.load_wintun_dll sys.library sys.loaded).0
    then with_slash sys t ip_cidr mtu ipv6_cidr (find b'/' ip_cidr)
    else failed t []

unfoldable pub start : Tun → Tun × List Action
start t = if not t.session then (t, []) else (
  record t { async_active = true; running = true },
  acquire Handle.async ∷ acquire Handle.worker ∷ [],
)

unfoldable pub write : System → Tun → Bytes → Option ℕ × List Action
write sys t packet =
    if not t.session
    then (none, [])
    else if is_empty packet
    then (none, [])
    else if not (sys.slot (length packet))
    then (none, [])
    else (some (length packet), transmit packet ∷ [])

abbrev pub release_if : Bool → Handle → List Action
release_if b h = if b then release h ∷ [] else []

-- The thread is told by the event and joined before all else is given back.
unfoldable pub close : Tun → Tun × List Action
close t = (
  record t {
    running = false;
    async_active = false;
    session = false;
    adapter = false;
    stop_event = false;
  },
  release_if t.running Handle.worker
      ++ (release_if t.async_active Handle.async
          ++ (release_if t.session Handle.session
              ++ (release_if t.adapter Handle.adapter
                  ++ release_if t.stop_event Handle.stop_event))),
)

abbrev pub held_if : Bool → Handle → Handle → ℕ
held_if b h k = if b then one_if (same_handle h k) else 0

abbrev pub held : Handle → Tun → ℕ
held h t =
    held_if t.running h Handle.worker
    + held_if t.async_active h Handle.async
    + held_if t.session h Handle.session
    + held_if t.adapter h Handle.adapter
    + held_if t.stop_event h Handle.stop_event

abbrev pub windows : Device
windows = record {
  State = Tun;
  System = System;
  fresh = closed_tun;
  held = held;
  is_open = λ t. t.session;
  open_device = open_device;
  start = start;
  write = write;
  close = close;
}

-- Whatever an open call did on a device that held nothing, its balance is what it holds, it is open
-- exactly if it says so, and it is not started.
abbrev IsBalanced : Handle → Opened Tun → Type 0
IsBalanced h r =
    (acquired h r.actions ≡ released h r.actions + held h r.state)
    × (r.state.session ≡ r.result)
    × (r.state.async_active ≡ false)
    × (r.state.running ≡ false)
    × (r.result ≡ false → held h r.state ≡ 0)

module _ (sys : System) (mtu : ℤ) (h : Handle) where
  -- An adapter is held once the commands ran.
  with_session-IsBalanced :
      (ran : Bool × List Action)
      → acquired h ran.1 ≡ released h ran.1 + one_if (same_handle h Handle.adapter)
      → IsBalanced h (with_session sys closed_tun mtu ran)
  unfolding acquired released
  with_session-IsBalanced (false, acts) e = ground (
    arith,
    acquired-append h acts (release Handle.adapter ∷ []),
    released-append h acts (release Handle.adapter ∷ []),
  )
  with_session-IsBalanced (true, acts) e = ground (
    arith,
    acquired-append h acts (release Handle.adapter ∷ []),
    released-append h acts (release Handle.adapter ∷ []),
    acquired-append h acts
        (acquire Handle.session ∷ release Handle.session ∷ release Handle.adapter ∷ []),
    released-append h acts
        (acquire Handle.session ∷ release Handle.session ∷ release Handle.adapter ∷ []),
    acquired-append h acts (acquire Handle.session ∷ acquire Handle.stop_event ∷ []),
    released-append h acts (acquire Handle.session ∷ acquire Handle.stop_event ∷ []),
  )

  with_adapter-IsBalanced :
      (ip ip6 : Bytes) (prefix : ℕ) → IsBalanced h (with_adapter sys closed_tun ip mtu ip6 prefix)
  unfolding acquired released
  with_adapter-IsBalanced ip ip6 prefix =
      let ran = run_commands sys.exit (commands ip prefix mtu ip6) in
      ground (
        arith,
        run_commands_holds sys.exit (commands ip prefix mtu ip6) h,
        with_session-IsBalanced (ran.0, close_stale sys ++ (acquire Handle.adapter ∷ ran.1)),
        acquired-append h (close_stale sys) (acquire Handle.adapter ∷ ran.1),
        released-append h (close_stale sys) (acquire Handle.adapter ∷ ran.1),
      )

  with_prefix-IsBalanced :
      (ip ip6 : Bytes) (prefix : Option ℤ)
      → IsBalanced h (with_prefix sys closed_tun ip mtu ip6 prefix)
  unfolding acquired released
  with_prefix-IsBalanced ip ip6 none = (refl, refl, refl, refl, λ _. refl)
  with_prefix-IsBalanced ip ip6 (some (negsuc n)) = (refl, refl, refl, refl, λ _. refl)
  with_prefix-IsBalanced ip ip6 (some (pos n)) = ground (arith, with_adapter-IsBalanced ip ip6 n)

  with_slash-IsBalanced :
      (ip ip6 : Bytes) (slash : Option ℕ)
      → IsBalanced h (with_slash sys closed_tun ip mtu ip6 slash)
  unfolding acquired released
  with_slash-IsBalanced ip ip6 none = (refl, refl, refl, refl, λ _. refl)
  with_slash-IsBalanced ip ip6 (some slash) =
      with_prefix-IsBalanced (take slash ip) ip6 (stoi (drop (suc slash) ip))

  open-IsBalanced : (ip ip6 : Bytes) → IsBalanced h (open_device sys closed_tun ip mtu ip6)
  unfolding open_device acquired released
  open-IsBalanced ip ip6 = ground (arith, with_slash-IsBalanced ip ip6 (find b'/' ip))

-- The same for the Wintun device: on every error path of open the adapter, the session and the event
-- that were taken are given back, and close gives back the thread, the wake-up handle, the session,
-- the adapter and the event, each exactly if it was held.
pub windows-IsLawful : IsLawful windows
unfolding start write close acquired released
windows-IsLawful = record {
  held-fresh = λ h. refl;
  held-open = λ sys ip mtu ip6 h. (open-IsBalanced sys mtu h ip ip6).0;
  is_open-open = λ sys ip mtu ip6. (open-IsBalanced sys mtu Handle.session ip ip6).1;
  failed_holds = λ sys ip mtu ip6 h no. (open-IsBalanced sys mtu h ip ip6).4 no;
  held-start = λ sys ip mtu ip6 h. ground (arith, open-IsBalanced sys mtu h ip ip6);
  write_holds = λ sys t packet h. ground arith;
  write_closed = λ sys t packet closed. ground arith;
  held-close = λ t h. ground arith;
  is_open-close = λ t. refl;
}
