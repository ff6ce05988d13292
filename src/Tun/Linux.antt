-- ===== src/Tun/Linux.antt =====
-- cpp/tun_linux.hpp: a device of /dev/net/tun, set up by `ip`.
use nospoon.Base.{
  ◌≡◌, refl, ℕ, Bool, true, false, not, List, [], ◌∷◌, ◌++◌, Option, none, some, if◌then◌else◌,
  Bytes, codes, is_empty, take, arith,
}
use nospoon.Base.Int.{decimal_int, ℤ}
use nospoon.Tun.Descriptor.{
  Tun, closed_tun, configured, held, configured-IsBalanced, if-IsBalanced, IsBalanced,
}
use nospoon.Tun.{
  Handle, Action, acquire, release, transmit, Kind, Opened, failed, printed, run_commands,
  unless_empty, Device, IsLawful, acquired, released, run_commands_holds,
}

-- Whether the calls of the system succeed, the name that the kernel gives, the exit codes, and what
-- `::write` returns for a packet, none for -1.
pub record System : Type 0 where
  pub opens : Bool
  pub tunsetiff : Bool
  pub ifr_name : Bytes
  pub exit : Bytes → ℕ
  pub written : Bytes → Option ℕ

abbrev pub add_address : Bytes → Bytes → Bytes
add_address name ip_cidr =
    printed 256 (codes "ip addr add " ++ (ip_cidr ++ (codes " dev " ++ name)))

abbrev pub add_address6 : Bytes → Bytes → Bytes
add_address6 name ipv6_cidr =
    printed 256 (codes "ip -6 addr add " ++ (ipv6_cidr ++ (codes " dev " ++ name)))

abbrev pub set_link : Bytes → ℤ → Bytes
set_link name mtu =
    printed 256
      (codes "ip link set " ++ (name ++ (codes " mtu " ++ (decimal_int mtu ++ codes " up"))))

abbrev pub commands : Bytes → Bytes → ℤ → Bytes → List (Kind × Bytes)
commands name ip_cidr mtu ipv6_cidr =
    (Kind.required, add_address name ip_cidr)
    ∷ (unless_empty ipv6_cidr (add_address6 name ipv6_cidr)
        ++ ((Kind.required, set_link name mtu) ∷ []))

unfoldable pub open_device : System → Tun → Bytes → ℤ → Bytes → Opened Tun
unfolding run_commands decimal_int
open_device sys t ip_cidr mtu ipv6_cidr =
    let closed = record t { fd = false } in
    if not sys.opens
    then failed closed []
    else if not sys.tunsetiff
    then failed closed (acquire Handle.descriptor ∷ release Handle.descriptor ∷ [])
    else configured (record t { fd = true; name = sys.ifr_name }) mtu
        (run_commands sys.exit (commands sys.ifr_name ip_cidr mtu ipv6_cidr))

unfoldable pub start : Tun → Tun × List Action
start t = if not t.fd then (t, []) else (record t { poll_active = true }, acquire Handle.poll ∷ [])

unfoldable pub write : System → Tun → Bytes → Option ℕ × List Action
write sys t packet = if not t.fd then (none, []) else (sys.written packet, transmit packet ∷ [])

unfoldable pub close : Tun → Tun × List Action
close t = (
  record t { poll_active = false; fd = false },
  (if t.poll_active then release Handle.poll ∷ [] else [])
      ++ (if t.fd then release Handle.descriptor ∷ [] else []),
)

-- What a readable event hands up: `status` is what libuv reports and the list is what the read gave,
-- none for an error.
unfoldable pub on_poll : Bool → Bool → Option Bytes → Option Bytes
on_poll status_ok readable none = none
on_poll status_ok readable (some bytes) =
    let buf = take 65536 bytes in
    if not status_ok
    then none
    else if not readable
    then none
    else if is_empty buf
    then none
    else some buf

abbrev pub linux : Device
linux = record {
  State = Tun;
  System = System;
  fresh = closed_tun;
  held = held;
  is_open = λ t. t.fd;
  open_device = open_device;
  start = start;
  write = write;
  close = close;
}

open-IsBalanced :
    (sys : System) (t : Tun) (ip : Bytes) (mtu : ℤ) (ip6 : Bytes) (h : Handle)
    → t.poll_active ≡ false
    → IsBalanced h (open_device sys t ip mtu ip6)
unfolding open_device acquired released
open-IsBalanced sys t ip mtu ip6 h idle =
    let cmds = commands sys.ifr_name ip mtu ip6 in
    let up = record t { fd = true; name = sys.ifr_name } in
    let off = record t { fd = false } in
    let done = configured up mtu (run_commands sys.exit cmds) in
    let given_back = failed off (acquire Handle.descriptor ∷ release Handle.descriptor ∷ []) in
    if-IsBalanced h (not sys.opens) (failed off []) (if not sys.tunsetiff then given_back else done)
      (ground arith)
      (if-IsBalanced h (not sys.tunsetiff) given_back done (ground arith) (
        configured-IsBalanced up mtu (run_commands sys.exit cmds) h refl idle
          (run_commands_holds sys.exit cmds h)))

-- The Linux device does what its callers rely on: whatever calls of the system or commands fail, an
-- open call that fails holds no descriptor, one that succeeds is open and holds what it took, start
-- and close take and give back each handle once, close leaves nothing held, and a closed device
-- refuses to write.
pub linux-IsLawful : IsLawful linux
unfolding start write close acquired released
linux-IsLawful = record {
  held-fresh = λ h. refl;
  held-open = λ sys ip mtu ip6 h. (open-IsBalanced sys closed_tun ip mtu ip6 h refl).0;
  is_open-open =
      λ sys ip mtu ip6. (open-IsBalanced sys closed_tun ip mtu ip6 Handle.descriptor refl).1;
  failed_holds =
      λ sys ip mtu ip6 h no. ground (arith, open-IsBalanced sys closed_tun ip mtu ip6 h refl);
  held-start = λ sys ip mtu ip6 h. ground (arith, open-IsBalanced sys closed_tun ip mtu ip6 h refl);
  write_holds = λ sys t packet h. ground arith;
  write_closed = λ sys t packet closed. ground arith;
  held-close = λ t h. ground arith;
  is_open-close = λ t. refl;
}
