-- ===== src/Tun/Macos.antt =====
-- cpp/tun_macos.cpp: a utun device, set up by `ifconfig`. A packet travels behind four bytes that name
-- its protocol family.
use nospoon.Base.{
  ◌≡◌, refl, ℕ, ◌-◌, ◌/◌, ◌%◌, ◌==◌, Bool, true, false, not, List, [], ◌∷◌, ◌++◌, Option, none,
  some, if◌then◌else◌, Bytes, codes, find, is_empty, take, drop, length, leb, ltb, arith, suc,
}
use nospoon.Base.Int.{decimal_int, ℤ, pos, negsuc, atoi}
use nospoon.Tun.Descriptor.{Tun, closed_tun, configured, held, configured-IsBalanced, IsBalanced}
use nospoon.Tun.Netmask.{before, netmask}
use nospoon.Tun.{
  Handle, Action, acquire, release, transmit, Kind, Opened, failed, printed, run_commands,
  unless_empty, Device, IsLawful, acquired, released, run_commands_holds,
}

-- Whether the calls of the system succeed, the name that the kernel gives, the exit codes, and what
-- `writev` returns for the bytes of its two parts, none for -1.
pub record System : Type 0 where
  pub socket : Bool
  pub ctliocginfo : Bool
  pub connect : Bool
  pub getsockopt : Bool
  pub ifname : Bytes
  pub exit : Bytes → ℕ
  pub written : Bytes → Option ℕ

-- The descriptor's name if there is one, and what was done; an early return closes it.
unfoldable pub open_utun : System → Option Bytes × List Action
open_utun sys =
    let closing = acquire Handle.descriptor ∷ release Handle.descriptor ∷ [] in
    if not sys.socket
    then (none, [])
    else if not sys.ctliocginfo
    then (none, closing)
    else if not sys.connect
    then (none, closing)
    else if not sys.getsockopt
    then (none, closing)
    else (some sys.ifname, acquire Handle.descriptor ∷ [])

-- The prefix, 24 where there is no slash.
abbrev pub prefix_of : Option ℕ → Bytes → ℤ
prefix_of none ip_cidr = pos 24
prefix_of (some slash) ip_cidr = atoi (drop (suc slash) ip_cidr)

abbrev pub set_address : Bytes → Bytes → ℕ → Bytes
set_address name ip_addr prefix = printed 256 (
    codes "ifconfig "
    ++ (name
        ++ (codes " inet "
            ++ (ip_addr
                ++ (codes " "
                    ++ (ip_addr ++ (codes " netmask " ++ (netmask prefix ++ codes " up"))))))))

abbrev pub set_address6 : Bytes → Bytes → Bytes
set_address6 name ipv6_cidr =
    printed 256 (codes "ifconfig " ++ (name ++ (codes " inet6 " ++ ipv6_cidr)))

abbrev pub set_mtu : Bytes → ℤ → Bytes
set_mtu name mtu = printed 256 (codes "ifconfig " ++ (name ++ (codes " mtu " ++ decimal_int mtu)))

abbrev pub commands : Bytes → Bytes → ℕ → ℤ → Bytes → List (Kind × Bytes)
commands name ip_addr prefix mtu ipv6_cidr =
    (Kind.required, set_address name ip_addr prefix)
    ∷ (unless_empty ipv6_cidr (set_address6 name ipv6_cidr)
        ++ ((Kind.required, set_mtu name mtu) ∷ []))

-- Behind `open_utun`: a prefix out of range closes the device like a command that fails.
abbrev pub with_prefix : System → Tun → Bytes → ℤ → Bytes → ℤ → Opened Tun
with_prefix sys t ip_addr mtu ipv6_cidr (negsuc n) = configured t mtu (false, [])
with_prefix sys t ip_addr mtu ipv6_cidr (pos prefix) =
    let ran = run_commands sys.exit (commands t.name ip_addr prefix mtu ipv6_cidr) in
    configured t mtu (if leb prefix 32 then ran else (false, []))

abbrev pub with_utun : System → Tun → Bytes → ℤ → Bytes → Option Bytes × List Action → Opened Tun
with_utun sys t ip_cidr mtu ipv6_cidr (none, acts) = failed (record t { fd = false }) acts
with_utun sys t ip_cidr mtu ipv6_cidr (some name, acts) =
    let slash = find b'/' ip_cidr in
    with_prefix sys (record t { fd = true; name = name }) (before slash ip_cidr) mtu ipv6_cidr
      (prefix_of slash ip_cidr)

unfoldable pub open_device : System → Tun → Bytes → ℤ → Bytes → Opened Tun
unfolding open_utun run_commands decimal_int find atoi netmask
open_device sys t ip_cidr mtu ipv6_cidr = with_utun sys t ip_cidr mtu ipv6_cidr (open_utun sys)

unfoldable pub start : Tun → Tun × List Action
start t = if not t.fd then (t, []) else (record t { poll_active = true }, acquire Handle.poll ∷ [])

-- `htonl(AF_INET)` and `htonl(AF_INET6)`, which are 2 and 30 on macOS
abbrev pub family_header : ℕ → Option Bytes
family_header version =
    if version == 4
    then some (0 ∷ 0 ∷ 0 ∷ 2 ∷ [])
    else if version == 6
    then some (0 ∷ 0 ∷ 0 ∷ 30 ∷ [])
    else none

-- The first byte's upper half.
abbrev pub version : Bytes → ℕ
version [] = 0
version (b ∷ _) = b / 16 % 16

-- `(n < 4) ? -1 : n - 4`
abbrev pub payload_size : Option ℕ → Option ℕ
payload_size none = none
payload_size (some n) = if ltb n 4 then none else some (n - 4)

abbrev pub write_framed : System → Bytes → Option Bytes → Option ℕ × List Action
write_framed sys packet none = (none, [])
write_framed sys packet (some header) =
    (payload_size (sys.written (header ++ packet)), transmit (header ++ packet) ∷ [])

unfoldable pub write : System → Tun → Bytes → Option ℕ × List Action
write sys t packet =
    if not t.fd
    then (none, [])
    else if is_empty packet
    then (none, [])
    else write_framed sys packet (family_header (version packet))

unfoldable pub close : Tun → Tun × List Action
close t = (
  record t { poll_active = false; fd = false },
  (if t.poll_active then release Handle.poll ∷ [] else [])
      ++ (if t.fd then release Handle.descriptor ∷ [] else []),
)

-- What a readable event hands up: the read's bytes behind the first four, nothing if there are no
-- more than those.
unfoldable pub on_poll : Bool → Bool → Option Bytes → Option Bytes
on_poll status_ok readable none = none
on_poll status_ok readable (some bytes) =
    let buf = take 65536 bytes in
    if not status_ok
    then none
    else if not readable
    then none
    else if leb (length buf) 4
    then none
    else some (drop 4 buf)

abbrev pub macos : Device
macos = record {
  State = Tun;
  System = System;
  fresh = closed_tun;
  held = held;
  is_open = λ t. t.fd;
  open_device = open_device;
  start = start;
  write = write;
  close = close;
}

ran_holds :
    (exit : Bytes → ℕ) (cmds : List (Kind × Bytes)) (b : Bool) (h : Handle)
    → let ran = if◌then◌else◌ {A = Bool × List Action} b (run_commands exit cmds) (false, []) in
      (acquired h ran.1 ≡ 0) × (released h ran.1 ≡ 0)
unfolding acquired released
ran_holds exit cmds true h = run_commands_holds exit cmds h
ran_holds exit cmds false h = (refl, refl)

with_prefix-IsBalanced :
    (sys : System) (t : Tun) (ip : Bytes) (mtu : ℤ) (ip6 : Bytes) (prefix : ℤ) (h : Handle)
    → t.fd ≡ true
    → t.poll_active ≡ false
    → IsBalanced h (with_prefix sys t ip mtu ip6 prefix)
unfolding acquired released
with_prefix-IsBalanced sys t ip mtu ip6 (negsuc n) h on idle =
    configured-IsBalanced t mtu (false, []) h on idle (refl, refl)
with_prefix-IsBalanced sys t ip mtu ip6 (pos n) h on idle =
    let cmds = commands t.name ip n mtu ip6 in
    configured-IsBalanced t mtu (if leb n 32 then run_commands sys.exit cmds else (false, [])) h on
      idle (ran_holds sys.exit cmds (leb n 32) h)

if-with_utun :
    (h : Handle) (f : Option Bytes × List Action → Opened Tun) (b : Bool)
    (x y : Option Bytes × List Action)
    → IsBalanced h (f x)
    → IsBalanced h (f y)
    → IsBalanced h (f (if b then x else y))
if-with_utun h f true x y p q = p
if-with_utun h f false x y p q = q

open-IsBalanced :
    (sys : System) (t : Tun) (ip : Bytes) (mtu : ℤ) (ip6 : Bytes) (h : Handle)
    → t.poll_active ≡ false
    → IsBalanced h (open_device sys t ip mtu ip6)
unfolding open_device open_utun acquired released
open-IsBalanced sys t ip mtu ip6 h idle =
    let f = with_utun sys t ip mtu ip6 in
    if-with_utun h f (not sys.socket) _ _ (ground arith) (
      if-with_utun h f (not sys.ctliocginfo) _ _ (ground arith) (
        if-with_utun h f (not sys.connect) _ _ (ground arith) (
          if-with_utun h f (not sys.getsockopt) _ _ (ground arith) (
            with_prefix-IsBalanced sys (record t { fd = true; name = sys.ifname })
              (before (find b'/' ip) ip) mtu ip6 (prefix_of (find b'/' ip) ip) h refl idle))))

write_framed_holds :
    (sys : System) (packet : Bytes) (o : Option Bytes) (h : Handle)
    → (acquired h (write_framed sys packet o).1 ≡ 0)
      × (released h (write_framed sys packet o).1 ≡ 0)
unfolding acquired released
write_framed_holds sys packet none h = (refl, refl)
write_framed_holds sys packet (some header) h = (refl, refl)

-- The same for the utun device of macOS, whose open call has four more steps that may fail.
pub macos-IsLawful : IsLawful macos
unfolding start write close acquired released
macos-IsLawful = record {
  held-fresh = λ h. refl;
  held-open = λ sys ip mtu ip6 h. (open-IsBalanced sys closed_tun ip mtu ip6 h refl).0;
  is_open-open =
      λ sys ip mtu ip6. (open-IsBalanced sys closed_tun ip mtu ip6 Handle.descriptor refl).1;
  failed_holds =
      λ sys ip mtu ip6 h no. ground (arith, open-IsBalanced sys closed_tun ip mtu ip6 h refl);
  held-start = λ sys ip mtu ip6 h. ground (arith, open-IsBalanced sys closed_tun ip mtu ip6 h refl);
  write_holds = λ sys t packet h.
      ground (arith, write_framed_holds sys packet (family_header (version packet)) h);
  write_closed = λ sys t packet closed. ground arith;
  held-close = λ t h. ground arith;
  is_open-close = λ t. refl;
}
