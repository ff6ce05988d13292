-- ===== src/Tun/Tests.antt =====
-- Runs of the devices on concrete systems.
use nospoon.Base.{◌≡◌, refl, true, false, [], ◌∷◌, ◌++◌, none, some, codes, inl, arith, List}
use nospoon.Base.Int.{pos, negsuc}
use nospoon.Tun.{Handle, Action, acquired, released}
use nospoon.Tun.Linux
use nospoon.Tun.Macos
use nospoon.Tun.Windows
use nospoon.Tun.Loader
use nospoon.Tun.Descriptor.{Tun, closed_tun}
use nospoon.Tun.Netmask.{netmask, reference, netmask_lem, stoi}
use nospoon.Tun.Lifecycle.{lifecycle, lifecycle-balance}
use nospoon.Tun.Loopback.{Carries, write-Carries}
use nospoon.Tun.Ring.{
  Event, IsDelivered, IsQuiet, Wait, arrivals, run, run-IsDelivered, started, step,
}

abbrev tun0 : Linux.System
tun0 = record {
  opens = true;
  tunsetiff = true;
  ifr_name = codes "tun0";
  exit = λ _. 0;
  written = λ _. some 20;
}

opened_linux :
    (Linux.open_device tun0 closed_tun (codes "10.0.0.1/24") (pos 1400) []).actions
    ≡ Action.acquire Handle.descriptor
      ∷ Action.system (codes "ip addr add 10.0.0.1/24 dev tun0")
      ∷ Action.system (codes "ip link set tun0 mtu 1400 up")
      ∷ []
unfolding Linux.open_device
opened_linux = refl

lifecycle-balance_example :
    acquired Handle.descriptor
      (lifecycle Linux.linux tun0 (codes "10.0.0.1/24") (pos 1400) [] ((tun0, 69 ∷ []) ∷ []))
    ≡ released Handle.descriptor
        (lifecycle Linux.linux tun0 (codes "10.0.0.1/24") (pos 1400) [] ((tun0, 69 ∷ []) ∷ []))
lifecycle-balance_example =
    lifecycle-balance Linux.linux Linux.linux-IsLawful tun0 (codes "10.0.0.1/24") (pos 1400) []
      ((tun0, 69 ∷ []) ∷ []) Handle.descriptor

abbrev utun4 : Macos.System
utun4 = record {
  socket = true;
  ctliocginfo = true;
  connect = true;
  getsockopt = true;
  ifname = codes "utun4";
  exit = λ _. 0;
  written = λ _. some 7;
}

opened_macos :
    (Macos.open_device utun4 closed_tun (codes "10.0.0.2/20") (pos 1400) []).actions
    ≡ Action.acquire Handle.descriptor
      ∷ Action.system (codes "ifconfig utun4 inet 10.0.0.2 10.0.0.2 netmask 255.255.240.0 up")
      ∷ Action.system (codes "ifconfig utun4 mtu 1400")
      ∷ []
unfolding Macos.open_device
opened_macos = refl

abbrev open_utun4 : Tun
open_utun4 = record closed_tun { fd = true }

write-Carries_example :
    Carries
      (Macos.write utun4 open_utun4 (69 ∷ 1 ∷ 2 ∷ []))
      (λ bytes. Macos.on_poll true true (some bytes))
      (69 ∷ 1 ∷ 2 ∷ [])
write-Carries_example = write-Carries utun4 open_utun4 69 (1 ∷ 2 ∷ []) refl (omega arith) (inl refl)

netmask_lem_example : netmask 20 ≡ reference 20
netmask_lem_example = netmask_lem 20 (omega arith)

abbrev wintun : Windows.System
wintun = record {
  loaded = false;
  library = record {
    exe_path = codes "C:\\nospoon\\nospoon.exe";
    len = 22;
    load_library = λ _. true;
    has = λ _. true;
  };
  stale = false;
  creates = true;
  starts = true;
  creates_event = false;
  exit = λ _. 0;
  slot = λ _. true;
}

loaded_beside :
    Loader.load_first wintun.library (Loader.candidates wintun.library)
    ≡ (true, Loader.load (codes "C:\\nospoon\\wintun.dll") ∷ [])
unfolding Loader.load_first Loader.directory
loaded_beside = refl

no_event :
    (Windows.open_device wintun Windows.closed_tun (codes "10.0.0.2/24") (pos 1400) []).result
    ≡ false
unfolding Windows.open_device
no_event = refl

stoi_reads : stoi (codes " -7x") ≡ some (negsuc 6)
unfolding stoi
stoi_reads = refl

stoi_throws : stoi (codes "x7") ≡ none
unfolding stoi
stoi_throws = refl

abbrev two_packets : List Event
two_packets =
    Event.arrive (69 ∷ []) ∷ Event.wake Wait.readable ∷ Event.callback ∷ Event.arrive (96 ∷ []) ∷ []

still_there : (run started two_packets).running ≡ true
unfolding run
still_there = refl

wake-IsQuiet : IsQuiet (Event.wake Wait.readable)
unfolding arrivals
wake-IsQuiet = refl

run-IsDelivered_example :
    IsDelivered
      (run
        (step (run started two_packets) (Event.wake Wait.readable))
        ((Event.wake Wait.readable ∷ []) ++ (Event.callback ∷ [])))
      (arrivals two_packets)
run-IsDelivered_example =
    run-IsDelivered two_packets (Event.wake Wait.readable ∷ []) still_there (wake-IsQuiet, tt)
