-- ===== src/Tun/Descriptor.antt =====
-- cpp/tun_linux.hpp and cpp/tun_macos.cpp: the state of a device that is a file descriptor polled by
-- libuv, and the end of an open call.
use nospoon.Base.{◌≡◌, ℕ, ◌+◌, Bool, true, false, List, [], ◌∷◌, ◌++◌, if◌then◌else◌, Bytes, arith}
use nospoon.Base.Int.{ℤ, pos}
use nospoon.Tun.{
  Handle, Action, acquire, release, Opened, failed, one_if, same_handle, acquired, released,
  acquired-append, released-append,
}

-- `fd` is `fd_ >= 0`.
pub record Tun : Type 0 where
  pub fd : Bool
  pub mtu : ℤ
  pub name : Bytes
  pub poll_active : Bool

abbrev pub closed_tun : Tun
closed_tun = record { fd = false; mtu = pos 1400; name = []; poll_active = false }

-- `::close(fd_); fd_ = -1;` behind what failed, else the device is there.
abbrev pub configured : Tun → ℤ → Bool × List Action → Opened Tun
configured t mtu (false, acts) =
    failed (record t { fd = false })
      (acquire Handle.descriptor ∷ (acts ++ (release Handle.descriptor ∷ [])))
configured t mtu (true, acts) = record {
  result = true;
  state = record t { mtu = mtu };
  actions = acquire Handle.descriptor ∷ acts;
}

abbrev pub held : Handle → Tun → ℕ
held h t =
    (if t.fd then one_if (same_handle h Handle.descriptor) else 0)
    + (if t.poll_active then one_if (same_handle h Handle.poll) else 0)

-- Whatever an open call did, its balance is what it holds, and it is open exactly if it says so.
abbrev pub IsBalanced : Handle → Opened Tun → Type 0
IsBalanced h r =
    (acquired h r.actions ≡ released h r.actions + held h r.state)
    × (r.state.fd ≡ r.result)
    × (r.state.poll_active ≡ false)

pub configured-IsBalanced :
    (t : Tun) (mtu : ℤ) (ran : Bool × List Action) (h : Handle)
    → t.fd ≡ true
    → t.poll_active ≡ false
    → (acquired h ran.1 ≡ 0) × (released h ran.1 ≡ 0)
    → IsBalanced h (configured t mtu ran)
unfolding acquired released
configured-IsBalanced t mtu (false, acts) h on idle free = ground (
  arith,
  acquired-append h acts (release Handle.descriptor ∷ []),
  released-append h acts (release Handle.descriptor ∷ []),
)
configured-IsBalanced t mtu (true, acts) h on idle free = ground arith

pub if-IsBalanced :
    (h : Handle) (b : Bool) (x y : Opened Tun)
    → IsBalanced h x
    → IsBalanced h y
    → IsBalanced h (if b then x else y)
if-IsBalanced h true x y p q = p
if-IsBalanced h false x y p q = q
