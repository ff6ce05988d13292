-- ===== src/Tun/Lifecycle.antt =====
-- cpp/client.cpp and cpp/server.cpp: the calls that a program makes on its device, from the open call
-- to the destructor, over any device that keeps the laws.
use nospoon.Base.{
  ◌≡◌, refl, ℕ, ◌+◌, List, [], ◌∷◌, ◌++◌, Option, Bytes, arith, if◌then◌else◌, Bool-cases, inl, inr,
}
use nospoon.Base.Int.{ℤ}
use nospoon.Tun.{
  Device, IsLawful, Handle, Action, acquired, released, acquired-append, released-append,
}

module _ (D : Device) where
  -- The calls between the start and the close, each with what the system answers during it.
  unfoldable pub write_all : D.State → List (D.System × Bytes) → List (Option ℕ) × List Action
  write_all s [] = ([], [])
  write_all s ((sys, packet) ∷ later) =
      let (n, acts) = D.write sys s packet in
      let (ns, more) = write_all s later in (n ∷ ns, acts ++ more)

  -- An open call that succeeds, and all that follows: `start`, the writes, `close` in the cleanup.
  abbrev pub running : D.State → List (D.System × Bytes) → D.State × List Action
  running s packets =
      let (s', started) = D.start s in
      let (t, closed) = D.close s' in (t, started ++ ((write_all s' packets).1 ++ closed))

  -- The last call is the destructor's.
  abbrev pub destroyed : List Action → D.State × List Action → List Action
  destroyed before (s, acts) = before ++ (acts ++ (D.close s).1)

  unfoldable pub lifecycle : D.System → Bytes → ℤ → Bytes → List (D.System × Bytes) → List Action
  unfolding write_all
  lifecycle sys ip mtu ip6 packets =
      let r = D.open_device sys D.fresh ip mtu ip6 in
      destroyed r.actions (if r.result then running r.state packets else (r.state, []))

  module _ (laws : IsLawful D) where
    write_all_holds :
        (s : D.State) (packets : List (D.System × Bytes)) (h : Handle)
        → (acquired h (write_all s packets).1 ≡ 0) × (released h (write_all s packets).1 ≡ 0)
    unfolding write_all acquired released
    write_all_holds s [] h = (refl, refl)
    write_all_holds s ((sys, packet) ∷ later) h = omega (
      arith,
      laws.write_holds sys s packet h,
      write_all_holds s later h,
      acquired-append h (D.write sys s packet).1 (write_all s later).1,
      released-append h (D.write sys s packet).1 (write_all s later).1,
    )

    running_holds :
        (s : D.State) (packets : List (D.System × Bytes)) (h : Handle)
        → D.held h s + acquired h (D.start s).1 ≡ released h (D.start s).1 + D.held h (D.start s).0
        → (D.held h s + acquired h (running s packets).1 ≡ released h (running s packets).1)
          × (D.held h (running s packets).0 ≡ 0)
    running_holds s packets h started =
        let s' = (D.start s).0 in
        let sent = (write_all s' packets).1 in
        let ended = (D.close s').1 in
        (
          omega (
            arith,
            started,
            write_all_holds s' packets h,
            laws.held-close s' h,
            acquired-append h (D.start s).1 (sent ++ ended),
            released-append h (D.start s).1 (sent ++ ended),
            acquired-append h sent ended,
            released-append h sent ended,
          ),
          (laws.held-close s' h).1,
        )

    destroyed_holds :
        (before : List Action) (r : D.State × List Action) (h : Handle)
        → acquired h before + acquired h r.1 ≡ released h before + released h r.1 + D.held h r.0
        → acquired h (destroyed before r) ≡ released h (destroyed before r)
    destroyed_holds before (s, acts) h e = omega (
      arith,
      e,
      laws.held-close s h,
      acquired-append h before (acts ++ (D.close s).1),
      released-append h before (acts ++ (D.close s).1),
      acquired-append h acts (D.close s).1,
      released-append h acts (D.close s).1,
    )

    -- For any device that keeps the laws: from open over start, any writes and close to the
    -- destructor, or from an open call that fails to the destructor, each handle is given back as
    -- often as it is taken.
    pub lifecycle-balance :
        (sys : D.System) (ip : Bytes) (mtu : ℤ) (ip6 : Bytes) (packets : List (D.System × Bytes))
        (h : Handle)
        → acquired h (lifecycle sys ip mtu ip6 packets)
          ≡ released h (lifecycle sys ip mtu ip6 packets)
    unfolding lifecycle acquired released
    lifecycle-balance sys ip mtu ip6 packets h =
        let r = D.open_device sys D.fresh ip mtu ip6 in
        elim (Bool-cases r.result) [
          | inl up ↦ rw up (
              destroyed_holds r.actions (running r.state packets) h (
                omega (
                  arith,
                  laws.held-open sys ip mtu ip6 h,
                  running_holds r.state packets h (laws.held-start sys ip mtu ip6 h),
                )))
          | inr down ↦ rw down (
              destroyed_holds r.actions (r.state, []) h
                (omega (arith, laws.held-open sys ip mtu ip6 h)))
        ]
