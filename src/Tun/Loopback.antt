-- ===== src/Tun/Loopback.antt =====
-- cpp/tun_linux.hpp and cpp/tun_macos.cpp: the bytes that a write hands to the system, and what the
-- callback makes of them.
use nospoon.Base.{
  ◌≡◌, refl, ℕ, ◌<◌, ◌≤◌, zero, suc, true, false, List, [], ◌∷◌, Option, some, Bytes, arith, take,
  drop, length, ◌⊎◌, inl, inr, ap, leb,
}
use nospoon.Tun.{Action, transmit}
use nospoon.Tun.Descriptor.{Tun}
use nospoon.Tun.Macos
use nospoon.Tun.Macos.{version, family_header, write_framed, payload_size}

take_all : (n : ℕ) (s : Bytes) → length s ≤ n → take n s ≡ s
take_all zero [] h = refl
take_all zero (x ∷ s) h = absurd (omega arith)
take_all (suc n) [] h = refl
take_all (suc n) (x ∷ s) h = ap (◌∷◌ x) (take_all n s (omega arith))

on_poll_lem :
    (bytes : Bytes)
    → 4 < length bytes
    → length bytes ≤ 65536
    → Macos.on_poll true true (some bytes) ≡ some (drop 4 bytes)
unfolding Macos.on_poll
on_poll_lem bytes long short =
    let e : leb (length bytes) 4 ≡ false = ground arith in rw (take_all 65536 bytes short, e)

-- A write hands these bytes over and a read of them hands the packet up.
abbrev pub Carries : Option ℕ × List Action → (Bytes → Option Bytes) → Bytes → Type 0
Carries wrote on_poll packet =
    (bytes : Bytes) × (wrote.1 ≡ transmit bytes ∷ []) × (on_poll bytes ≡ some packet)

-- On macOS, a packet of version 4 or 6 of at most 65532 bytes that is written to an open device goes
-- out behind a header of four bytes, and the callback hands up that very packet when it reads these
-- bytes.
pub write-Carries :
    (sys : Macos.System) (t : Tun) (b : ℕ) (rest : Bytes)
    → t.fd ≡ true
    → length rest < 65532
    → (version (b ∷ rest) ≡ 4) ⊎ (version (b ∷ rest) ≡ 6)
    → Carries
        (Macos.write sys t (b ∷ rest))
        (λ bytes. Macos.on_poll true true (some bytes))
        (b ∷ rest)
unfolding Macos.write
write-Carries sys t b rest on small (inl v4) =
    let bytes : Bytes = 0 ∷ 0 ∷ 0 ∷ 2 ∷ b ∷ rest in
    (bytes, rw (on, v4), on_poll_lem bytes (omega arith) (omega arith))
write-Carries sys t b rest on small (inr v6) =
    let bytes : Bytes = 0 ∷ 0 ∷ 0 ∷ 30 ∷ b ∷ rest in
    (bytes, rw (on, v6), on_poll_lem bytes (omega arith) (omega arith))
