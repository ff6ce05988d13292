-- ===== src/Framing/Drain.antt =====
-- The decoding loop as a relation, and the fuel.
use nospoon.Base.{
  ℕ, zero, suc, ◌+◌, ◌≤◌, ◌<◌, ◌≡◌, refl, ap, List, [], ◌∷◌, arith, length, length-drop, Bytes,
  false,
}
use nospoon.Framing.{
  Turn, incomplete, corrupt, keepalive, frame, turn, classify, frame_length, Fed, emit, drain,
}

-- The loop started on a buffer hands over frames and leaves a rest.
pub data Drains : Bytes → List Bytes → Bytes → Type 0 where
  waits : {b : Bytes} → turn b ≡ incomplete → Drains b [] b
  resets : {b : Bytes} → turn b ≡ corrupt → Drains b [] []
  skips :
      {b rest r : Bytes} {ps : List Bytes}
      → turn b ≡ keepalive rest
      → Drains rest ps r
      → Drains b ps r
  emits :
      {b p rest r : Bytes} {ps : List Bytes}
      → turn b ≡ frame p rest
      → Drains rest ps r
      → Drains b (p ∷ ps) r

-- How much shorter a round leaves the buffer.
abbrev pub Shorter : Bytes → Turn → Type 0
Shorter b (keepalive rest) = length rest + 4 ≤ length b
Shorter b (frame p rest) = length rest + 4 ≤ length b
Shorter b _ = Unit {0}

classify-Shorter :
    (b : Bytes) (len : ℕ) (rest : Bytes)
    → length b ≡ length rest + 4
    → Shorter b (classify len rest)
unfolding classify
classify-Shorter b len rest h = ground (arith, length-drop len rest)

pub turn-Shorter : (b : Bytes) → Shorter b (turn b)
unfolding turn
turn-Shorter (b0 ∷ b1 ∷ b2 ∷ b3 ∷ rest) =
    classify-Shorter (b0 ∷ b1 ∷ b2 ∷ b3 ∷ rest) (frame_length b0 b1 b2 b3) rest (omega arith)
turn-Shorter _ = tt

abbrev pub drained : List Bytes → Bytes → Fed
drained ps r = record { decoder = record { buf = r }; frames = ps; overflow = false }

-- Fuel beyond the buffer's length is enough for what the relation allows.
pub drain-eq :
    {b r : Bytes} {ps : List Bytes} (fuel : ℕ)
    → length b < fuel
    → Drains b ps r
    → drain fuel b ≡ drained ps r
unfolding drain
drain-eq zero h d = absurd (omega arith)
drain-eq (suc fuel) h (waits e) = rw (e, drain)
drain-eq (suc fuel) h (resets e) = rw (e, drain)
drain-eq {b} (suc fuel) h (skips {rest = rest} e d) =
    rw (e, drain) (drain-eq {b = rest} fuel (omega (arith, rw e at (turn-Shorter b))) d)
drain-eq {b} (suc fuel) h (emits {p = p} {rest = rest} e d) =
    rw (e, drain)
      (ap (emit p) (drain-eq {b = rest} fuel (omega (arith, rw e at (turn-Shorter b))) d))

-- And every buffer is drained: the loop ends.
abbrev pub Outcome : Bytes → Type 0
Outcome b = (ps : List Bytes) × (r : Bytes) × Drains b ps r

drain_step :
    (b : Bytes) (t : Turn)
    → turn b ≡ t
    → ((rest : Bytes) → length rest + 4 ≤ length b → Outcome rest)
    → Shorter b t
    → Outcome b
drain_step b incomplete e ih s = ([], b, waits e)
drain_step b corrupt e ih s = ([], [], resets e)
drain_step b (keepalive rest) e ih s = let (ps, r, d) = ih rest s in (ps, r, skips e d)
drain_step b (frame p rest) e ih s = let (ps, r, d) = ih rest s in (p ∷ ps, r, emits e d)

drains : (n : ℕ) (b : Bytes) → length b < n → Outcome b
drains zero b h = absurd (omega arith)
drains (suc n) b h =
    drain_step b (turn b) refl (λ rest s. drains n rest (omega arith)) (turn-Shorter b)

pub Drains-total : (b : Bytes) → Outcome b
Drains-total b = drains (suc (length b)) b (omega arith)
