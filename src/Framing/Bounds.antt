-- ===== src/Framing/Bounds.antt =====
-- What `feed` keeps in its buffer and hands over, whatever bytes come in.
use nospoon.Base.{
  ℕ, ◌≤◌, ◌<◌, ◌≡◌, refl, inl, inr, ◌↔◌, true, ltb, Bool-cases, List, [], ◌∷◌, ◌++◌, arith, length,
  length-take, All, Bytes, ltb→lt, lt→ltb,
}
use nospoon.Framing.{
  Turn, frame, turn, classify, frame_length, max_buffer_size, max_frame_size, FrameDecoder, Fed,
  feed,
}
use nospoon.Framing.Drain.{Drains, waits, resets, skips, emits, Drains-total}
use nospoon.Framing.Stream.{incomplete_short, feed-Drains}

-- A frame that is handed over carries between 1 and 65535 bytes.
abbrev pub IsFrame : Bytes → Type 0
IsFrame p = (0 < length p) × (length p ≤ max_frame_size)

abbrev TurnIsFrame : Turn → Type 0
TurnIsFrame (frame p rest) = IsFrame p
TurnIsFrame _ = Unit {0}

classify-IsFrame : (len : ℕ) (rest : Bytes) → TurnIsFrame (classify len rest)
unfolding classify
classify-IsFrame len rest = ground (arith, length-take len rest)

turn-IsFrame : (b : Bytes) → TurnIsFrame (turn b)
unfolding turn
turn-IsFrame (b0 ∷ b1 ∷ b2 ∷ b3 ∷ rest) = classify-IsFrame (frame_length b0 b1 b2 b3) rest
turn-IsFrame _ = tt

Drains-IsFrame :
    {b r : Bytes} {ps : List Bytes} → Drains b ps r → All IsFrame ps × (length r < 65539)
Drains-IsFrame {b} (waits e) = (tt, incomplete_short b e)
Drains-IsFrame (resets e) = (tt, omega arith)
Drains-IsFrame (skips e d) = Drains-IsFrame d
Drains-IsFrame {b} (emits e d) =
    let ih = Drains-IsFrame d in ((rw e at (turn-IsFrame b), ih.0), ih.1)

-- On any state and any bytes: what stays buffered is less than one whole frame, each frame handed
-- over has between 1 and 65535 bytes, and the overflow callback runs exactly when the buffer would
-- pass 256 KiB; then nothing is handed over and the buffer is empty.
pub record IsBounded (d : FrameDecoder) (chunk : Bytes) (f : Fed) : Type 0 where
  pub buffered : length f.decoder.buf < 65539
  pub framed : All IsFrame f.frames
  pub overflows : (f.overflow ≡ true) ↔ (max_buffer_size < length (d.buf ++ chunk))
  pub cleared : f.overflow ≡ true → (f.decoder.buf ≡ []) × (f.frames ≡ [])

pub feed_over :
    (d : FrameDecoder) (chunk : Bytes)
    → max_buffer_size < length (d.buf ++ chunk)
    → feed d chunk ≡ record { decoder = record { buf = [] }; frames = []; overflow = true }
unfolding feed
feed_over d chunk h = rw (lt→ltb _ _ h)

-- A call of feed leaves at most 65538 bytes in the buffer, and hands over only frames of 1 to 65535
-- bytes; it reports an overflow exactly when the buffer and the chunk are longer than 256 KiB, and
-- then hands nothing over and clears the buffer.
pub feed-IsBounded : (d : FrameDecoder) (chunk : Bytes) → IsBounded d chunk (feed d chunk)
feed-IsBounded d chunk = elim (Bool-cases (ltb max_buffer_size (length (d.buf ++ chunk)))) [
  | inl over ↦
      let more = ltb→lt max_buffer_size (length (d.buf ++ chunk)) over in
      rw (feed_over d chunk more) (record {
        buffered = omega arith;
        framed = tt;
        overflows = (λ _. more, λ _. refl);
        cleared = λ _. (refl, refl);
      })
  | inr fits ↦
      let (ps, r, s) = Drains-total (d.buf ++ chunk) in
      let bounds = Drains-IsFrame s in
      rw (feed-Drains d chunk (ground arith) s) (record {
        buffered = bounds.1;
        framed = bounds.0;
        overflows = (λ h. cc, λ h. absurd (ground arith));
        cleared = λ h. cc;
      })
]
