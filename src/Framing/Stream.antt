-- ===== src/Framing/Stream.antt =====
-- What the decoder makes of a stream, however the stream is cut into chunks.
use nospoon.Base.{
  ℕ, suc, ◌+◌, ◌≤◌, ◌<◌, ◌≡◌, refl, sym, ap, subst, List, [], ◌∷◌, ◌++◌, append-nil, append_assoc,
  arith, length, length-append, take-append, drop-append, flatten, All, Bytes,
}
use nospoon.Framing.{
  Turn, incomplete, corrupt, keepalive, frame, turn, classify, frame_length, max_buffer_size,
  FrameDecoder, feed,
}
use nospoon.Framing.Drain.{drained, Drains, waits, skips, emits, drain-eq}

-- The stream decodes to frames with no corrupt header on the way.
pub data Reads : Bytes → List Bytes → Bytes → Type 0 where
  stop : {b : Bytes} → turn b ≡ incomplete → Reads b [] b
  skip :
      {b rest r : Bytes} {ps : List Bytes}
      → turn b ≡ keepalive rest
      → Reads rest ps r
      → Reads b ps r
  take_frame :
      {b p rest r : Bytes} {ps : List Bytes}
      → turn b ≡ frame p rest
      → Reads rest ps r
      → Reads b (p ∷ ps) r

pub Reads-Drains : {b r : Bytes} {ps : List Bytes} → Reads b ps r → Drains b ps r
Reads-Drains (stop e) = waits e
Reads-Drains (skip e d) = skips e (Reads-Drains d)
Reads-Drains (take_frame e d) = emits e (Reads-Drains d)

-- A round that does not wait is the same round when more bytes stand behind.
abbrev pub Extends : Bytes → Turn → Turn → Type 0
Extends c incomplete t = Unit {0}
Extends c corrupt t = t ≡ corrupt
Extends c (keepalive rest) t = t ≡ keepalive (rest ++ c)
Extends c (frame p rest) t = t ≡ frame p (rest ++ c)

classify-append :
    (len : ℕ) (rest c : Bytes) → Extends c (classify len rest) (classify len (rest ++ c))
unfolding classify
classify-append len rest c =
    ground (arith, length-append rest c, take-append len rest c, drop-append len rest c)

pub turn-append : (b c : Bytes) → Extends c (turn b) (turn (b ++ c))
unfolding turn
turn-append (b0 ∷ b1 ∷ b2 ∷ b3 ∷ rest) c = classify-append (frame_length b0 b1 b2 b3) rest c
turn-append _ c = tt

-- A stream that decodes also decodes up to any cut, and goes on from what is left there.
abbrev Split : Bytes → Bytes → List Bytes → Bytes → Type 0
Split x y ps r =
    (ps1 : List Bytes) × (r1 : Bytes) × (ps2 : List Bytes) × Reads x ps1 r1
    × Reads (r1 ++ y) ps2 r
    × (ps ≡ ps1 ++ ps2)

Split-skip :
    (x y : Bytes) {b rest r : Bytes} {ps : List Bytes} (t : Turn)
    → turn x ≡ t
    → b ≡ x ++ y
    → turn b ≡ keepalive rest
    → Reads b ps r
    → ((x' : Bytes) → rest ≡ x' ++ y → Split x' y ps r)
    → Extends y t (turn (x ++ y))
    → Split x y ps r
Split-skip x y {ps = ps} incomplete e q h d ih s = ([], x, ps, stop e, rw q at d, refl)
Split-skip x y corrupt e q h d ih s = cc (ap turn q)
Split-skip x y (keepalive x') e q h d ih s =
    let (ps1, r1, ps2, d1, d2, sum) = ih x' (cc (ap turn q)) in (ps1, r1, ps2, skip e d1, d2, sum)
Split-skip x y (frame p x') e q h d ih s = cc (ap turn q)

Split-frame :
    (x y : Bytes) {b p rest r : Bytes} {ps : List Bytes} (t : Turn)
    → turn x ≡ t
    → b ≡ x ++ y
    → turn b ≡ frame p rest
    → Reads b (p ∷ ps) r
    → ((x' : Bytes) → rest ≡ x' ++ y → Split x' y ps r)
    → Extends y t (turn (x ++ y))
    → Split x y (p ∷ ps) r
Split-frame x y {p = p} {ps = ps} incomplete e q h d ih s = ([], x, p ∷ ps, stop e, rw q at d, refl)
Split-frame x y corrupt e q h d ih s = cc (ap turn q)
Split-frame x y (keepalive x') e q h d ih s = cc (ap turn q)
Split-frame x y (frame p x') e q h d ih s =
    let (ps1, r1, ps2, d1, d2, sum) = ih x' (cc (ap turn q)) in
    (p ∷ ps1, r1, ps2, take_frame e d1, d2, cc (ap turn q))

waits_before :
    (x y : Bytes) {b : Bytes} (t : Turn)
    → turn x ≡ t
    → b ≡ x ++ y
    → turn b ≡ incomplete
    → Extends y t (turn (x ++ y))
    → turn x ≡ incomplete
waits_before x y incomplete e q h s = e
waits_before x y corrupt e q h s = cc (ap turn q)
waits_before x y (keepalive x') e q h s = cc (ap turn q)
waits_before x y (frame p x') e q h s = cc (ap turn q)

Reads-Split :
    {b r : Bytes} {ps : List Bytes} (x y : Bytes) → b ≡ x ++ y → Reads b ps r → Split x y ps r
Reads-Split {b} x y q (stop e) =
    let w = waits_before x y (turn x) refl q e (turn-append x y) in
    ([], x, [], stop w, subst (λ z. Reads z [] b) q (stop e), refl)
Reads-Split x y q (skip e d) =
    Split-skip x y (turn x) refl q e (skip e d) (λ x' q'. Reads-Split x' y q' d) (turn-append x y)
Reads-Split x y q (take_frame e d) =
    Split-frame x y (turn x) refl q e (take_frame e d) (λ x' q'. Reads-Split x' y q' d)
      (turn-append x y)

-- Nothing is left but a frame that is still incomplete.
classify_short : (len : ℕ) (rest : Bytes) → classify len rest ≡ incomplete → length rest + 4 < 65539
unfolding classify
classify_short len rest h = ground arith

pub incomplete_short : (b : Bytes) → turn b ≡ incomplete → length b < 65539
unfolding turn
incomplete_short [] h = omega arith
incomplete_short (b0 ∷ []) h = omega arith
incomplete_short (b0 ∷ b1 ∷ []) h = omega arith
incomplete_short (b0 ∷ b1 ∷ b2 ∷ []) h = omega arith
incomplete_short (b0 ∷ b1 ∷ b2 ∷ b3 ∷ rest) h =
    omega (arith, classify_short (frame_length b0 b1 b2 b3) rest h)

Reads-rest : {b r : Bytes} {ps : List Bytes} → Reads b ps r → turn r ≡ incomplete
Reads-rest (stop e) = e
Reads-rest (skip e d) = Reads-rest d
Reads-rest (take_frame e d) = Reads-rest d

Reads-waiting :
    {b r : Bytes} {ps : List Bytes} → turn b ≡ incomplete → Reads b ps r → (ps ≡ []) × (r ≡ b)
Reads-waiting w (stop e) = (refl, refl)
Reads-waiting w (skip e d) = (cc, cc)
Reads-waiting w (take_frame e d) = (cc, cc)

pub feed-Drains :
    (d : FrameDecoder) (chunk : Bytes) {r : Bytes} {ps : List Bytes}
    → length (d.buf ++ chunk) ≤ max_buffer_size
    → Drains (d.buf ++ chunk) ps r
    → feed d chunk ≡ drained ps r
unfolding feed
feed-Drains d chunk h s =
    ground (arith, drain-eq {b = d.buf ++ chunk} (suc (length (d.buf ++ chunk))) (omega arith) s)

-- The chunks of a stream, one call of `feed` each.
pub record Session : Type 0 where
  pub decoder : FrameDecoder
  pub frames : List Bytes

abbrev pub feed_all : FrameDecoder → List Bytes → Session
feed_all d [] = record { decoder = d; frames = [] }
feed_all d (c ∷ cs) =
    let f = feed d c in
    let rest = feed_all f.decoder cs in
    record { decoder = rest.decoder; frames = f.frames ++ rest.frames }

-- A chunk that cannot overflow the buffer on top of an incomplete frame.
abbrev pub IsChunk : Bytes → Type 0
IsChunk c = length c + 65538 ≤ max_buffer_size

pub feed_all-Reads :
    (cs : List Bytes) (b : Bytes) {r : Bytes} {ps : List Bytes}
    → turn b ≡ incomplete
    → All IsChunk cs
    → Reads (b ++ flatten cs) ps r
    → feed_all (record { buf = b }) cs ≡ record { decoder = record { buf = r }; frames = ps }
feed_all-Reads [] b w small d = let e = Reads-waiting w (rw append-nil at d) in ground (arith, e)
feed_all-Reads (c ∷ cs) b w small d =
    let (ps1, r1, ps2, d1, d2, sum) =
      Reads-Split (b ++ c) (flatten cs) (sym (append_assoc b c (flatten cs))) d in
    let fits : length (b ++ c) ≤ max_buffer_size =
      omega (arith, length-append b c, incomplete_short b w, small.0) in
    let now = feed-Drains (record { buf = b }) c fits (Reads-Drains d1) in
    let later = feed_all-Reads cs r1 (Reads-rest d1) small.1 d2 in ground (arith, now, later, sum)
