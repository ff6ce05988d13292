-- ===== src/Framing/Wire.antt =====
-- `frame_encode` followed by the decoder.
use nospoon.Base.{
  ◌*◌, ℕ, ◌+◌, ◌/◌, ◌%◌, ◌^◌, ◌≤◌, ◌<◌, ◌≡◌, refl, List, [], ◌∷◌, ◌++◌, arith, length,
  length-append, take-length, drop-length, flatten, All, Bytes,
}
use nospoon.Framing.{
  incomplete, corrupt, keepalive, frame, turn, classify, frame_length, max_buffer_size,
  max_frame_size, feed, frame_encode, frame_keepalive,
}
use nospoon.Framing.Drain.{drained, Drains, resets, skips, emits}
use nospoon.Framing.Stream.{
  Reads, turn-append, stop, skip, take_frame, feed-Drains, feed_all, feed_all-Reads, IsChunk,
}

-- One frame on the wire, and what the receiver makes of it: an empty frame is a keepalive.
abbrev pub wire : List Bytes → Bytes
wire [] = []
wire (p ∷ ps) = frame_encode p ++ wire ps

abbrev pub delivered : List Bytes → List Bytes
delivered [] = []
delivered ([] ∷ ps) = delivered ps
delivered ((x ∷ p) ∷ ps) = (x ∷ p) ∷ delivered ps

abbrev pub IsPayload : Bytes → Type 0
IsPayload p = length p ≤ max_frame_size

frame_length-header :
    (n : ℕ)
    → n < 2 ^ 32
    → frame_length (n / 2 ^ 24 % 256) (n / 2 ^ 16 % 256) (n / 2 ^ 8 % 256) (n % 256) ≡ n
unfolding frame_length
frame_length-header n h = omega arith

classify-payload :
    (x : ℕ) (p rest : Bytes)
    → IsPayload (x ∷ p)
    → classify (length (x ∷ p)) ((x ∷ p) ++ rest) ≡ frame (x ∷ p) rest
unfolding classify
classify-payload x p rest h =
    ground (arith, length-append p rest, take-length p rest, drop-length p rest)

turn-frame_encode :
    (x : ℕ) (p rest : Bytes)
    → IsPayload (x ∷ p)
    → turn (frame_encode (x ∷ p) ++ rest) ≡ frame (x ∷ p) rest
unfolding turn frame_encode
turn-frame_encode x p rest h =
    rw (frame_length-header (length (x ∷ p)) (omega arith)) (classify-payload x p rest h)

turn-keepalive : (rest : Bytes) → turn (frame_encode [] ++ rest) ≡ keepalive rest
unfolding turn frame_encode
turn-keepalive rest = refl

turn-nil : turn [] ≡ incomplete
unfolding turn
turn-nil = refl

pub Reads-wire : (ps : List Bytes) → All IsPayload ps → Reads (wire ps) (delivered ps) []
Reads-wire [] h = stop {b = []} turn-nil
Reads-wire ([] ∷ ps) h = skip (turn-keepalive (wire ps)) (Reads-wire ps h.1)
Reads-wire ((x ∷ p) ∷ ps) h = take_frame (turn-frame_encode x p (wire ps) h.0) (Reads-wire ps h.1)

-- Frames of payloads of at most 65535 bytes, keepalives among them, that arrive in chunks of at most
-- 196606 bytes, cut anywhere, come out of an empty decoder as the non-empty payloads, each once,
-- whole and in order, and the decoder is left empty.
pub feed_all-wire :
    (ps cs : List Bytes)
    → All IsPayload ps
    → All IsChunk cs
    → flatten cs ≡ wire ps
    → feed_all (record { buf = [] }) cs
      ≡ record { decoder = record { buf = [] }; frames = delivered ps }
feed_all-wire ps cs h small e = feed_all-Reads cs [] turn-nil small (rw e (Reads-wire ps h))

-- A keepalive is the frame of an empty payload, and a frame is its payload behind four bytes.
pub frame_keepalive-frame_encode : frame_keepalive ≡ frame_encode []
unfolding frame_keepalive frame_encode
frame_keepalive-frame_encode = refl

pub length-frame_encode : (p : Bytes) → length (frame_encode p) ≡ 4 + length p
unfolding frame_encode
length-frame_encode p = omega arith

Reads-corrupt :
    {b r : Bytes} {ps : List Bytes} (bad : Bytes)
    → Reads b ps r
    → turn (r ++ bad) ≡ corrupt
    → Drains (b ++ bad) ps []
Reads-corrupt bad (stop e) h = resets h
Reads-corrupt {b} bad (skip {rest = rest} e d) h =
    skips (rw e at (turn-append b bad)) (Reads-corrupt bad d h)
Reads-corrupt {b} bad (take_frame {rest = rest} e d) h =
    emits (rw e at (turn-append b bad)) (Reads-corrupt bad d h)

-- The header claims more than the limit.
claims_corrupt :
    (b0 b1 b2 b3 : ℕ) (rest : Bytes)
    → 65535 < b0 * 16777216 + b1 * 65536 + b2 * 256 + b3
    → turn (b0 ∷ b1 ∷ b2 ∷ b3 ∷ rest) ≡ corrupt
unfolding turn classify frame_length
claims_corrupt b0 b1 b2 b3 rest h = ground arith

-- A header that claims more than 65535 bytes behind frames of payloads of at most 65535 bytes, all
-- in one chunk of at most 256 KiB, for an empty decoder: the frames before it are handed over, and
-- the header and all that stands behind it is thrown away.
pub feed-corrupt :
    (ps : List Bytes) (b0 b1 b2 b3 : ℕ) (rest : Bytes)
    → All IsPayload ps
    → 65535 < b0 * 16777216 + b1 * 65536 + b2 * 256 + b3
    → length (wire ps ++ (b0 ∷ b1 ∷ b2 ∷ b3 ∷ rest)) ≤ max_buffer_size
    → feed (record { buf = [] }) (wire ps ++ (b0 ∷ b1 ∷ b2 ∷ b3 ∷ rest)) ≡ drained (delivered ps) []
feed-corrupt ps b0 b1 b2 b3 rest h claims fits =
    let bad = b0 ∷ b1 ∷ b2 ∷ b3 ∷ rest in
    feed-Drains (record { buf = [] }) (wire ps ++ bad) fits
      (Reads-corrupt bad (Reads-wire ps h) (claims_corrupt b0 b1 b2 b3 rest claims))
