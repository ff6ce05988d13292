-- ===== src/Framing.antt =====
-- cpp/framing.hpp: the length-prefixed frames, and the streaming decoder over its buffer `buf_`.
-- The callback `on_frame` does not reach the decoder, so a call of `feed` returns the frames in
-- the order in which it hands them over, with a flag for `on_overflow`.
pub mod Drain
pub mod Stream
pub mod Wire
pub mod Bounds
mod Tests
use nospoon.Base.{
  ℕ, zero, suc, ◌+◌, ◌*◌, ◌/◌, ◌%◌, ◌^◌, Bool, true, false, List, [], ◌∷◌, ◌++◌, ltb, ◌==◌,
  if◌then◌else◌, length, take, drop, Bytes,
}

abbrev pub max_frame_size : ℕ
max_frame_size = 65535

abbrev pub max_buffer_size : ℕ
max_buffer_size = 256 * 1024

-- `frame_encode`: each header byte is a shift of the length, cut by `& 0xFF`.
unfoldable pub frame_encode : Bytes → Bytes
frame_encode payload =
    let len = length payload in
    len / 2 ^ 24 % 256 ∷ len / 2 ^ 16 % 256 ∷ len / 2 ^ 8 % 256 ∷ len % 256 ∷ payload

unfoldable pub frame_keepalive : Bytes
frame_keepalive = 0 ∷ 0 ∷ 0 ∷ 0 ∷ []

pub record FrameDecoder : Type 0 where
  pub buf : Bytes

-- The shifted bytes have no bit in common, so `|` is their sum.
unfoldable pub frame_length : ℕ → ℕ → ℕ → ℕ → ℕ
frame_length b0 b1 b2 b3 = b0 * 2 ^ 24 + b1 * 2 ^ 16 + b2 * 2 ^ 8 + b3

-- What one round of the decoding loop does with the buffer.
pub data Turn : Type 0 where
  incomplete corrupt : Turn
  keepalive : Bytes → Turn
  frame : Bytes → Bytes → Turn

-- The body of the loop behind the header.
unfoldable pub classify : ℕ → Bytes → Turn
classify len rest =
    if ltb max_frame_size len
    then corrupt
    else if len == 0
    then keepalive rest
    else if ltb (4 + length rest) (4 + len)
    then incomplete
    else frame (take len rest) (drop len rest)

unfoldable pub turn : Bytes → Turn
unfolding classify frame_length
turn (b0 ∷ b1 ∷ b2 ∷ b3 ∷ rest) = classify (frame_length b0 b1 b2 b3) rest
turn _ = incomplete

pub record Fed : Type 0 where
  pub decoder : FrameDecoder
  pub frames : List Bytes
  pub overflow : Bool

abbrev pub left_with : Bytes → Fed
left_with buf = record { decoder = record { buf = buf }; frames = []; overflow = false }

abbrev pub emit : Bytes → Fed → Fed
emit p d = record d { frames = p ∷ d.frames }

-- `while (buf_.size() >= 4)`, on fuel: each round that goes on takes at least four bytes.
unfoldable pub drain : ℕ → Bytes → Fed
drain zero buf = left_with buf
drain (suc fuel) buf = elim (turn buf) [
  | incomplete ↦ left_with buf
  | corrupt ↦ left_with []
  | keepalive rest ↦ drain fuel rest
  | frame p rest ↦ emit p (drain fuel rest)
]

unfoldable pub feed : FrameDecoder → Bytes → Fed
feed d chunk =
    let buf = d.buf ++ chunk in
    if ltb max_buffer_size (length buf)
    then record { decoder = record { buf = [] }; frames = []; overflow = true }
    else drain (suc (length buf)) buf

-- `reset`
unfoldable pub reset : FrameDecoder → FrameDecoder
reset d = record { buf = [] }
