-- ===== src/Framing/Tests.antt =====
-- Runs of the codec at concrete inputs.
use nospoon.Base.{◌≡◌, refl, [], ◌∷◌, arith, codes, ◌++◌, List, Bytes}
use nospoon.Framing.{frame_encode, FrameDecoder, feed, drain, turn}
use nospoon.Framing.Wire.{wire, feed_all-wire, feed-corrupt}
use nospoon.Framing.Stream.{feed_all}
use nospoon.Framing.Drain.{drained}
use nospoon.Framing.Bounds.{feed-IsBounded, IsBounded}

abbrev sent : List Bytes
sent = codes "abc" ∷ [] ∷ codes "d" ∷ []

abbrev cut : List Bytes
cut =
    (0 ∷ 0 ∷ [])
    ∷ (0 ∷ 3 ∷ b'a' ∷ [])
    ∷ (b'b' ∷ b'c' ∷ 0 ∷ 0 ∷ 0 ∷ 0 ∷ 0 ∷ [])
    ∷ (0 ∷ 0 ∷ 1 ∷ b'd' ∷ [])
    ∷ []

abbrev fresh : FrameDecoder
fresh = record { buf = [] }

feed_run : (feed fresh (0 ∷ 0 ∷ 0 ∷ 1 ∷ b'x' ∷ 0 ∷ [])).frames ≡ codes "x" ∷ []
unfolding feed drain turn
feed_run = refl

feed_all-wire_example :
    feed_all fresh cut ≡ record { decoder = fresh; frames = codes "abc" ∷ codes "d" ∷ [] }
feed_all-wire_example =
    feed_all-wire sent cut (omega arith) (omega arith) (unfold frame_encode in refl)

feed-IsBounded_example : IsBounded fresh (codes "junk") (feed fresh (codes "junk"))
feed-IsBounded_example = feed-IsBounded fresh (codes "junk")

feed-corrupt_example :
    feed fresh (wire sent ++ (255 ∷ 255 ∷ 255 ∷ 255 ∷ 7 ∷ []))
    ≡ drained (codes "abc" ∷ codes "d" ∷ []) []
unfolding frame_encode
feed-corrupt_example =
    feed-corrupt sent 255 255 255 255 (7 ∷ []) (omega arith) (omega arith) (omega arith)
