-- ===== src/Client/Traffic.antt =====
-- Packets through the client: from the stream to the TUN device and back.
use nospoon.Base.{
  ℕ, ◌≡◌, refl, ◌∙◌, ap, sym, subst, true, List, [], ◌∷◌, ◌++◌, some, map, arith, Bytes, flatten,
  All,
}
use mathlib.Core.List.{map-append}
use nospoon.Framing.{feed, frame_encode}
use nospoon.Framing.Stream.{feed_all, Session, IsChunk}
use nospoon.Framing.Wire.{wire, delivered, IsPayload, feed_all-wire}
use nospoon.Client.{ClientCtx, Effect, tun_write, stream_write}
use nospoon.Client.Run.{Event, message, tun_packet, step, run}

-- Chunks that arrive one after the other.
abbrev pub messages : List Bytes → List Event
messages [] = []
messages (c ∷ cs) = message c ∷ messages cs

run-messages :
    (c : ClientCtx) (cs : List Bytes)
    → run c (messages cs) ≡ (
      record c { decoder = (feed_all c.decoder cs).decoder },
      map tun_write (feed_all c.decoder cs).frames,
    )
unfolding run step
run-messages c [] = refl
run-messages c (chunk ∷ cs) =
    let f = feed c.decoder chunk in
    rw (
      run-messages (record c { decoder = f.decoder }) cs,
      map-append tun_write f.frames (feed_all f.decoder cs).frames,
    )

-- For an empty decoder, payloads of at most 65535 bytes and chunks of at most 196606 bytes: however
-- the stream cuts what the server framed, the client writes every non-empty packet to the TUN device
-- once, whole and in order, and nothing else.
pub run-messages-wire :
    (c : ClientCtx) (ps cs : List Bytes)
    → c.decoder.buf ≡ []
    → All IsPayload ps
    → All IsChunk cs
    → flatten cs ≡ wire ps
    → run c (messages cs) ≡ (c, map tun_write (delivered ps))
run-messages-wire c ps cs empty h small e =
    let whole : feed_all c.decoder cs ≡ record { decoder = c.decoder; frames = delivered ps } =
      subst
        (λ (b : Bytes).
          feed_all (record { buf = b }) cs
          ≡ record { decoder = record { buf = b }; frames = delivered ps })
        (sym empty) (feed_all-wire ps cs h small e) in
    run-messages c cs
    ∙ ap (λ (s : Session). (record c { decoder = s.decoder }, map tun_write s.frames)) whole

-- The bytes that a handler hands to the stream, in order.
abbrev pub written : List Effect → Bytes
written [] = []
written (stream_write _ bytes ∷ es) = bytes ++ written es
written (_ ∷ es) = written es

abbrev pub tun_packets : List Bytes → List Event
tun_packets [] = []
tun_packets (p ∷ ps) = tun_packet true p ∷ tun_packets ps

step_tun_packet :
    (c : ClientCtx) (stream : ℕ) (p : Bytes)
    → c.duplex ≡ some stream
    → step c (tun_packet true p) ≡ (c, stream_write stream (frame_encode p) ∷ [])
unfolding step
step_tun_packet c stream p h = ground arith

run-tun_packets :
    (c : ClientCtx) (stream : ℕ) (ps : List Bytes)
    → c.duplex ≡ some stream
    → ((run c (tun_packets ps)).0 ≡ c) × (written (run c (tun_packets ps)).1 ≡ wire ps)
unfolding run
run-tun_packets c stream [] h = (refl, refl)
run-tun_packets c stream (p ∷ ps) h =
    let ih = run-tun_packets c stream ps h in
    rw (step_tun_packet c stream p h) (ih.0, ap (◌++◌ (frame_encode p)) ih.1)

-- Packets of at most 65535 bytes from the TUN device of a connected client: the bytes it writes, cut
-- anywhere into chunks of at most 196606 bytes, come out of another client with an empty decoder as
-- writes of the same non-empty packets to its TUN device, in order.
pub tunnel_carries :
    (a b : ClientCtx) (stream : ℕ) (ps cs : List Bytes)
    → a.duplex ≡ some stream
    → b.decoder.buf ≡ []
    → All IsPayload ps
    → All IsChunk cs
    → flatten cs ≡ written (run a (tun_packets ps)).1
    → run b (messages cs) ≡ (b, map tun_write (delivered ps))
tunnel_carries a b stream ps cs open_a empty h small e =
    run-messages-wire b ps cs empty h small (e ∙ (run-tun_packets a stream ps open_a).1)
