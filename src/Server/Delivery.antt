-- ===== src/Server/Delivery.antt =====
-- cpp/server.cpp: from the start of the server to the peers that its packets reach.
use nospoon.Base.{
  ℕ, ◌≡◌, refl, inl, inr, List, [], ◌∷◌, some, arith, ◌==◌, if◌then◌else◌, Bool-cases, Bytes,
}
use nospoon.Base.Dict.{get}
use nospoon.Routing.{null, lookup, read_dest_ip}
use nospoon.Server.{send_framed, ServerCtx, Effect, on_tun_packet}
use nospoon.Server.Run.{Event, run, initial}
use nospoon.Config.{Config}
use nospoon.Server.Routes.{IsAllowlist, IsRouted, run-IsRouted, stream_of}

initial-IsRouted : (config : Config) (public_key : Bytes) → IsRouted (initial config public_key)
unfolding get lookup
initial-IsRouted config public_key = record {
  table = tt;
  distinct = tt;
  assigned = λ k p h. absurd (ground arith);
  routed = λ k ip h. refl;
}

-- With an allowlist that gives each key an address of its own: from the start on, after any
-- connections, messages, closes, TUN packets, timers and signals, the connected peers have their
-- listed addresses and the route of each listed address is the stream of its peer, null while the
-- peer is away.
pub run-initial-IsRouted :
    (config : Config) (public_key : Bytes) (es : List Event)
    → IsAllowlist config.peers
    → IsRouted (run (initial config public_key) es).0
run-initial-IsRouted config public_key es allow =
    run-IsRouted (initial config public_key) es allow (initial-IsRouted config public_key)

-- A frame for a stream, if there is one.
abbrev pub to_stream : ℕ → Bytes → List Effect
to_stream stream packet = if stream == null then [] else send_framed stream packet ∷ []

-- With an allowlist and the routes of its connected peers, a packet from the TUN device goes to the
-- stream of the peer whose address it names, and nowhere while that peer is away.
pub on_tun_packet-IsRouted :
    (c : ServerCtx) (k ip packet : Bytes)
    → IsAllowlist c.config_peers
    → IsRouted c
    → get k c.config_peers ≡ some ip
    → read_dest_ip packet ≡ ip
    → on_tun_packet c packet ≡ (c, to_stream (stream_of (get k c.peers)) packet)
unfolding on_tun_packet
on_tun_packet-IsRouted c k ip packet allow v listed dest =
    let route = v.routed k ip listed in
    let own = allow.addressed k ip listed in
    rw (dest, route, own)
      (elim (Bool-cases (stream_of (get k c.peers) == null)) [ inl z ↦ rw z | inr z ↦ rw z ])
