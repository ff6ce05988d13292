-- ===== src/Server/Tests.antt =====
-- Runs of the server from concrete contexts.
use nospoon.Base.{
  ◌≡◌, refl, ◌∙◌, ap, sym, subst, arith, ◌++◌, false, Bool, if◌then◌else◌, true, false, List, [],
  ◌∷◌, map, Option, none, some, Bytes, codes, same, same_iff, All, is_empty,
}
use nospoon.Base.Dict.{get, put}
use nospoon.Framing.{feed}
use nospoon.Config.Hex.{bytes_to_hex}
use nospoon.Routing.{read_src_ip, read_dest_ip, lookup}
use nospoon.Server.{
  ServerCtx, PeerState, ConnectionInfo, on_message, on_tun_packet, forward, find_stream,
  setup_peer_stream, send_framed,
}
use nospoon.Server.Run.{Event, run, initial, connection, message, closed}
use nospoon.Server.{Effect, find_stream}
use nospoon.Server.Packets.{AllGo, on_message-assigned, on_message_no_spoofing, genuine}
use nospoon.Server.Routes.{IsAllowlist, IsRouted, stream_of}
use nospoon.Server.Delivery.{run-initial-IsRouted, on_tun_packet-IsRouted, to_stream}
use nospoon.Base.Int.{pos}
use nospoon.Validation.Cidr.{Shape}
use nospoon.Validation.Parts.{front}
use nospoon.Config.{Config}
use nospoon.Server.Reconnect.{setup_peer_stream-decoder, setup_peer_stream-stale}

abbrev pk : Bytes
pk = codes "0a"

-- A peer on stream 7 whose decoder holds the first two bytes of a header.
abbrev peer : PeerState
peer = record {
  socket_keepalive = 1;
  duplex = 7;
  decoder = record { buf = 0 ∷ 0 ∷ [] };
  assigned_ip = codes "10.0.0.2";
  pk_hex = pk;
}

abbrev up : ServerCtx
up = record {
  routes = record { routes = (codes "10.0.0.2", 7) ∷ [] };
  config_peers = (pk, codes "10.0.0.2") ∷ [];
  public_key = 1 ∷ [];
  peers = (pk, peer) ∷ [];
  running = true;
}

-- The same server in open mode.
abbrev open_mode : ServerCtx
open_mode = record up { config_peers = [] }

abbrev info : ConnectionInfo
info = record {
  tx_key = 1 ∷ [];
  rx_key = 2 ∷ [];
  handshake_hash = 3 ∷ [];
  remote_public_key = 10 ∷ [];
  host = codes "1.2.3.4";
  port = 9000;
  raw_stream = 11;
  udx_socket = 12;
  remote_udx_id = 13;
  socket_keepalive = 14;
}

-- An IPv4 header from 10.0.0.2 to 10.0.0.2.
abbrev packet : Bytes
packet = 0x45 ∷ 0 ∷ 0 ∷ 20 ∷ 0 ∷ 0 ∷ 0 ∷ 0 ∷ 64 ∷ 0 ∷ 0 ∷ 0 ∷ 10 ∷ 0 ∷ 0 ∷ 2 ∷ 10 ∷ 0 ∷ 0 ∷ 2 ∷ []

abbrev chunk : Bytes
chunk = 0 ∷ 20 ∷ packet

found_peer : find_stream 7 up.peers ≡ some (pk, peer)
unfolding find_stream
found_peer = refl

on_message-assigned_example :
    (es : List Effect) × (on_message up 7 chunk ≡ (
      record up {
        peers = put pk (record peer { decoder = (feed peer.decoder chunk).decoder }) up.peers;
      },
      es,
    ))
    × AllGo up.routes (genuine (codes "10.0.0.2") (feed peer.decoder chunk).frames) es
on_message-assigned_example = on_message-assigned up pk peer 7 chunk found_peer refl

on_message_no_spoofing_example :
    (passed : List Bytes) × ((on_message up 7 chunk).1 ≡ map (forward up.routes) passed)
    × All (λ p. read_src_ip p ≡ codes "10.0.0.2") passed
on_message_no_spoofing_example = on_message_no_spoofing up pk peer 7 chunk found_peer refl

some-injective {ℓ} : {A : Type ℓ} {x y : A} → some x ≡ some y → x ≡ y
some-injective {A} {x} {y} e = ap (or_else x) e
  where
    or_else : A → Option A → A
    or_else d none = d
    or_else d (some a) = a

-- What stands in a map of one entry.
single {ℓ} :
    {V : Type ℓ} (k₀ k : Bytes) (v₀ v : V) → get k ((k₀, v₀) ∷ []) ≡ some v → (k₀ ≡ k) × (v₀ ≡ v)
unfolding get
single {V} k₀ k v₀ v h = go (same k₀ k) refl h
  where
    go : (b : Bool) → same k₀ k ≡ b → (if b then some v₀ else none) ≡ some v → (k₀ ≡ k) × (v₀ ≡ v)
    go true e g = ((same_iff k₀ k).0 e, some-injective g)
    go false e g = absurd (cc)

only_peer : (k ip : Bytes) → get k up.config_peers ≡ some ip → (k ≡ pk) × (ip ≡ codes "10.0.0.2")
only_peer k ip h = let (a, b) = single pk k (codes "10.0.0.2") ip h in (sym a, sym b)

up-IsAllowlist : IsAllowlist up.config_peers
up-IsAllowlist = record {
  listed = refl;
  addressed = λ k ip h. ap is_empty (only_peer k ip h).1;
  separate = λ j k ip h g. (only_peer j ip h).0 ∙ sym (only_peer k ip g).0;
}

up_known : get pk up.config_peers ≡ some (codes "10.0.0.2")
unfolding get same
up_known = refl

up_routed : lookup (codes "10.0.0.2") up.routes ≡ stream_of (get pk up.peers)
unfolding lookup get same
up_routed = refl

up-IsRouted : IsRouted up
up-IsRouted = record {
  table = (tt, tt);
  distinct = (tt, tt);
  assigned = λ k p h.
      let (a, b) = single pk k peer p h in
      subst (λ (j : Bytes). get j up.config_peers ≡ some p.assigned_ip) a
        (up_known ∙ ap (λ (q : PeerState). some q.assigned_ip) b);
  routed = λ k ip h.
      let (a, b) = single pk k (codes "10.0.0.2") ip h in
      subst (λ (j : Bytes). lookup ip up.routes ≡ stream_of (get j up.peers)) a
        (subst (λ (x : Bytes). lookup x up.routes ≡ stream_of (get pk up.peers)) b up_routed);
}

abbrev config : Config
config = record {
  mode = codes "server";
  ip = codes "10.0.0.1/24";
  ipv6 = [];
  seed = [];
  seed_file = [];
  server_key = [];
  mtu = pos 1400;
  peers = (pk, codes "10.0.0.2") ∷ [];
  full_tunnel = false;
  out_iface = [];
}

abbrev events : List Event
events = connection info 7 ∷ message 7 chunk ∷ connection info 9 ∷ closed pk ∷ []

run-initial-IsRouted_example : IsRouted (run (initial config (1 ∷ [])) events).0
run-initial-IsRouted_example = run-initial-IsRouted config (1 ∷ []) events up-IsAllowlist

to_two : read_dest_ip packet ≡ codes "10.0.0.2"
unfolding read_dest_ip
to_two = refl

on_tun_packet-IsRouted_example :
    on_tun_packet up packet ≡ (up, to_stream (stream_of (get pk up.peers)) packet)
on_tun_packet-IsRouted_example =
    on_tun_packet-IsRouted up pk (codes "10.0.0.2") packet up-IsAllowlist up-IsRouted up_known
      to_two

same_key : get (bytes_to_hex (10 ∷ [])) up.peers ≡ some peer
unfolding get same bytes_to_hex
same_key = refl

listed_key : get (bytes_to_hex (10 ∷ [])) up.config_peers ≡ some (codes "10.0.0.2")
unfolding get same bytes_to_hex
listed_key = refl

free_stream : find_stream 9 up.peers ≡ none
unfolding find_stream
free_stream = refl

setup_peer_stream-decoder_example :
    let c = (setup_peer_stream up info 9).0 in
    AllGo c.routes
      (genuine (codes "10.0.0.2") (feed peer.decoder chunk).frames)
      (on_message c 9 chunk).1
setup_peer_stream-decoder_example =
    setup_peer_stream-decoder up info 9 peer (codes "10.0.0.2") chunk same_key listed_key
      (λ e. cc e) free_stream

setup_peer_stream-stale_example :
    (on_tun_packet (setup_peer_stream open_mode info 9).0 packet).1 ≡ send_framed 7 packet ∷ []
setup_peer_stream-stale_example =
    setup_peer_stream-stale open_mode info 9 peer (codes "10.0.0.2") packet (unfold get in refl)
      (unfold lookup same in refl) (omega arith) refl to_two

abbrev home : Bytes
home = codes "10.8.0.1/16"

abbrev home_shape : Shape home
home_shape = record {
  a = codes "10";
  b = codes "8";
  c = codes "0";
  d = codes "1";
  p = codes "16";
  spelled = refl;
  a_group = record { digits = refl; some_digit = omega arith; few = omega arith };
  b_group = record { digits = refl; some_digit = omega arith; few = omega arith };
  c_group = record { digits = refl; some_digit = omega arith; few = omega arith };
  d_group = record { digits = refl; some_digit = omega arith; few = omega arith };
  p_group = record { digits = refl; some_digit = omega arith; few = omega arith };
}

home_subnet : front home_shape ++ (codes ".0" ++ (b'/' ∷ home_shape.p)) ≡ codes "10.8.0.0/16"
home_subnet = refl
