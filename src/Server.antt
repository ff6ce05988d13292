-- ===== src/Server.antt =====
-- cpp/server.cpp: the server's handlers over its context. A handler returns the new context and the
-- calls it makes, in order. A stream is its pointer, 0 the null pointer; log lines are left out.
pub mod Run
pub mod Packets
pub mod Routes
pub mod Delivery
pub mod Subnet
pub mod Reconnect
mod Tests
use nospoon.Base.{
  ℕ, suc, ◌+◌, Bool, true, false, not, ◌&&◌, ◌||◌, List, [], ◌∷◌, ◌++◌, Option, none, some, map,
  ◌==◌, if◌then◌else◌, Bytes, codes, is_empty, same, starts_with, take, drop, find, rfind,
}
use nospoon.Base.Dict
use nospoon.Base.Dict.{Dict, get, put}
use nospoon.Config.Hex.{bytes_to_hex}
use nospoon.Framing
use nospoon.Framing.{FrameDecoder, frame_encode, frame_keepalive, feed}
use nospoon.Routing
use nospoon.Routing.{RoutingTable, null, lookup, read_dest_ip, read_src_ip}
use nospoon.Stream.{Handshake}

pub record PeerState : Type 0 where
  pub socket_keepalive : ℕ
  pub duplex : ℕ
  pub decoder : FrameDecoder
  pub assigned_ip : Bytes
  pub pk_hex : Bytes

pub record ServerCtx : Type 0 where
  pub routes : RoutingTable
  pub config_peers : Dict Bytes
  pub public_key : Bytes
  pub peers : Dict PeerState
  pub running : Bool

-- `server::ConnectionInfo`
pub record ConnectionInfo : Type 0 where
  pub tx_key : Bytes
  pub rx_key : Bytes
  pub handshake_hash : Bytes
  pub remote_public_key : Bytes
  pub host : Bytes
  pub port : ℕ
  pub raw_stream : ℕ
  pub udx_socket : ℕ
  pub remote_udx_id : ℕ
  pub socket_keepalive : ℕ

pub data Effect : Type 0 where
  stream_connect : ℕ → ℕ → ℕ → Bytes → ℕ → Effect
  open_duplex : ℕ → Handshake → Effect
  stream_write : ℕ → Bytes → Effect
  stream_end : ℕ → Effect
  tun_write : Bytes → Effect

abbrev pub Outcome : Type 0
Outcome = ServerCtx × List Effect

unfoldable pub send_framed : ℕ → Bytes → Effect
unfolding frame_encode
send_framed stream payload = stream_write stream (frame_encode payload)

unfoldable pub on_tun_packet : ServerCtx → Bytes → Outcome
unfolding send_framed
on_tun_packet c packet =
    let dest = read_dest_ip packet in
    let stream = lookup dest c.routes in
    if is_empty dest
    then (c, [])
    else if stream == null
    then (c, [])
    else (c, send_framed stream packet ∷ [])

-- The decoder of `ctx.peers[pk_hex]`: a new entry starts with an empty one.
abbrev pub decoder_of : Option PeerState → FrameDecoder
decoder_of none = record { buf = [] }
decoder_of (some p) = p.decoder

abbrev pub or_empty : Option Bytes → Bytes
or_empty none = []
or_empty (some ip) = ip

abbrev connect_raw : ConnectionInfo → List Effect
connect_raw i =
    if i.port == 0 || i.raw_stream == 0
    then []
    else stream_connect i.raw_stream i.udx_socket i.remote_udx_id i.host i.port ∷ []

abbrev handshake : ServerCtx → ConnectionInfo → Handshake
handshake c i = record {
  tx_key = i.tx_key;
  rx_key = i.rx_key;
  handshake_hash = i.handshake_hash;
  remote_public_key = i.remote_public_key;
  public_key = c.public_key;
  is_initiator = false;
}

-- The entry of a peer that connects. The old entry's duplex is replaced, its decoder is not.
abbrev pub new_peer : ServerCtx → ConnectionInfo → Bytes → ℕ → PeerState
new_peer c i pk stream = record {
  socket_keepalive = i.socket_keepalive;
  duplex = stream;
  decoder = decoder_of (get pk c.peers);
  assigned_ip = or_empty (get pk c.config_peers);
  pk_hex = pk;
}

abbrev pub route_to : Bytes → ℕ → RoutingTable → RoutingTable
route_to ip stream t = if is_empty ip then t else Routing.add ip stream t

-- `stream` is the duplex that is made for the connection.
unfoldable pub setup_peer_stream : ServerCtx → ConnectionInfo → ℕ → Outcome
unfolding bytes_to_hex
setup_peer_stream c i stream =
    let pk = bytes_to_hex i.remote_public_key in
    (
      record c {
        peers = put pk (new_peer c i pk stream) c.peers;
        routes = route_to (or_empty (get pk c.config_peers)) stream c.routes;
      },
      connect_raw i ++ (open_duplex stream (handshake c i) ∷ []),
    )

-- `RoutingTable::lookup`, unless the packet names no address.
abbrev pub target : RoutingTable → Bytes → ℕ
target t dest = if is_empty dest then null else lookup dest t

-- To the peer that has the address, or to the TUN device.
unfoldable pub forward : RoutingTable → Bytes → Effect
unfolding send_framed
forward t packet =
    let to = target t (read_dest_ip packet) in
    if to == null then tun_write packet else send_framed to packet

abbrev pub link_local : Bytes → Bool
link_local = starts_with (codes "fe80:")

-- A packet of a peer with no address yet: learn it, unless another peer has it.
unfoldable pub learn : ServerCtx → Bytes → PeerState → ℕ → Bytes → ServerCtx
learn c pk ps stream src =
    if lookup src c.routes == null
    then record c {
      peers = put pk (record ps { assigned_ip = src }) c.peers;
      routes = Routing.add src stream c.routes;
    }
    else c

unfoldable pub on_open_packet : ServerCtx → Bytes → PeerState → ℕ → Bytes → Outcome
unfolding learn forward
on_open_packet c pk ps stream packet =
    let src = read_src_ip packet in
    if is_empty src
    then (c, forward c.routes packet ∷ [])
    else if link_local src
    then (c, [])
    else (let c' = learn c pk ps stream src in (c', forward c'.routes packet ∷ []))

-- The callback of the decoder, for the peer `pk` whose state stands in the context.
unfoldable pub on_frame : ServerCtx → Bytes → PeerState → ℕ → Bytes → Outcome
unfolding on_open_packet forward
on_frame c pk ps stream packet =
    if is_empty ps.assigned_ip
    then on_open_packet c pk ps stream packet
    else if same (read_src_ip packet) ps.assigned_ip
    then (c, forward c.routes packet ∷ [])
    else (c, [])

-- `ps` is a reference into the map: each frame sees what the frame before it has written.
abbrev frame_at : ServerCtx → Bytes → Option PeerState → ℕ → Bytes → Outcome
frame_at c pk none stream packet = (c, [])
frame_at c pk (some ps) stream packet = on_frame c pk ps stream packet

abbrev pub after : List Effect → Outcome → Outcome
after es (c, fs) = (c, es ++ fs)

unfoldable pub on_frames : ServerCtx → Bytes → ℕ → List Bytes → Outcome
on_frames c pk stream [] = (c, [])
on_frames c pk stream (p ∷ ps) =
    let (c', es) = frame_at c pk (get pk c.peers) stream p in after es (on_frames c' pk stream ps)

-- The search for the peer by its stream.
unfoldable pub find_stream : ℕ → Dict PeerState → Option (Bytes × PeerState)
find_stream stream [] = none
find_stream stream ((k, v) ∷ m) = if v.duplex == stream then some (k, v) else find_stream stream m

abbrev pub feed_peer : ServerCtx → ℕ → Bytes → Option (Bytes × PeerState) → Outcome
feed_peer c stream chunk none = (c, [])
feed_peer c stream chunk (some (pk, ps)) =
    let f = feed ps.decoder chunk in
    on_frames (record c { peers = put pk (record ps { decoder = f.decoder }) c.peers }) pk stream
      f.frames

unfoldable pub on_message : ServerCtx → ℕ → Bytes → Outcome
on_message c stream chunk = feed_peer c stream chunk (find_stream stream c.peers)

unfoldable pub on_end : ServerCtx → ℕ → Outcome
on_end c stream = (c, stream_end stream ∷ [])

abbrev unroute : Bytes → RoutingTable → RoutingTable
unroute ip t = if is_empty ip then t else Routing.remove ip t

abbrev pub close_peer : ServerCtx → Bytes → Option PeerState → ServerCtx
close_peer c pk none = c
close_peer c pk (some ps) = record c {
  routes = unroute ps.assigned_ip c.routes;
  peers = Dict.erase pk c.peers;
}

unfoldable pub on_close : ServerCtx → Bytes → Outcome
on_close c pk = (close_peer c pk (get pk c.peers), [])

-- `is_connected` says which streams are up.
unfoldable pub keepalive_tick : (ℕ → Bool) → Dict PeerState → List Effect
unfolding frame_keepalive
keepalive_tick is_connected [] = []
keepalive_tick is_connected ((k, v) ∷ m) =
    if not (v.duplex == null) && is_connected v.duplex
    then stream_write v.duplex frame_keepalive ∷ keepalive_tick is_connected m
    else keepalive_tick is_connected m

unfoldable pub on_signal : ServerCtx → Outcome
on_signal c = (record c { running = false }, [])

abbrev is_listed : Option Bytes → Bool
is_listed none = false
is_listed (some _) = true

-- `true` turns the peer away.
unfoldable pub firewall : ServerCtx → Bytes → Bool
unfolding bytes_to_hex
firewall c remote_pk =
    if is_empty c.config_peers
    then false
    else not (is_listed (get (bytes_to_hex remote_pk) c.config_peers))
