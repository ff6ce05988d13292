-- ===== src/Server/Reconnect.antt =====
-- A peer that connects again under its key while its old connection is still in the map.
use nospoon.Base.{
  ℕ, ◌≡◌, ◌≢◌, refl, sym, subst, ap, ◌∙◌, List, ==_iff, same_iff, false, [], ◌∷◌, none, some, arith,
  Bytes, is_empty,
}
use nospoon.Base.Dict.{Dict, get, put}
use nospoon.Framing.{FrameDecoder, feed}
use nospoon.Server.Packets.{AllGo, genuine, given, on_message-assigned}
use nospoon.Config.Hex.{bytes_to_hex}
use nospoon.Routing.{null, lookup, read_dest_ip, read_src_ip}
use nospoon.Server.{
  PeerState, ServerCtx, ConnectionInfo, Outcome, find_stream, on_message, send_framed, new_peer,
  setup_peer_stream, on_tun_packet, link_local, on_open_packet, learn, forward,
}

to_old :
    (c : ServerCtx) (ip packet : Bytes) (stream : ℕ)
    → lookup ip c.routes ≡ stream
    → stream ≢ null
    → is_empty ip ≡ false
    → read_dest_ip packet ≡ ip
    → (on_tun_packet c packet).1 ≡ send_framed stream packet ∷ []
unfolding on_tun_packet
to_old c ip packet stream route live given dest = rw (dest, given, route) (ground arith)

-- A peer with no address whose source is routed already learns nothing.
learn_taken :
    (c : ServerCtx) (pk : Bytes) (ps : PeerState) (stream : ℕ) (src : Bytes)
    → lookup src c.routes ≢ null
    → learn c pk ps stream src ≡ c
unfolding learn
learn_taken c pk ps stream src taken = ground arith

-- In open mode a peer that has no address yet may send under an address that another peer has
-- learned: the packet is passed on all the same, and the peer stays without an address.
pub on_open_packet-taken :
    (c : ServerCtx) (pk : Bytes) (ps : PeerState) (stream : ℕ) (packet : Bytes)
    → is_empty (read_src_ip packet) ≡ false
    → link_local (read_src_ip packet) ≡ false
    → lookup (read_src_ip packet) c.routes ≢ null
    → on_open_packet c pk ps stream packet ≡ (c, forward c.routes packet ∷ [])
unfolding on_open_packet
on_open_packet-taken c pk ps stream packet given routable taken =
    rw (given, routable, learn_taken c pk ps stream (read_src_ip packet) taken)

-- The stream of an entry that is put in finds it, if no peer had the stream.
find_stream-put :
    (stream : ℕ) (k : Bytes) (v : PeerState) (m : Dict PeerState)
    → v.duplex ≡ stream
    → find_stream stream m ≡ none
    → find_stream stream (put k v m) ≡ some (k, v)
unfolding find_stream put
find_stream-put stream k v [] e h = ground (arith, ==_iff v.duplex stream)
find_stream-put stream k v ((j, w) ∷ m) e h =
    ground (arith, ==_iff v.duplex stream, same_iff j k, find_stream-put stream k v m e)

module _ (c : ServerCtx) (i : ConnectionInfo) (stream : ℕ) (old : PeerState) where
  abbrev pub key : Bytes
  key = bytes_to_hex i.remote_public_key

  abbrev entry : PeerState
  entry = new_peer c i key stream

  entry_found :
      find_stream stream c.peers ≡ none
      → find_stream stream (setup_peer_stream c i stream).0.peers ≡ some (key, entry)
  unfolding setup_peer_stream
  entry_found free = find_stream-put stream key entry c.peers refl free

  -- A peer with a listed address connects again under its key, on a stream that no peer has, while
  -- its old entry stands: what the old connection left in the decoder stands in front of the first
  -- message of the new one. The packets that are passed on are those with the peer's address as
  -- their source among the frames of the leftover and the message, each to where its destination is.
  pub setup_peer_stream-decoder :
      (ip chunk : Bytes)
      → get key c.peers ≡ some old
      → get key c.config_peers ≡ some ip
      → ip ≢ []
      → find_stream stream c.peers ≡ none
      → let c' = (setup_peer_stream c i stream).0 in
        AllGo c'.routes (genuine ip (feed old.decoder chunk).frames) (on_message c' stream chunk).1
  setup_peer_stream-decoder ip chunk found listed named free =
      let c' = (setup_peer_stream c i stream).0 in
      let address : entry.assigned_ip ≡ ip = rw listed in
      let left : entry.decoder ≡ old.decoder = rw found in
      let (es, run, go) =
        on_message-assigned c' key entry stream chunk (entry_found free)
          (ap is_empty address ∙ given ip named) in
      subst (AllGo c'.routes (genuine ip (feed old.decoder chunk).frames))
        (sym (ap (λ (o : Outcome). o.1) run))
        (subst (λ (ps : List Bytes). AllGo c'.routes ps es)
          (ap (λ (a : Bytes). genuine a (feed entry.decoder chunk).frames) address
            ∙ ap (λ (d : FrameDecoder). genuine ip (feed d chunk).frames) left)
          go)

  unlisted_routes :
      get key c.config_peers ≡ none → (setup_peer_stream c i stream).0.routes ≡ c.routes
  unfolding setup_peer_stream
  unlisted_routes open_mode = rw open_mode

  -- A peer without a listed address, whose old connection has learned one, connects again under its
  -- key: packets for the address still go to the old stream.
  pub setup_peer_stream-stale :
      (ip packet : Bytes)
      → get key c.config_peers ≡ none
      → lookup ip c.routes ≡ old.duplex
      → old.duplex ≢ null
      → is_empty ip ≡ false
      → read_dest_ip packet ≡ ip
      → (on_tun_packet (setup_peer_stream c i stream).0 packet).1
        ≡ send_framed old.duplex packet ∷ []
  setup_peer_stream-stale ip packet open_mode routed live given dest =
      to_old (setup_peer_stream c i stream).0 ip packet old.duplex
        (ap (lookup ip) (unlisted_routes open_mode) ∙ routed) live given dest
