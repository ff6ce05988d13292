-- ===== src/Server/Packets.antt =====
-- What the server does with the packets of a peer that has an address.
use nospoon.Base.{
  ℕ, ◌≡◌, ◌≢◌, refl, ap, inl, inr, true, false, List, [], ◌∷◌, ◌++◌, Option, some, map, arith, ◌==◌,
  if◌then◌else◌, Bool-cases, All, Bytes, is_empty, same, same_iff, same_refl,
}
use nospoon.Base.Dict.{Dict, get, put, get-put, Distinct, get-Fresh}
use nospoon.Framing.{feed, frame_encode}
use nospoon.Routing.{RoutingTable, lookup, read_src_ip, read_dest_ip}
use nospoon.Server.{
  PeerState, ServerCtx, Effect, Outcome, forward, send_framed, stream_write, tun_write, on_frame,
  on_frames, find_stream, on_message,
}

-- The packets that claim the address as their source.
abbrev pub genuine : Bytes → List Bytes → List Bytes
genuine ip [] = []
genuine ip (p ∷ ps) = if same (read_src_ip p) ip then p ∷ genuine ip ps else genuine ip ps

on_frame-assigned :
    (c : ServerCtx) (pk : Bytes) (ps : PeerState) (stream : ℕ) (packet : Bytes)
    → is_empty ps.assigned_ip ≡ false
    → on_frame c pk ps stream packet
      ≡ (c, map (forward c.routes) (genuine ps.assigned_ip (packet ∷ [])))
unfolding on_frame
on_frame-assigned c pk ps stream packet h = ground arith

relay_cons :
    (f : Bytes → Effect) (ip p : Bytes) (ps : List Bytes)
    → map f (genuine ip (p ∷ [])) ++ map f (genuine ip ps) ≡ map f (genuine ip (p ∷ ps))
relay_cons f ip p ps = elim (Bool-cases (same (read_src_ip p) ip)) [ inl e ↦ rw e | inr e ↦ rw e ]

on_frames-assigned :
    (c : ServerCtx) (pk : Bytes) (ps : PeerState) (stream : ℕ) (packets : List Bytes)
    → get pk c.peers ≡ some ps
    → is_empty ps.assigned_ip ≡ false
    → on_frames c pk stream packets ≡ (c, map (forward c.routes) (genuine ps.assigned_ip packets))
unfolding on_frames
on_frames-assigned c pk ps stream [] g h = refl
on_frames-assigned c pk ps stream (p ∷ packets) g h =
    rw (g, on_frame-assigned c pk ps stream p h, on_frames-assigned c pk ps stream packets g h)
      (ap (λ (es : List Effect). (c, es)) (relay_cons (forward c.routes) ps.assigned_ip p packets))

-- Where a packet has to go: framed to the stream that its destination is routed to, or to the TUN
-- device when it names no address or one without a stream.
pub record Goes (t : RoutingTable) (packet : Bytes) (e : Effect) : Type 0 where
  pub to_peer :
      (stream : ℕ)
      → read_dest_ip packet ≢ []
      → lookup (read_dest_ip packet) t ≡ stream
      → stream ≢ 0
      → e ≡ stream_write stream (frame_encode packet)
  pub nameless : read_dest_ip packet ≡ [] → e ≡ tun_write packet
  pub away : lookup (read_dest_ip packet) t ≡ 0 → e ≡ tun_write packet

-- One effect for each packet, in order.
abbrev pub AllGo : RoutingTable → List Bytes → List Effect → Type 0
AllGo t [] [] = Unit {0}
AllGo t [] (e ∷ es) = ⊥
AllGo t (p ∷ ps) [] = ⊥
AllGo t (p ∷ ps) (e ∷ es) = Goes t p e × AllGo t ps es

pub given : (s : Bytes) → s ≢ [] → is_empty s ≡ false
given [] h = absurd (h refl)
given (c ∷ s) h = refl

forward-Goes : (t : RoutingTable) (packet : Bytes) → Goes t packet (forward t packet)
unfolding forward send_framed
forward-Goes t packet = record {
  to_peer =
      λ stream named routed live. rw (given (read_dest_ip packet) named, routed) (ground arith);
  nameless = λ none_named. rw none_named;
  away = λ h. ground (arith, h);
}

map-AllGo : (t : RoutingTable) (ps : List Bytes) → AllGo t ps (map (forward t) ps)
map-AllGo t [] = tt
map-AllGo t (p ∷ ps) = (forward-Goes t p, map-AllGo t ps)

pub on_message-forward :
    (c : ServerCtx) (pk : Bytes) (ps : PeerState) (stream : ℕ) (chunk : Bytes)
    → find_stream stream c.peers ≡ some (pk, ps)
    → is_empty ps.assigned_ip ≡ false
    → on_message c stream chunk ≡ (
      record c { peers = put pk (record ps { decoder = (feed ps.decoder chunk).decoder }) c.peers },
      map (forward c.routes) (genuine ps.assigned_ip (feed ps.decoder chunk).frames),
    )
unfolding on_message
on_message-forward c pk ps stream chunk e h =
    let f = feed ps.decoder chunk in
    let ps' : PeerState = record ps { decoder = f.decoder } in
    let c' : ServerCtx = record c { peers = put pk ps' c.peers } in
    let found : get pk c'.peers ≡ some ps' = rw (get-put pk pk ps' c.peers, same_refl pk) in
    rw e (on_frames-assigned c' pk ps' stream f.frames found h)

-- A message on the stream of a peer that has an address: exactly the packets with this source are
-- passed on, in order, each framed to the stream that its destination is routed to, or to the TUN
-- device when it names no address or one without a stream, and only the peer's decoder changes.
pub on_message-assigned :
    (c : ServerCtx) (pk : Bytes) (ps : PeerState) (stream : ℕ) (chunk : Bytes)
    → find_stream stream c.peers ≡ some (pk, ps)
    → is_empty ps.assigned_ip ≡ false
    → (es : List Effect) × (on_message c stream chunk ≡ (
      record c { peers = put pk (record ps { decoder = (feed ps.decoder chunk).decoder }) c.peers },
      es,
    ))
      × AllGo c.routes (genuine ps.assigned_ip (feed ps.decoder chunk).frames) es
on_message-assigned c pk ps stream chunk e h =
    let packets = genuine ps.assigned_ip (feed ps.decoder chunk).frames in
    (
      map (forward c.routes) packets,
      on_message-forward c pk ps stream chunk e h,
      map-AllGo c.routes packets,
    )

genuine-source : (ip : Bytes) (ps : List Bytes) → All (λ p. read_src_ip p ≡ ip) (genuine ip ps)
genuine-source ip [] = tt
genuine-source ip (p ∷ ps) = ground (arith, genuine-source ip ps, same_iff (read_src_ip p) ip)

-- A message on the stream of a peer that has an address: every packet that is passed on, to a peer
-- or to the TUN device, has the peer's address as its source.
pub on_message_no_spoofing :
    (c : ServerCtx) (pk : Bytes) (ps : PeerState) (stream : ℕ) (chunk : Bytes)
    → find_stream stream c.peers ≡ some (pk, ps)
    → is_empty ps.assigned_ip ≡ false
    → (passed : List Bytes) × ((on_message c stream chunk).1 ≡ map (forward c.routes) passed)
      × All (λ p. read_src_ip p ≡ ps.assigned_ip) passed
on_message_no_spoofing c pk ps stream chunk e h = (
  genuine ps.assigned_ip (feed ps.decoder chunk).frames,
  ap (λ (o : Outcome). o.1) (on_message-forward c pk ps stream chunk e h),
  genuine-source ps.assigned_ip (feed ps.decoder chunk).frames,
)

found_later :
    (stream : ℕ) (k : Bytes) (v : PeerState) (m : Dict PeerState) (pk : Bytes) (ps : PeerState)
    → (v.duplex == stream) ≡ false
    → find_stream stream ((k, v) ∷ m) ≡ some (pk, ps)
    → find_stream stream m ≡ some (pk, ps)
unfolding find_stream
found_later stream k v m pk ps e h = rw e at h

found_here :
    (stream : ℕ) (k : Bytes) (v : PeerState) (m : Dict PeerState) (pk : Bytes) (ps : PeerState)
    → (v.duplex == stream) ≡ true
    → find_stream stream ((k, v) ∷ m) ≡ some (pk, ps)
    → (get pk ((k, v) ∷ m) ≡ some ps) × (ps.duplex ≡ stream)
unfolding find_stream get
found_here stream k v m pk ps e h =
    let h' : ◌≡◌ {A = Option (Bytes × PeerState)} (some (k, v)) (some (pk, ps)) = rw e at h in
    let key : k ≡ pk = cc in
    let val : v ≡ ps = cc in (rw (← key, same_refl k) (ap some val), ground (arith, val))

-- The peer that is found by a stream stands in the map under its key and holds the stream.
pub find_stream-get :
    (stream : ℕ) (m : Dict PeerState) {pk : Bytes} {ps : PeerState}
    → Distinct m
    → find_stream stream m ≡ some (pk, ps)
    → (get pk m ≡ some ps) × (ps.duplex ≡ stream)
unfolding find_stream get
find_stream-get stream [] d h = (cc, cc)
find_stream-get stream ((k, v) ∷ m) {pk} {ps} d h = elim (Bool-cases (v.duplex == stream)) [
  | inl e ↦ found_here stream k v m pk ps e h
  | inr e ↦
      let (g, s) = find_stream-get stream m d.1 (found_later stream k v m pk ps e h) in
      (ground (arith, get-Fresh k m d.0, same_iff k pk), s)
]
