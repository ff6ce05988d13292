-- ===== src/Server/Routes.antt =====
-- The routes of a server with an allowlist: each connected peer has the route of its address, and no
-- other peer's address leads anywhere.
use nospoon.Base.{
  ℕ, ◌≡◌, refl, sym, ap, inl, inr, subst, true, false, List, [], ◌∷◌, Option, none, some, arith,
  Bool-cases, Option-cases, Bytes, is_empty, same_iff,
}
use nospoon.Base.Dict
use nospoon.Base.Dict.{Dict, get, put, get-put, get-erase, Distinct, put-Distinct, erase-Distinct}
use nospoon.Config.Hex.{bytes_to_hex}
use nospoon.Framing.{feed}
use nospoon.Routing
use nospoon.Routing.{RoutingTable, null, lookup, read_dest_ip}
use nospoon.Routing.Table.{IsTable, lookup-add, lookup-remove, add-IsTable, remove-IsTable}
use nospoon.Server.{
  PeerState, ServerCtx, ConnectionInfo, Outcome, find_stream, on_message, setup_peer_stream,
  on_close, firewall, new_peer, or_empty, route_to, on_tun_packet, on_end, on_signal,
}
use nospoon.Server.Packets.{on_message-forward, find_stream-get}
use nospoon.Server.Run.{
  Event, connection, message, ended, closed, tun_packet, keepalive_due, signal, step, run,
}

-- The allowlist gives each key an address of its own.
pub record IsAllowlist (peers : Dict Bytes) : Type 0 where
  pub listed : is_empty peers ≡ false
  pub addressed : (k ip : Bytes) → get k peers ≡ some ip → is_empty ip ≡ false
  pub separate : (j k ip : Bytes) → get j peers ≡ some ip → get k peers ≡ some ip → j ≡ k

abbrev pub stream_of : Option PeerState → ℕ
stream_of none = null
stream_of (some p) = p.duplex

-- Connected peers are listed ones under their address, and the route of a listed address is the
-- stream of its peer, the null pointer while the peer is away.
pub record IsRouted (c : ServerCtx) : Type 0 where
  pub table : IsTable c.routes
  pub distinct : Distinct c.peers
  pub assigned :
      (k : Bytes) (p : PeerState)
      → get k c.peers ≡ some p
      → get k c.config_peers ≡ some p.assigned_ip
  pub routed :
      (k ip : Bytes)
      → get k c.config_peers ≡ some ip
      → lookup ip c.routes ≡ stream_of (get k c.peers)

unknown_stream :
    (c : ServerCtx) (stream : ℕ) (chunk : Bytes)
    → find_stream stream c.peers ≡ none
    → on_message c stream chunk ≡ (c, [])
unfolding on_message
unknown_stream c stream chunk e = rw e

unknown_key : (c : ServerCtx) (pk : Bytes) → get pk c.peers ≡ none → on_close c pk ≡ (c, [])
unfolding on_close
unknown_key c pk e = rw e

known_key :
    (c : ServerCtx) (pk : Bytes) (p : PeerState)
    → get pk c.peers ≡ some p
    → is_empty p.assigned_ip ≡ false
    → on_close c pk ≡ (
      record c { routes = Routing.remove p.assigned_ip c.routes; peers = Dict.erase pk c.peers },
      [],
    )
unfolding on_close
known_key c pk p e own = rw (e, own)

refuses_unlisted :
    (c : ServerCtx) (pk : Bytes)
    → is_empty c.config_peers ≡ false
    → get (bytes_to_hex pk) c.config_peers ≡ none
    → firewall c pk ≡ true
unfolding firewall
refuses_unlisted c pk h e = ground arith

setup_listed :
    (c : ServerCtx) (i : ConnectionInfo) (stream : ℕ) (ip : Bytes)
    → get (bytes_to_hex i.remote_public_key) c.config_peers ≡ some ip
    → is_empty ip ≡ false
    → (setup_peer_stream c i stream).0 ≡ (
        let pk = bytes_to_hex i.remote_public_key in
        record c {
          peers = put pk (new_peer c i pk stream) c.peers;
          routes = Routing.add ip stream c.routes;
        })
unfolding setup_peer_stream
setup_listed c i stream ip e own =
    let pk = bytes_to_hex i.remote_public_key in
    let route : route_to (or_empty (get pk c.config_peers)) stream c.routes
        ≡ Routing.add ip stream c.routes =
      rw (e, own) in
    ap
      (λ (t : RoutingTable). record c {
        peers = put pk (new_peer c i pk stream) c.peers;
        routes = t;
      })
      route

tun_same : (c : ServerCtx) (packet : Bytes) → (on_tun_packet c packet).0 ≡ c
unfolding on_tun_packet
tun_same c packet = ground arith

module _ (c : ServerCtx) (allow : IsAllowlist c.config_peers) (v : IsRouted c) where
  -- A listed peer connects, or connects anew.
  admit-IsRouted :
      (pk ip : Bytes) (p : PeerState)
      → get pk c.config_peers ≡ some ip
      → p.assigned_ip ≡ ip
      → IsRouted (record c { peers = put pk p c.peers; routes = Routing.add ip p.duplex c.routes })
  admit-IsRouted pk ip p listed own = record {
    table = add-IsTable ip p.duplex c.routes v.table;
    distinct = put-Distinct pk p c.peers v.distinct;
    assigned = λ k q found. ground (arith, get-put pk k p c.peers, same_iff pk k, v.assigned k q);
    routed = λ k j listed'. ground (
      arith,
      lookup-add ip j p.duplex c.routes,
      get-put pk k p c.peers,
      same_iff ip j,
      same_iff pk k,
      v.routed k j listed',
      allow.separate pk k ip listed,
    );
  }

  -- A peer's decoder changes.
  update-IsRouted :
      (pk : Bytes) (p q : PeerState)
      → get pk c.peers ≡ some p
      → q.assigned_ip ≡ p.assigned_ip
      → q.duplex ≡ p.duplex
      → IsRouted (record c { peers = put pk q c.peers })
  update-IsRouted pk p q found ip stream = record {
    table = v.table;
    distinct = put-Distinct pk q c.peers v.distinct;
    assigned = λ k r found'.
        ground
          (arith, get-put pk k q c.peers, same_iff pk k, v.assigned k r, v.assigned pk p found);
    routed =
        λ k j listed'. ground (arith, get-put pk k q c.peers, same_iff pk k, v.routed k j listed');
  }

  -- A peer goes.
  release-IsRouted :
      (pk : Bytes) (p : PeerState)
      → get pk c.peers ≡ some p
      → IsRouted (record c {
        routes = Routing.remove p.assigned_ip c.routes;
        peers = Dict.erase pk c.peers;
      })
  release-IsRouted pk p found = record {
    table = remove-IsTable p.assigned_ip c.routes v.table;
    distinct = erase-Distinct pk c.peers v.distinct;
    assigned = λ k r found'. ground (arith, get-erase pk k c.peers v.distinct, v.assigned k r);
    routed = λ k j listed'. ground (
      arith,
      lookup-remove p.assigned_ip j c.routes v.table,
      get-erase pk k c.peers v.distinct,
      same_iff p.assigned_ip j,
      same_iff pk k,
      v.routed k j listed',
      v.assigned pk p found,
      allow.separate pk k p.assigned_ip,
    );
  }

  abbrev Kept : ServerCtx → Type 0
  Kept c' = IsRouted c' × (c'.config_peers ≡ c.config_peers)

  firewall-listed :
      (pk : Bytes)
      → firewall c pk ≡ false
      → (ip : Bytes) × (get (bytes_to_hex pk) c.config_peers ≡ some ip)
  firewall-listed pk h = elim (Option-cases (get (bytes_to_hex pk) c.config_peers)) [
    | inl e ↦ cc (refuses_unlisted c pk allow.listed e)
    | inr (ip, e) ↦ (ip, e)
  ]

  setup-Kept :
      (i : ConnectionInfo) (stream : ℕ)
      → firewall c i.remote_public_key ≡ false
      → Kept (setup_peer_stream c i stream).0
  setup-Kept i stream h =
      let (ip, e) = firewall-listed i.remote_public_key h in
      let pk = bytes_to_hex i.remote_public_key in
      let own = allow.addressed pk ip e in
      subst Kept (sym (setup_listed c i stream ip e own))
        (admit-IsRouted pk ip (new_peer c i pk stream) e (ap or_empty e), refl)

  message-Kept : (stream : ℕ) (chunk : Bytes) → Kept (on_message c stream chunk).0
  message-Kept stream chunk = elim (Option-cases (find_stream stream c.peers)) [
    | inl e ↦
        subst Kept (sym (ap (λ (o : Outcome). o.0) (unknown_stream c stream chunk e))) (v, refl)
    | inr ((pk, p), e) ↦
        let (found, _) = find_stream-get stream c.peers v.distinct e in
        let own = allow.addressed pk p.assigned_ip (v.assigned pk p found) in
        subst Kept (sym (ap (λ (o : Outcome). o.0) (on_message-forward c pk p stream chunk e own)))
          (
            update-IsRouted pk p (record p { decoder = (feed p.decoder chunk).decoder }) found refl
                refl,
            refl,
          )
  ]

  close-Kept : (pk : Bytes) → Kept (on_close c pk).0
  close-Kept pk = elim (Option-cases (get pk c.peers)) [
    | inl e ↦ subst Kept (sym (ap (λ (o : Outcome). o.0) (unknown_key c pk e))) (v, refl)
    | inr (p, e) ↦
        let own = allow.addressed pk p.assigned_ip (v.assigned pk p e) in
        subst Kept (sym (ap (λ (o : Outcome). o.0) (known_key c pk p e own)))
          (release-IsRouted pk p e, refl)
  ]

  step-Kept : (e : Event) → Kept (step c e).0
  unfolding step on_end on_signal
  step-Kept (connection i stream) = elim (Bool-cases (firewall c i.remote_public_key)) [
    | inl h ↦ rw h (v, refl)
    | inr h ↦ rw h (setup-Kept i stream h)
  ]
  step-Kept (message stream chunk) = message-Kept stream chunk
  step-Kept (closed pk) = close-Kept pk
  step-Kept (tun_packet packet) = subst Kept (sym (tun_same c packet)) (v, refl)
  step-Kept (ended stream) = (v, refl)
  step-Kept (keepalive_due is_connected) = (v, refl)
  step-Kept signal = (
    record { table = v.table; distinct = v.distinct; assigned = v.assigned; routed = v.routed },
    refl,
  )

-- Whatever connects, talks, reconnects and leaves: with an allowlist the routes stay those of the
-- connected peers, each under its own address.
pub run-IsRouted :
    (c : ServerCtx) (es : List Event)
    → IsAllowlist c.config_peers
    → IsRouted c
    → IsRouted (run c es).0
unfolding run
run-IsRouted c [] allow v = v
run-IsRouted c (e ∷ es) allow v =
    let (v', same_list) = step-Kept c allow v e in
    run-IsRouted (step c e).0 es (subst IsAllowlist (sym same_list) allow) v'
