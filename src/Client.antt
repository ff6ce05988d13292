-- ===== src/Client.antt =====
-- cpp/client.cpp: the client as a state machine over the events of its loop. A handler returns the
-- new context and the calls it makes of the DHT, the stream, the TUN device, the timers and the
-- full-tunnel routes, in order. Log lines are left out.
pub mod Run
pub mod Backoff
pub mod Connection
pub mod Stop
pub mod Traffic
mod Tests
use nospoon.Base.{
  ℕ, suc, ◌+◌, ◌*◌, ◌%◌, ◌^◌, Bool, true, false, not, ◌&&◌, ◌||◌, List, [], ◌∷◌, ◌++◌, Option, none,
  some, map, ltb, leb, ◌==◌, if◌then◌else◌, Bytes, is_empty,
}
use nospoon.Base.Int.{ℤ, is_zero}
use nospoon.Stream.{Handshake}
use nospoon.Framing
use nospoon.Framing.{FrameDecoder, frame_encode, frame_keepalive, feed}

-- `ConnectResult`: what the DHT reports of a peer that it reached. A pointer is a number, 0 is null.
pub record ConnectResult : Type 0 where
  pub tx_key : Bytes
  pub rx_key : Bytes
  pub handshake_hash : Bytes
  pub remote_public_key : Bytes
  pub host : Bytes
  pub port : ℕ
  pub raw_stream : ℕ
  pub udx_socket : ℕ
  pub remote_udx_id : ℕ
  pub socket_keepalive : ℕ

pub record ClientCtx : Type 0 where
  pub has_dht : Bool
  pub dht_generation : ℕ
  pub public_key : Bytes
  pub full_tunnel : Bool
  pub socket_keepalive : ℕ
  pub duplex : Option ℕ
  pub decoder : FrameDecoder
  pub backoff_ms : ℕ
  pub failures : ℕ
  pub connected : Bool
  pub running : Bool
  pub full_tunnel_active : Bool
  pub reconnect_timer : Option ℕ
  pub keepalive_timer : Bool

pub data Effect : Type 0 where
  dht_connect : ℕ → Effect
  dht_destroy dht_create : Effect
  delete_later : ℕ → Effect
  start_timer : ℕ → Effect
  stream_connect : ℕ → ℕ → ℕ → Bytes → ℕ → Effect
  open_duplex : ℕ → Handshake → Effect
  start_keepalive : ℕ → ℕ → Effect
  stream_write : ℕ → Bytes → Effect
  stream_end : ℕ → Effect
  tun_write : Bytes → Effect
  enable_tunnel exempt_host : Bytes → Effect
  disable_tunnel tun_close : Effect

abbrev pub Outcome : Type 0
Outcome = ClientCtx × List Effect

-- One handler's calls in front of what follows.
abbrev pub after : List Effect → Outcome → Outcome
after es (c, fs) = (c, es ++ fs)

abbrev pub max_failures_before_restart : ℕ
max_failures_before_restart = 3

-- `std::min(a, b)`
abbrev pub lesser : ℕ → ℕ → ℕ
lesser a b = if ltb b a then b else a

unfoldable pub send_framed : ℕ → Bytes → Effect
unfolding frame_encode
send_framed stream payload = stream_write stream (frame_encode payload)

abbrev pub with_duplex : Option ℕ → Bool → (ℕ → List Effect) → List Effect
with_duplex none is_connected f = []
with_duplex (some s) is_connected f = if is_connected then f s else []

-- The flag is `duplex->is_connected()`, here and below.
unfoldable pub on_tun_packet : ClientCtx → Bool → Bytes → Outcome
unfolding send_framed
on_tun_packet c is_connected packet =
    (c, with_duplex c.duplex is_connected (λ s. send_framed s packet ∷ []))

unfoldable pub keepalive_tick : ClientCtx → Bool → Outcome
unfolding frame_keepalive
keepalive_tick c is_connected =
    (c, with_duplex c.duplex is_connected (λ s. stream_write s frame_keepalive ∷ []))

unfoldable pub on_signal : ClientCtx → Outcome
on_signal c = (record c { running = false }, [])

-- The callback that `do_connect` hands over holds the generation of this moment.
unfoldable pub do_connect : ClientCtx → Outcome
do_connect c =
    if not c.running || not c.has_dht then (c, []) else (c, dht_connect c.dht_generation ∷ [])

abbrev destroy_old : Bool → List Effect
destroy_old true = dht_destroy ∷ delete_later 5000 ∷ []
destroy_old false = []

-- `dht_generation` is a `uint64_t`.
unfoldable pub restart_dht : ClientCtx → Outcome
unfolding do_connect
restart_dht c =
    if not c.running
    then (c, [])
    else after (destroy_old c.has_dht ++ (dht_create ∷ [])) (
        do_connect (record c {
          dht_generation = (c.dht_generation + 1) % 2 ^ 64;
          duplex = none;
          socket_keepalive = 0;
          decoder = Framing.reset c.decoder;
          connected = false;
          has_dht = true;
          failures = 0;
          backoff_ms = 1000;
        }))

-- The branch of `schedule_reconnect` behind the third failure.
unfoldable pub give_up_routes : ClientCtx → Outcome
give_up_routes c =
    if c.full_tunnel_active
    then after (disable_tunnel ∷ []) (restart_dht (record c { full_tunnel_active = false }))
    else restart_dht c

unfoldable pub back_off : ClientCtx → Outcome
back_off c =
    let wait = lesser (c.backoff_ms * 2) 30000 in
    (record c { backoff_ms = wait; reconnect_timer = some wait }, start_timer wait ∷ [])

unfoldable pub schedule_reconnect : ClientCtx → Outcome
schedule_reconnect c =
    if not c.running
    then (c, [])
    else (let c' = record c { failures = c.failures + 1 } in
        if leb max_failures_before_restart c'.failures then give_up_routes c' else back_off c')

-- `uv_ip4_addr` and `udx_stream_connect`, on the punched socket if there is one; 0 stands for the
-- socket of the DHT.
abbrev connect_raw : ConnectResult → List Effect
connect_raw r =
    if r.port == 0 || r.raw_stream == 0
    then []
    else stream_connect r.raw_stream r.udx_socket r.remote_udx_id r.host r.port ∷ []

abbrev handshake : ClientCtx → ConnectResult → Handshake
handshake c r = record {
  tx_key = r.tx_key;
  rx_key = r.rx_key;
  handshake_hash = r.handshake_hash;
  remote_public_key = r.remote_public_key;
  public_key = c.public_key;
  is_initiator = true;
}

-- The routes on a connect; `enabled` is what `enable_client_full_tunnel` returns.
unfoldable pub update_routes : ClientCtx → Bool → Bytes → Outcome
update_routes c enabled server_ip =
    if not c.full_tunnel
    then (c, [])
    else if c.full_tunnel_active
    then (c, exempt_host server_ip ∷ [])
    else (record c { full_tunnel_active = enabled }, enable_tunnel server_ip ∷ [])

-- `stream` names the new duplex.
unfoldable pub on_connected : ClientCtx → ConnectResult → ℕ → Bool → Outcome
unfolding update_routes
on_connected c r stream enabled =
    after (connect_raw r ++ (open_duplex stream (handshake c r) ∷ start_keepalive 25000 25000 ∷ []))
      (update_routes
        (record c {
          backoff_ms = 1000;
          failures = 0;
          connected = true;
          duplex = some stream;
          socket_keepalive = r.socket_keepalive;
          keepalive_timer = true;
        })
        enabled r.host)

unfoldable pub on_connect_result : ClientCtx → ℤ → ConnectResult → ℕ → Bool → Outcome
on_connect_result c error r stream enabled =
    if is_zero error then on_connected c r stream enabled else schedule_reconnect c

-- The callback of `connect`, with the generation that it was made under.
unfoldable pub connect_callback : ClientCtx → ℕ → ℤ → ConnectResult → ℕ → Bool → Outcome
connect_callback c generation error r stream enabled =
    if generation == c.dht_generation then on_connect_result c error r stream enabled else (c, [])

unfoldable pub on_message : ClientCtx → Bytes → Outcome
unfolding feed
on_message c chunk =
    let f = feed c.decoder chunk in (record c { decoder = f.decoder }, map tun_write f.frames)

unfoldable pub on_end : ClientCtx → ℕ → Outcome
on_end c stream = (c, stream_end stream ∷ [])

-- The context that `on_close` leaves behind `schedule_reconnect`.
abbrev pub drop_duplex : Outcome → Outcome
drop_duplex (c, es) = (record c { duplex = none; socket_keepalive = 0 }, es)

unfoldable pub on_close : ClientCtx → Outcome
on_close c =
    drop_duplex
      (schedule_reconnect (record c { connected = false; decoder = Framing.reset c.decoder }))

-- The timer of `schedule_reconnect` runs out: it fires once.
unfoldable pub on_reconnect_timer : ClientCtx → Outcome
unfolding do_connect
on_reconnect_timer c = do_connect (record c { reconnect_timer = none })
