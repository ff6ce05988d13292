-- ===== src/Client/Run.antt =====
-- `run_client`: the start, the loop over events, and the cleanup.
use nospoon.Base.{
  ℕ, Bool, true, false, List, [], ◌∷◌, ◌++◌, none, some, if◌then◌else◌, Bytes, is_empty,
}
use nospoon.Base.Int.{ℤ}
use nospoon.Config.{Config}
use nospoon.Config.Hex.{hex_to_bytes}
use nospoon.Client.{
  ConnectResult, ClientCtx, Effect, dht_destroy, disable_tunnel, tun_close, Outcome, after,
  on_tun_packet, keepalive_tick, on_signal, do_connect, connect_callback, on_connect_result,
  on_message, on_end, on_close, on_reconnect_timer,
}

-- What happens to the client from outside. A connect result carries the generation of its connect,
-- the new stream and whether the routes could be installed.
pub data Event : Type 0 where
  result : ℕ → ℤ → ConnectResult → ℕ → Bool → Event
  message : Bytes → Event
  ended : ℕ → Event
  closed : Event
  tun_packet : Bool → Bytes → Event
  keepalive_due : Bool → Event
  reconnect_due : Event
  signal : Event

unfoldable pub step : ClientCtx → Event → Outcome
unfolding connect_callback on_connect_result on_message on_end on_close on_tun_packet keepalive_tick
    on_reconnect_timer on_signal
step c (result generation error r stream enabled) =
    connect_callback c generation error r stream enabled
step c (message chunk) = on_message c chunk
step c (ended stream) = on_end c stream
step c closed = on_close c
step c (tun_packet is_connected packet) = on_tun_packet c is_connected packet
step c (keepalive_due is_connected) = keepalive_tick c is_connected
step c reconnect_due = on_reconnect_timer c
step c signal = on_signal c

unfoldable pub run : ClientCtx → List Event → Outcome
run c [] = (c, [])
run c (e ∷ es) = let (c', fs) = step c e in after fs (run c' es)

-- What the program does not implement: key generation. `fresh` is the random key pair's public key.
pub record Keys : Type 0 where
  pub of_seed : Bytes → Bytes
  pub fresh : Bytes

-- `return 1`, or the context with which the loop starts.
pub data Started : Type 0 where
  refused : Started
  started : ClientCtx → List Effect → Started

-- `server_pk` is read, and then handed to the DHT with each connect.
abbrev initial : Config → Bytes → ClientCtx
initial config public_key = record {
  has_dht = true;
  dht_generation = 0;
  public_key = public_key;
  full_tunnel = config.full_tunnel;
  socket_keepalive = 0;
  duplex = none;
  decoder = record { buf = [] };
  backoff_ms = 1000;
  failures = 0;
  connected = false;
  running = true;
  full_tunnel_active = false;
  reconnect_timer = none;
  keepalive_timer = false;
}

abbrev start_with : Outcome → Started
start_with (c, es) = started c es

abbrev open_tun : Config → Bool → Bytes → Started
open_tun config tun_opens public_key =
    if tun_opens then start_with (do_connect (initial config public_key)) else refused

abbrev read_server : Config → Bool → Bytes → Started
read_server config tun_opens public_key =
    if is_empty config.server_key then refused else elim (hex_to_bytes config.server_key 32) [
      | none ↦ refused
      | some server_pk ↦ open_tun config tun_opens public_key
    ]

-- The flag says whether the TUN device opens.
unfoldable pub start_client : Keys → Config → Bool → Started
unfolding do_connect hex_to_bytes
start_client keys config tun_opens =
    if is_empty config.seed
    then read_server config tun_opens keys.fresh
    else elim (hex_to_bytes config.seed 32) [
      | none ↦ refused
      | some seed ↦ read_server config tun_opens (keys.of_seed seed)
    ]

-- Behind the loop: the routes first, then the streams and timers, then the DHT.
unfoldable pub cleanup : ClientCtx → Outcome
cleanup c =
    let c' = record c {
      full_tunnel_active = false;
      duplex = none;
      socket_keepalive = 0;
      keepalive_timer = false;
      reconnect_timer = none;
    } in
    let routes = if c.full_tunnel_active then disable_tunnel ∷ [] else [] in
    let dht = if c.has_dht then dht_destroy ∷ dht_destroy ∷ [] else [] in
    (record c' { has_dht = false }, routes ++ (tun_close ∷ dht))
