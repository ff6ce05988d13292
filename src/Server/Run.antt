-- ===== src/Server/Run.antt =====
-- cpp/server.cpp: `run_server`, the start, the events of the loop, and the cleanup. The DHT hands a
-- connection on only if the firewall lets the peer in.
use nospoon.Base.{ℕ, Bool, true, List, [], ◌∷◌, if◌then◌else◌, Bytes}
use nospoon.Base.{◌++◌, not, none, some, is_empty}
use nospoon.Config.{Config, ip_address}
use nospoon.Config.Hex.{hex_to_bytes}
use nospoon.Server.Subnet.{nat_subnet}
use nospoon.Routing.{empty_table}
use nospoon.Server.{
  ServerCtx, ConnectionInfo, Outcome, after, setup_peer_stream, on_message, on_tun_packet, on_end,
  on_close, keepalive_tick, on_signal, firewall,
}

pub data Event : Type 0 where
  connection : ConnectionInfo → ℕ → Event
  message : ℕ → Bytes → Event
  ended : ℕ → Event
  closed : Bytes → Event
  tun_packet : Bytes → Event
  keepalive_due : (ℕ → Bool) → Event
  signal : Event

unfoldable pub step : ServerCtx → Event → Outcome
step c (connection i stream) =
    if firewall c i.remote_public_key then (c, []) else setup_peer_stream c i stream
step c (message stream chunk) = on_message c stream chunk
step c (ended stream) = on_end c stream
step c (closed pk) = on_close c pk
step c (tun_packet packet) = on_tun_packet c packet
step c (keepalive_due is_connected) = (c, keepalive_tick is_connected c.peers)
step c signal = on_signal c

unfoldable pub run : ServerCtx → List Event → Outcome
run c [] = (c, [])
run c (e ∷ es) = let (c', fs) = step c e in after fs (run c' es)

abbrev pub initial : Config → Bytes → ServerCtx
initial config public_key = record {
  routes = empty_table;
  config_peers = config.peers;
  public_key = public_key;
  peers = [];
  running = true;
}

-- What the program does not implement: key generation. `fresh` is the random key pair's public key.
pub record Keys : Type 0 where
  pub of_seed : Bytes → Bytes
  pub fresh : Bytes

-- The calls of the start behind the TUN device and of the cleanup. `nat_on` enables forwarding for the
-- subnet and the outbound interface.
pub data Setup : Type 0 where
  dht_bind dht_create_server dht_listen keepalive_start signals_start : Setup
  exclude_address : Bytes → Setup
  nat_on : Bytes → Bytes → Setup
  nat_off peers_clear timers_close tun_close dht_destroy dht_force loop_drain : Setup

-- `return 1`, or the context of the loop, and the calls so far.
pub data Started : Type 0 where
  refused : List Setup → Started
  started : ServerCtx → List Setup → Started

abbrev listening : Config → Bytes → Bool → Started
listening config public_key tun_opens =
    let before = dht_bind ∷ exclude_address (ip_address config) ∷ [] in
    if not tun_opens
    then refused before
    else started (initial config public_key) (
        before
        ++ (dht_create_server
            ∷ dht_listen
            ∷ keepalive_start
            ∷ signals_start
            ∷ (if config.full_tunnel
                then nat_on (nat_subnet config.ip) config.out_iface ∷ []
                else [])))

-- The flag says whether the TUN device opens.
unfoldable pub start_server : Keys → Config → Bool → Started
unfolding hex_to_bytes nat_subnet ip_address
start_server keys config tun_opens =
    if is_empty config.seed
    then listening config keys.fresh tun_opens
    else elim (hex_to_bytes config.seed 32) [
      | none ↦ refused []
      | some seed ↦ listening config (keys.of_seed seed) tun_opens
    ]

-- Behind the loop; the flag says whether NAT was enabled.
unfoldable pub cleanup : Bool → ServerCtx → ServerCtx × List Setup
cleanup full_tunnel_enabled c = (
  record c { peers = [] },
  (if full_tunnel_enabled then nat_off ∷ [] else [])
      ++ (peers_clear ∷ timers_close ∷ tun_close ∷ dht_destroy ∷ loop_drain ∷ dht_force ∷ []),
)
