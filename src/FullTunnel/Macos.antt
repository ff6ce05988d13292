-- ===== src/FullTunnel/Macos.antt =====
-- cpp/full_tunnel_macos.cpp: the same calls on macOS, by `route`, `pfctl` and `networksetup`. The
-- state is the file's two globals, the commands that a call runs are listed in order.
pub mod Rules
pub mod Undo
pub mod Dns
mod Tests
use nospoon.Base.{
  ℕ, zero, suc, ◌+◌, ◌-◌, Bool, true, false, not, ◌&&◌, ◌||◌, List, [], ◌∷◌, ◌++◌, Option, none,
  some, map, ◌==◌, if◌then◌else◌, Bytes, codes, is_empty, same, starts_with, drop, take, length,
}
use nospoon.Base.Int.{is_c_space}
use nospoon.Config.{trim_end}
use nospoon.FullTunnel.{
  ServerState, no_server, active_server, GatewayInfo, is_valid, or_else, skip_spaces, leading_word,
  member,
}
use nospoon.FullTunnel.MacosText.{
  value_here, value_after, onto_first, lines, trim_spaces, last_byte, padded, port_of, find_service,
  contains, is_indent, skip_indent, servers_of, last_match, has_word, is_at, with_rule, insert_at,
  pf_rules,
}
use nospoon.FullTunnel.Ledger.{Outcome}

pub record ClientState : Type 0 where
  pub active : Bool
  pub tun_name : Bytes
  pub gateway : Bytes
  pub remote_hosts : List Bytes
  pub network_service : Bytes
  pub saved_dns : List Bytes

abbrev pub no_client : ClientState
no_client = record {
  active = false;
  tun_name = [];
  gateway = [];
  remote_hosts = [];
  network_service = [];
  saved_dns = [];
}

-- A route of `route`, as it stands behind add or delete.
pub data Route : Type 0 where
  net : Bytes → Bytes → Route
  net6 : Bytes → Bytes → Route
  host : Bytes → Bytes → Route

pub data Action : Type 0 where
  set_forwarding : Action
  write_rules : List Bytes → Action
  load_rules : Action
  enable_pf : Action
  remove_rules : Action
  restore_rules : Action
  add_route : Route → Action
  delete_route : Route → Action
  set_dns : Bytes → Bytes → Action

-- The exit codes, the raw output of the commands that are read (the DNS servers for a service), and
-- /etc/pf.conf. `networksetup` prints no carriage returns.
pub record Shell : Type 0 where
  pub exit : Action → ℕ
  pub default_route : Bytes
  pub hardware_ports : Bytes
  pub dns_servers : Bytes → Bytes
  pub pf_conf : Option Bytes
  pub writable : Bool

abbrev pub ok : Shell → Action → Bool
ok sh a = sh.exit a == 0

unfoldable pub get_default_gateway : Shell → GatewayInfo
unfolding trim_end value_after
get_default_gateway sh =
    let out = trim_end sh.default_route in
    record {
      gateway = value_after (codes "gateway:") out;
      device = value_after (codes "interface:") out;
    }

unfoldable pub get_network_service_for_device : Shell → Bytes → Bytes
unfolding lines find_service trim_end
get_network_service_for_device sh device =
    find_service device [] (lines (trim_end sh.hardware_ports))

unfoldable pub get_dns : Shell → Bytes → List Bytes
unfolding contains servers_of lines trim_end
get_dns sh service =
    let raw = trim_end (sh.dns_servers service) in
    if is_empty raw || contains (codes "aren't any") raw then [] else servers_of (lines raw)

abbrev pub nat_rule : Bytes → Bytes → Bytes
nat_rule iface source =
    codes "nat on "
    ++ (iface ++ (codes " from " ++ (source ++ (codes " to any -> (" ++ (iface ++ codes ")")))))

abbrev pub pass_in : Bytes → Bytes
pass_in tun_name = codes "pass in quick on " ++ (tun_name ++ codes " all")

abbrev pub pass_out : Bytes → Bytes
pass_out iface = codes "pass out quick on " ++ (iface ++ codes " all")

abbrev pub refused : {S : Type 0} → S → List Action → Outcome Action S
refused s acts = record { result = false; state = s; actions = acts }

-- Behind the file: the rules are written and loaded, and the temporary file is removed either way.
abbrev pub load_pf : Shell → ServerState → ServerState → List Bytes → Outcome Action ServerState
load_pf sh s new rules =
    if ok sh load_rules
    then record {
      result = true;
      state = new;
      actions = set_forwarding ∷ write_rules rules ∷ load_rules ∷ enable_pf ∷ remove_rules ∷ [];
    }
    else refused s (set_forwarding ∷ write_rules rules ∷ load_rules ∷ remove_rules ∷ [])

abbrev pub with_conf : Shell → ServerState → ServerState → Option Bytes → Outcome Action ServerState
with_conf sh s new none = refused s (set_forwarding ∷ [])
with_conf sh s new (some conf) =
    let rules =
      pf_rules (nat_rule new.iface new.source) (pass_in new.tun_name) (pass_out new.iface)
        (lines conf) in
    if not sh.writable then refused s (set_forwarding ∷ []) else load_pf sh s new rules

unfoldable pub enable_server_forwarding :
    Shell → ServerState → Bytes → Bytes → Bytes → Outcome Action ServerState
unfolding get_default_gateway pf_rules lines
enable_server_forwarding sh s tun_name_arg subnet_arg out_iface_arg =
    let iface = or_else out_iface_arg (get_default_gateway sh).device in
    let new =
      active_server iface (or_else subnet_arg (codes "10.0.0.0/24"))
        (or_else tun_name_arg (codes "utun0")) in
    if is_empty iface
    then refused s []
    else if not (ok sh set_forwarding)
    then refused s (set_forwarding ∷ [])
    else with_conf sh s new sh.pf_conf

unfoldable pub disable_server_forwarding : ServerState → ServerState × List Action
disable_server_forwarding s = if not s.active then (s, []) else (no_server, restore_rules ∷ [])

-- The client's state once the gateway is known and the host route was tried.
abbrev pub active_client : ClientState → Bytes → GatewayInfo → Bytes → ClientState
active_client c tun_name gw remote_host = record c {
  active = true;
  tun_name = tun_name;
  gateway = gw.gateway;
  remote_hosts = c.remote_hosts ++ (remote_host ∷ []);
}

abbrev pub low_half : Bytes → Action
low_half tun = add_route (net (codes "0.0.0.0/1") tun)

abbrev pub high_half : Bytes → Action
high_half tun = add_route (net (codes "128.0.0.0/1") tun)

abbrev pub half_routes6 : Bytes → List Action
half_routes6 tun =
    add_route (net6 (codes "::/1") tun) ∷ add_route (net6 (codes "8000::/1") tun) ∷ []

-- The DNS part, where the device has a service.
abbrev pub tunnel_dns : Shell → ClientState → Bytes → ClientState × List Action
tunnel_dns sh c service = if is_empty service then (c, []) else (
  record c { network_service = service; saved_dns = get_dns sh service },
  set_dns service (codes "1.1.1.1 8.8.8.8") ∷ [],
)

abbrev pub tunnel_on : List Action → ClientState × List Action → Outcome Action ClientState
tunnel_on before (c, dns) = record { result = true; state = c; actions = before ++ dns }

-- Behind the host route: the halves, each of which may end the call.
abbrev pub with_halves : Shell → ClientState → Bytes → Action → Outcome Action ClientState
with_halves sh c device exempt =
    let tun = c.tun_name in
    let routes = exempt ∷ low_half tun ∷ high_half tun ∷ half_routes6 tun in
    if not (ok sh (low_half tun))
    then refused c (exempt ∷ low_half tun ∷ [])
    else if not (ok sh (high_half tun))
    then refused c (exempt ∷ low_half tun ∷ high_half tun ∷ [])
    else tunnel_on routes (tunnel_dns sh c (get_network_service_for_device sh device))

unfoldable pub enable_client_full_tunnel :
    Shell → ClientState → Bytes → Bytes → Outcome Action ClientState
unfolding get_default_gateway get_network_service_for_device get_dns
enable_client_full_tunnel sh c tun_name_arg remote_host =
    let gw = get_default_gateway sh in
    let new = active_client c (or_else tun_name_arg (codes "utun0")) gw remote_host in
    if is_empty remote_host
    then refused c []
    else if not (is_valid gw)
    then refused c []
    else with_halves sh new gw.device (add_route (host remote_host gw.gateway))

unfoldable pub add_host_exemption : Shell → ClientState → Bytes → ClientState × List Action
unfolding member
add_host_exemption sh c remote_host =
    let route = add_route (host remote_host c.gateway) in
    if not c.active || is_empty remote_host || is_empty c.gateway
    then (c, [])
    else if member remote_host c.remote_hosts
    then (c, [])
    else if ok sh route
    then (record c { remote_hosts = c.remote_hosts ++ (remote_host ∷ []) }, route ∷ [])
    else (c, route ∷ [])

-- `if (!args.empty()) args += " "; args += d;` for each saved server
unfoldable pub joined : Bytes → List Bytes → Bytes
joined args [] = args
joined args (d ∷ ds) = joined (if is_empty args then d else args ++ (b' ' ∷ d)) ds

unfoldable pub dns_args : List Bytes → Bytes
unfolding joined
dns_args saved = joined (if is_empty saved then codes "Empty" else []) saved

abbrev pub delete_host : Bytes → Bytes → Action
delete_host gateway h = delete_route (host h gateway)

abbrev pub half_deletes : Bytes → List Action
half_deletes tun =
    delete_route (net (codes "128.0.0.0/1") tun)
    ∷ delete_route (net (codes "0.0.0.0/1") tun)
    ∷ delete_route (net6 (codes "::/1") tun)
    ∷ delete_route (net6 (codes "8000::/1") tun)
    ∷ []

abbrev pub restore_dns : ClientState → List Action
restore_dns c =
    if is_empty c.network_service then [] else set_dns c.network_service (dns_args c.saved_dns) ∷ []

unfoldable pub disable_client_full_tunnel : ClientState → ClientState × List Action
unfolding dns_args
disable_client_full_tunnel c = if not c.active then (c, []) else (
  no_client,
  half_deletes c.tun_name ++ (map (delete_host c.gateway) c.remote_hosts ++ restore_dns c),
)
