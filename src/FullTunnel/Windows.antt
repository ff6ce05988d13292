-- ===== src/FullTunnel/Windows.antt =====
-- cpp/full_tunnel_windows.cpp: the same calls on Windows, by `route`, `netsh` and PowerShell. The state
-- is the file's two globals, the commands that a call runs are listed in order.
pub mod Nat
pub mod Undo
mod Tests
use nospoon.Base.{
  ℕ, suc, ◌+◌, Bool, true, false, not, ◌&&◌, ◌||◌, List, [], ◌∷◌, ◌++◌, Option, none, some, map,
  ◌==◌, if◌then◌else◌, Bytes, codes, is_empty, find, take, drop,
}
use nospoon.Config.{trim_end}
use nospoon.FullTunnel.{or_else, member}
use nospoon.FullTunnel.Ledger.{Outcome}

pub record ClientState : Type 0 where
  pub active : Bool
  pub tun_name : Bytes
  pub tun_if_index : Bytes
  pub gateway : Bytes
  pub gateway_if_index : Bytes
  pub remote_hosts : List Bytes
  pub nrpt_rule_name : Bytes

pub record ServerState : Type 0 where
  pub active : Bool
  pub tun_name : Bytes
  pub out_iface : Bytes
  pub nat_via_netnat : Bool

abbrev pub no_client : ClientState
no_client = record {
  active = false;
  tun_name = [];
  tun_if_index = [];
  gateway = [];
  gateway_if_index = [];
  remote_hosts = [];
  nrpt_rule_name = [];
}

abbrev pub no_server : ServerState
no_server = record { active = false; tun_name = []; out_iface = []; nat_via_netnat = false }

-- A half of IPv4 and its interface, a half of IPv6 and its interface, a host by its gateway and
-- interface. The half of IPv4 and the host are deleted by their destination only.
pub data Route : Type 0 where
  net : Bytes → Bytes → Route
  net6 : Bytes → Bytes → Route
  host : Bytes → Bytes → Bytes → Route

pub data Action : Type 0 where
  enable_forwarding : Bytes → Action
  disable_forwarding : Bytes → Action
  script : Bytes → Action
  add_route : Route → Action
  delete_net : Bytes → Action
  delete_net6 : Bytes → Bytes → Action
  delete_host : Bytes → Action
  flush_dns : Action

-- The exit codes, what a script prints, and whether the temporary file for a script can be written.
pub record Shell : Type 0 where
  pub exit : Action → ℕ
  pub output : Bytes → Bytes
  pub temp_file : Bytes → Bool

abbrev pub ok : Shell → Action → Bool
ok sh a = sh.exit a == 0

-- What was run: nothing where the script cannot be written.
abbrev pub run_script : Shell → Bytes → List Action
run_script sh text = if sh.temp_file text then script text ∷ [] else []

-- `run_ps(script) == 0`
abbrev pub run_ps : Shell → Bytes → Bool
run_ps sh text = sh.temp_file text && ok sh (script text)

unfoldable pub ps_capture : Shell → Bytes → Bytes
unfolding trim_end
ps_capture sh text = if sh.temp_file text then trim_end (sh.output text) else []

abbrev pub gateway_script : Bytes
gateway_script =
    codes
      "$r = Get-NetRoute -DestinationPrefix '0.0.0.0/0' | Select-Object -First 1; \"$($r.NextHop)|$($r.InterfaceIndex)\""

abbrev pub index_script : Bytes → Bytes
index_script tun_name = codes "(Get-NetAdapter -Name '" ++ (tun_name ++ codes "').ifIndex")

-- The two parts of "a|b", none for false.
abbrev pub parts_at : Bytes → Option ℕ → Option (Bytes × Bytes)
parts_at s none = none
parts_at s (some p) =
    let a = take p s in
    let b = drop (suc p) s in if is_empty a || is_empty b then none else some (a, b)

unfoldable pub split_pipe : Bytes → Option (Bytes × Bytes)
unfolding find
split_pipe s = parts_at s (find b'|' s)

abbrev pub nat_script : Bytes → Bytes
nat_script subnet =
    codes "New-NetNat -Name 'NospoonNAT' -InternalIPInterfaceAddressPrefix '"
    ++ (subnet ++ codes "'")

abbrev pub remove_nat_script : Bytes
remove_nat_script = codes "Remove-NetNat -Name 'NospoonNAT' -Confirm:$false"

abbrev pub refused : {S : Type 0} → S → List Action → Outcome Action S
refused s acts = record { result = false; state = s; actions = acts }

-- Behind the interfaces: NAT is tried, and the call succeeds either way.
abbrev pub try_nat : Shell → Bytes → Bytes → Bytes → List Action → Outcome Action ServerState
try_nat sh tun_name subnet out_iface acts = record {
  result = true;
  state = record {
    active = true;
    tun_name = tun_name;
    out_iface = out_iface;
    nat_via_netnat = run_ps sh (nat_script subnet);
  };
  actions = acts ++ run_script sh (nat_script subnet);
}

unfoldable pub enable_server_forwarding :
    Shell → ServerState → Bytes → Bytes → Bytes → Outcome Action ServerState
enable_server_forwarding sh s tun_name_arg subnet_arg out_iface =
    let tun_name = or_else tun_name_arg (codes "Nospoon") in
    let subnet = or_else subnet_arg (codes "10.0.0.0/24") in
    let on_tun = enable_forwarding tun_name in
    let on_out = enable_forwarding out_iface in
    if not (ok sh on_tun)
    then refused s (on_tun ∷ [])
    else if is_empty out_iface
    then try_nat sh tun_name subnet out_iface (on_tun ∷ [])
    else if not (ok sh on_out)
    then refused s (on_tun ∷ on_out ∷ [])
    else try_nat sh tun_name subnet out_iface (on_tun ∷ on_out ∷ [])

unfoldable pub disable_server_forwarding : Shell → ServerState → ServerState × List Action
disable_server_forwarding sh s = if not s.active then (s, []) else (
  no_server,
  (if s.nat_via_netnat then run_script sh remove_nat_script else [])
      ++ (disable_forwarding s.tun_name
          ∷ (if is_empty s.out_iface then [] else disable_forwarding s.out_iface ∷ [])),
)

abbrev pub active_client : ClientState → Bytes → Bytes → Bytes → Bytes → ClientState
active_client c tun_name tun_idx gw_ip gw_idx = record c {
  active = true;
  tun_name = tun_name;
  tun_if_index = tun_idx;
  gateway = gw_ip;
  gateway_if_index = gw_idx;
}

abbrev pub exempted : ClientState → Bytes → ClientState
exempted c remote_host = record c { remote_hosts = c.remote_hosts ++ (remote_host ∷ []) }

abbrev pub low_half : Bytes → Action
low_half idx = add_route (net (codes "0.0.0.0") idx)

abbrev pub high_half : Bytes → Action
high_half idx = add_route (net (codes "128.0.0.0") idx)

abbrev pub half_routes6 : Bytes → List Action
half_routes6 idx =
    add_route (net6 (codes "::/1") idx) ∷ add_route (net6 (codes "8000::/1") idx) ∷ []

abbrev pub nrpt_script : Bytes
nrpt_script =
    codes "(Add-DnsClientNrptRule -Namespace '.' -NameServers '1.1.1.1','8.8.8.8' -PassThru).Name"

-- Behind the halves: IPv6, and the rule for DNS, whose name is kept.
abbrev pub tunnel_on : Shell → ClientState → List Action → Outcome Action ClientState
tunnel_on sh c routes = record {
  result = true;
  state = record c { nrpt_rule_name = ps_capture sh nrpt_script };
  actions =
      routes ++ (half_routes6 c.tun_if_index ++ (run_script sh nrpt_script ++ (flush_dns ∷ [])));
}

-- From the host route on; a half that fails leaves what was done before it.
abbrev pub with_routes : Shell → ClientState → Bytes → Outcome Action ClientState
with_routes sh c remote_host =
    let exempt = add_route (host remote_host c.gateway c.gateway_if_index) in
    let idx = c.tun_if_index in
    let c' = exempted c remote_host in
    if not (ok sh exempt)
    then refused c (exempt ∷ [])
    else if not (ok sh (low_half idx))
    then refused c' (exempt ∷ low_half idx ∷ [])
    else if not (ok sh (high_half idx))
    then refused c' (exempt ∷ low_half idx ∷ high_half idx ∷ [])
    else tunnel_on sh c' (exempt ∷ low_half idx ∷ high_half idx ∷ [])

abbrev pub with_gateway :
    Shell → ClientState → Bytes → Bytes → Option (Bytes × Bytes) → Outcome Action ClientState
with_gateway sh c tun_name remote_host none = refused c []
with_gateway sh c tun_name remote_host (some (gw_ip, gw_idx)) =
    let tun_idx = ps_capture sh (index_script tun_name) in
    if is_empty tun_idx
    then refused c []
    else with_routes sh (active_client c tun_name tun_idx gw_ip gw_idx) remote_host

-- The scripts that only ask are not listed.
unfoldable pub enable_client_full_tunnel :
    Shell → ClientState → Bytes → Bytes → Outcome Action ClientState
unfolding ps_capture split_pipe
enable_client_full_tunnel sh c tun_name_arg remote_host =
    let tun_name = or_else tun_name_arg (codes "Nospoon") in
    let combined = ps_capture sh gateway_script in
    if is_empty remote_host
    then refused c []
    else if is_empty combined
    then refused c []
    else with_gateway sh c tun_name remote_host (split_pipe combined)

unfoldable pub add_host_exemption : Shell → ClientState → Bytes → ClientState × List Action
unfolding member
add_host_exemption sh c remote_host =
    let route = add_route (host remote_host c.gateway c.gateway_if_index) in
    if not c.active || is_empty remote_host
    then (c, [])
    else if member remote_host c.remote_hosts
    then (c, [])
    else if ok sh route
    then (exempted c remote_host, route ∷ [])
    else (c, route ∷ [])

abbrev pub remove_nrpt_script : Bytes → Bytes
remove_nrpt_script name = codes "Remove-DnsClientNrptRule -Name '" ++ (name ++ codes "' -Force")

abbrev pub net_deletes : List Action
net_deletes = delete_net (codes "0.0.0.0") ∷ delete_net (codes "128.0.0.0") ∷ []

abbrev pub net6_deletes : Bytes → List Action
net6_deletes idx =
    if is_empty idx
    then []
    else delete_net6 (codes "::/1") idx ∷ delete_net6 (codes "8000::/1") idx ∷ []

abbrev pub remove_rule : Shell → Bytes → List Action
remove_rule sh name = if is_empty name then [] else run_script sh (remove_nrpt_script name)

unfoldable pub disable_client_full_tunnel : Shell → ClientState → ClientState × List Action
disable_client_full_tunnel sh c = if not c.active then (c, []) else (
  no_client,
  net_deletes
      ++ (net6_deletes c.tun_if_index
          ++ (map delete_host c.remote_hosts
              ++ (remove_rule sh c.nrpt_rule_name ++ (flush_dns ∷ [])))),
)
