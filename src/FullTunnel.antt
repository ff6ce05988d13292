-- ===== src/FullTunnel.antt =====
-- cpp/full_tunnel_linux.cpp: the routes, rules and DNS settings of a full tunnel. The state is the
-- file's two globals; the commands that a call runs are listed in order, but for the two whose output
-- is read. How the commands end, what they print and what the files hold is a parameter, since they
-- are other programs.
pub mod Rules
pub mod Routes
pub mod Undo
pub mod Ledger
pub mod MacosText
pub mod Macos
pub mod Windows
mod Tests
use nospoon.Base.{
  ℕ, ◌+◌, Bool, true, false, not, ◌&&◌, ◌||◌, List, [], ◌∷◌, ◌++◌, Option, none, some, map, ◌==◌,
  if◌then◌else◌, Bytes, codes, is_empty, same, starts_with, drop, length,
}
use nospoon.Base.Int.{is_c_space}
use nospoon.Config.{trim_end}

pub record ServerState : Type 0 where
  pub active : Bool
  pub iface : Bytes
  pub source : Bytes
  pub tun_name : Bytes

pub record ClientState : Type 0 where
  pub active : Bool
  pub tun_name : Bytes
  pub gateway : Bytes
  pub gateway_device : Bytes
  pub remote_hosts : List Bytes
  pub saved_rp_filter : Bytes
  pub saved_resolv_conf : Bytes
  pub dns_method : Bytes

abbrev pub no_server : ServerState
no_server = record { active = false; iface = []; source = []; tun_name = [] }

abbrev pub no_client : ClientState
no_client = record {
  active = false;
  tun_name = [];
  gateway = [];
  gateway_device = [];
  remote_hosts = [];
  saved_rp_filter = [];
  saved_resolv_conf = [];
  dns_method = [];
}

-- A rule of iptables, as it stands behind -A or -D.
pub data Rule : Type 0 where
  masquerade : Bytes → Bytes → Rule
  forward_out : Bytes → Bytes → Rule
  forward_back : Bytes → Bytes → Rule

-- A route of `ip route`, as it stands behind add or del. A host route is deleted without its device.
pub data Route : Type 0 where
  net : Bytes → Bytes → Route
  net6 : Bytes → Bytes → Route
  host : Bytes → Bytes → Route

pub data Action : Type 0 where
  set_forwarding : Action
  append_rule : Rule → Action
  delete_rule : Rule → Action
  set_rp_filter : Bytes → Action
  add_route : Route → Bytes → Action
  delete_route : Route → Action
  which_resolvectl : Action
  resolvectl_dns : Bytes → Action
  resolvectl_domain : Bytes → Action
  resolvectl_revert : Bytes → Action
  write_resolv_conf : Bytes → Action

-- The exit codes, the raw output of the two commands that are read, and /etc/resolv.conf.
pub record Shell : Type 0 where
  pub exit : Action → ℕ
  pub default_route : Bytes
  pub rp_filter : Bytes
  pub resolv_conf : Option Bytes
  pub writable : Bool

-- `run` of a command gave 0.
abbrev pub ok : Shell → Action → Bool
ok sh a = sh.exit a == 0

unfoldable pub skip_spaces : Bytes → Bytes
skip_spaces [] = []
skip_spaces (c ∷ s) = if is_c_space c then skip_spaces s else c ∷ s

unfoldable pub leading_word : Bytes → Bytes
leading_word [] = []
leading_word (c ∷ s) = if is_c_space c then [] else c ∷ leading_word s

-- `word\s+(\S+)` at the front: the group, [] where it does not match.
unfoldable pub word_here : Bytes → Bytes → Bytes
unfolding starts_with skip_spaces leading_word
word_here word s =
    let rest = drop (length word) s in
    let value = skip_spaces rest in
    if starts_with word s && not (length value == length rest) then leading_word value else []

-- `regex_search`: the first place that matches.
unfoldable pub word_after : Bytes → Bytes → Bytes
unfolding word_here
word_after word [] = []
word_after word (c ∷ s) =
    let found = word_here word (c ∷ s) in
    let later = word_after word s in if is_empty found then later else found

pub record GatewayInfo : Type 0 where
  pub gateway : Bytes
  pub device : Bytes

abbrev pub is_valid : GatewayInfo → Bool
is_valid gw = not (is_empty gw.gateway) && not (is_empty gw.device)

unfoldable pub get_default_gateway : Shell → GatewayInfo
unfolding trim_end word_after
get_default_gateway sh =
    let line = trim_end sh.default_route in
    record { gateway = word_after (codes "via") line; device = word_after (codes "dev") line }

abbrev pub or_else : Bytes → Bytes → Bytes
or_else s t = if is_empty s then t else s

-- `if (!run_strict(c)) return false;` for one command after the other: what was run, and whether the
-- last one was reached and ended well.
unfoldable pub run_all : Shell → List Action → Bool × List Action
run_all sh [] = (true, [])
run_all sh (a ∷ later) =
    let (done, rest) = run_all sh later in if ok sh a then (done, a ∷ rest) else (false, a ∷ [])

-- What a call returns, leaves and runs.
pub record Ran {ℓ} (S : Type ℓ) : Type ℓ where
  pub result : Bool
  pub state : S
  pub actions : List Action

abbrev pub rules : ServerState → List Rule
rules s =
    masquerade s.source s.iface
    ∷ forward_out s.tun_name s.iface
    ∷ forward_back s.iface s.tun_name
    ∷ []

abbrev pub active_server : Bytes → Bytes → Bytes → ServerState
active_server iface source tun_name = record {
  active = true;
  iface = iface;
  source = source;
  tun_name = tun_name;
}

abbrev pub if_done : ServerState → ServerState → Bool × List Action → Ran ServerState
if_done new old (done, actions) = record {
  result = done;
  state = if done then new else old;
  actions = actions;
}

unfoldable pub enable_server_forwarding :
    Shell → ServerState → Bytes → Bytes → Bytes → Ran ServerState
unfolding get_default_gateway run_all
enable_server_forwarding sh s tun_name_arg subnet_arg out_iface_arg =
    let iface = or_else out_iface_arg (get_default_gateway sh).device in
    let new =
      active_server iface (or_else subnet_arg (codes "10.0.0.0/24"))
        (or_else tun_name_arg (codes "tun0")) in
    let ran = if_done new s (run_all sh (set_forwarding ∷ map append_rule (rules new))) in
    if is_empty iface then record { result = false; state = s; actions = [] } else ran

unfoldable pub disable_server_forwarding : ServerState → ServerState × List Action
disable_server_forwarding s =
    if not s.active then (s, []) else (no_server, map delete_rule (rules s))

-- The client's state once the gateway is known.
abbrev pub active_client : Shell → ClientState → Bytes → GatewayInfo → Bytes → ClientState
active_client sh c tun_name gw remote_host = record c {
  active = true;
  tun_name = tun_name;
  gateway = gw.gateway;
  gateway_device = gw.device;
  saved_rp_filter = trim_end sh.rp_filter;
  remote_hosts = c.remote_hosts ++ (remote_host ∷ []);
}

abbrev pub half_routes : Bytes → List Action
half_routes tun =
    add_route (net (codes "0.0.0.0/1") tun) tun ∷ add_route (net (codes "128.0.0.0/1") tun) tun ∷ []

abbrev pub half_routes6 : Bytes → List Action
half_routes6 tun =
    add_route (net6 (codes "::/1") tun) tun ∷ add_route (net6 (codes "8000::/1") tun) tun ∷ []

abbrev pub tunnel_dns : Bytes
tunnel_dns = codes "# nospoon full-tunnel DNS\nnameserver 1.1.1.1\nnameserver 8.8.8.8\n"

abbrev pub read_or : Option Bytes → Bytes → Bytes
read_or none old = old
read_or (some s) old = s

abbrev pub by_resolvectl : ClientState → Bytes → ClientState × List Action
by_resolvectl c tun = (
  record c { dns_method = codes "resolvectl" },
  which_resolvectl ∷ resolvectl_dns tun ∷ resolvectl_domain tun ∷ [],
)

abbrev pub by_file : Shell → ClientState → ClientState × List Action
by_file sh c = (
  record c {
    dns_method = codes "resolvconf";
    saved_resolv_conf = read_or sh.resolv_conf c.saved_resolv_conf;
  },
  which_resolvectl ∷ (if sh.writable then write_resolv_conf tunnel_dns ∷ [] else []),
)

-- The DNS part: by resolvectl where there is one, else by the file.
abbrev pub set_dns : Shell → ClientState → Bytes → ClientState × List Action
set_dns sh c tun = if ok sh which_resolvectl then by_resolvectl c tun else by_file sh c

abbrev pub tunnel_on :
    Shell → ClientState → Bytes → List Action → Bool × List Action → Ran ClientState
tunnel_on sh c tun before (false, ran) = record {
  result = false;
  state = c;
  actions = before ++ ran;
}
tunnel_on sh c tun before (true, ran) =
    let (c', dns) = set_dns sh c tun in
    record { result = true; state = c'; actions = (before ++ (ran ++ half_routes6 tun)) ++ dns }

abbrev pub refused : ClientState → Ran ClientState
refused c = record { result = false; state = c; actions = [] }

unfoldable pub enable_client_full_tunnel : Shell → ClientState → Bytes → Bytes → Ran ClientState
unfolding get_default_gateway run_all
enable_client_full_tunnel sh c tun_name_arg remote_host =
    let tun = or_else tun_name_arg (codes "tun0") in
    let gw = get_default_gateway sh in
    let ran : Ran ClientState =
      tunnel_on sh (active_client sh c tun gw remote_host) tun
        (set_rp_filter (codes "2") ∷ add_route (host remote_host gw.gateway) gw.device ∷ [])
        (run_all sh (half_routes tun)) in
    if is_empty remote_host then refused c else if not (is_valid gw) then refused c else ran

unfoldable pub member : Bytes → List Bytes → Bool
member h [] = false
member h (x ∷ xs) = same x h || member h xs

unfoldable pub add_host_exemption : Shell → ClientState → Bytes → ClientState × List Action
unfolding member
add_host_exemption sh c remote_host =
    let route = add_route (host remote_host c.gateway) c.gateway_device in
    if not c.active || is_empty remote_host || is_empty c.gateway || is_empty c.gateway_device
    then (c, [])
    else if member remote_host c.remote_hosts
    then (c, [])
    else if ok sh route
    then (record c { remote_hosts = c.remote_hosts ++ (remote_host ∷ []) }, route ∷ [])
    else (c, route ∷ [])

abbrev pub restore_dns : Shell → ClientState → List Action
restore_dns sh c =
    if same c.dns_method (codes "resolvectl")
    then resolvectl_revert c.tun_name ∷ []
    else if same c.dns_method (codes "resolvconf")
        && not (is_empty c.saved_resolv_conf)
        && sh.writable
    then write_resolv_conf c.saved_resolv_conf ∷ []
    else []

abbrev pub delete_host : Bytes → Bytes → Action
delete_host gateway h = delete_route (host h gateway)

abbrev pub half_deletes : Bytes → List Action
half_deletes tun =
    delete_route (net (codes "128.0.0.0/1") tun)
    ∷ delete_route (net (codes "0.0.0.0/1") tun)
    ∷ delete_route (net6 (codes "::/1") tun)
    ∷ delete_route (net6 (codes "8000::/1") tun)
    ∷ []

unfoldable pub disable_client_full_tunnel : Shell → ClientState → ClientState × List Action
disable_client_full_tunnel sh c = if not c.active then (c, []) else (
  no_client,
  half_deletes c.tun_name
      ++ (map (delete_host c.gateway) c.remote_hosts
          ++ ((if is_empty c.saved_rp_filter then [] else set_rp_filter c.saved_rp_filter ∷ [])
              ++ restore_dns sh c)),
)
