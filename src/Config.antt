-- ===== src/Config.antt =====
-- cpp/config.hpp: the configuration and `load_config`. The file system is the parameter `files`,
-- from a path to the contents of what can be opened; `exits` is `std::exit(1)` with its message.
pub mod Strip
pub mod Json
pub mod Text
pub mod Key
pub mod Plain
pub mod Pairs
pub mod Block
pub mod Number
pub mod Hex
pub mod Checked
mod Tests
use nospoon.Base.{
  ℕ, Bool, true, false, not, List, [], ◌∷◌, ◌++◌, Option, none, some, ◌==◌, if◌then◌else◌, take,
  Bytes, codes, find, is_empty, is_space,
}
use nospoon.Base.Dict.{Dict}
use nospoon.Base.Int.{ℤ, pos}
use nospoon.Validation
use nospoon.Validation.{validate_hex64, validate_cidr, validate_cidr_v6, validate_mtu}
use Strip.{strip_comments}
use Json.{json_string, json_int, json_bool, json_peers}

pub record Config : Type 0 where
  pub mode : Bytes
  pub ip : Bytes
  pub ipv6 : Bytes
  pub seed : Bytes
  pub seed_file : Bytes
  pub server_key : Bytes
  pub mtu : ℤ
  pub peers : Dict Bytes
  pub full_tunnel : Bool
  pub out_iface : Bytes

abbrev before_slash : Bytes → Option ℕ → Bytes
before_slash ip none = ip
before_slash ip (some slash) = take slash ip

-- `ip_address`
unfoldable pub ip_address : Config → Bytes
unfolding find
ip_address cfg = before_slash cfg.ip (find b'/' cfg.ip)

pub data Loaded {ℓ} (A : Type ℓ) : Type ℓ where
  loaded : A → Loaded A
  exits : Bytes → Loaded A

infixl 5 ◌>>=◌ ◌>>◌
abbrev pub ◌>>=◌ {ℓ κ} : {A : Type ℓ} {B : Type κ} → Loaded A → (A → Loaded B) → Loaded B
loaded a >>= f = f a
exits message >>= f = exits message

abbrev pub ◌>>◌ {ℓ} : {B : Type ℓ} → Loaded (Unit {0}) → Loaded B → Loaded B
m >> k = m >>= λ _. k

abbrev pub Files : Type 0
Files = Bytes → Option Bytes

abbrev pub opened : Option Bytes → Bytes → Loaded Bytes
opened none message = exits message
opened (some body) message = loaded body

unfoldable pub require_ok : Validation.Result → Loaded (Unit {0})
require_ok r = if r.valid then loaded tt else exits (codes "Error: " ++ r.error ++ codes "\n")

-- The check of a field that may be left out.
abbrev pub if_given : Bytes → Loaded (Unit {0}) → Loaded (Unit {0})
if_given field check = if is_empty field then loaded tt else check

abbrev pub require_given : Bytes → Bytes → Loaded (Unit {0})
require_given field message = if is_empty field then exits message else loaded tt

-- `while (!s.empty() && blank(s.back())) s.pop_back()`
unfoldable pub trim_end : Bytes → Bytes
trim_end [] = []
trim_end (c ∷ s) = elim (trim_end s) [ [] ↦ if is_space c then [] else c ∷ [] | x ∷ r ↦ c ∷ x ∷ r ]

-- The fields as they stand in the text.
unfoldable pub parse_fields : Bytes → Config
unfolding json_string json_int json_bool json_peers
parse_fields json = record {
  mode = json_string json (codes "mode");
  ip = json_string json (codes "ip");
  ipv6 = json_string json (codes "ipv6");
  seed = json_string json (codes "seed");
  seed_file = json_string json (codes "seedFile");
  server_key = json_string json (codes "server");
  mtu = json_int json (codes "mtu") (pos 1400);
  peers = json_peers json;
  full_tunnel = json_bool json (codes "fullTunnel") false;
  out_iface = json_string json (codes "outInterface");
}

unfoldable pub check_fields : Config → Loaded (Unit {0})
check_fields cfg = do
  require_given cfg.mode (codes "Error: config must have \"mode\": \"server\" or \"client\"\n")
  require_given cfg.ip (codes "Error: config must have \"ip\": \"x.x.x.x/y\"\n")
  require_ok (validate_cidr cfg.ip (codes "ip"))
  if_given cfg.ipv6 (require_ok (validate_cidr_v6 cfg.ipv6 (codes "ipv6")))
  if_given cfg.seed (require_ok (validate_hex64 cfg.seed (codes "seed")))
  if_given cfg.server_key (require_ok (validate_hex64 cfg.server_key (codes "server")))
  require_ok (validate_mtu cfg.mtu)

-- The seed of a file, when the text names one and holds no seed.
unfoldable pub load_seed : Files → Config → Loaded Config
load_seed files cfg =
    if is_empty cfg.seed
    then (if is_empty cfg.seed_file then loaded cfg else (do
      body ←
          opened (files cfg.seed_file)
            (codes "Error: cannot open seedFile " ++ cfg.seed_file ++ codes "\n")
      let seed = trim_end body
      require_ok (validate_hex64 seed (codes "seedFile contents"))
      loaded (record cfg { seed = seed })))
    else loaded cfg

unfoldable pub load_config : Files → Bytes → Loaded Config
load_config files path = do
  body ← opened (files path) (codes "Error: cannot open " ++ path ++ codes "\n")
  let cfg = parse_fields (strip_comments body)
  check_fields cfg
  load_seed files cfg
