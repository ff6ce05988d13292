-- ===== src/Commands/Inspect.antt =====
-- cpp/commands.cpp: what `inspect` and `genkey` print, and how `check` starts. A line is its bytes; an
-- exit has a code and the lines on the standard output.
use nospoon.Base.{
  false, true, ltb, ◌==◌, ◌≡◌, ℕ, Bool, not, List, [], ◌∷◌, ◌++◌, Option, none, some, if◌then◌else◌,
  Bytes, codes, same, is_empty, length,
}
use nospoon.Base.Dict.{Dict}
use nospoon.Base.Int.{decimal_int}
use nospoon.Base.Numerals.{decimal}
use nospoon.Config.{Config, Files, Loaded, loaded, exits, load_config}
use nospoon.Config.Hex.{hex_to_bytes}
use nospoon.Commands.Clients.{Keys, pubkey_of}
use nospoon.Commands.Genkey.{genkey_seed}
use nospoon.ConnectError.{dash}

abbrev pub Printed : Type 0
Printed = ℕ × List Bytes

abbrev pub line_if : Bool → Bytes → List Bytes
line_if b line = if b then line ∷ [] else []

-- `std::string`'s order, by bytes.
unfoldable pub before : Bytes → Bytes → Bool
before s [] = false
before [] (d ∷ t) = true
before (c ∷ s) (d ∷ t) = let rest = before s t in if c == d then rest else ltb c d

unfoldable pub insert_by_key : Bytes × Bytes → Dict Bytes → Dict Bytes
unfolding before
insert_by_key p [] = p ∷ []
insert_by_key p (q ∷ m) =
    let rest = insert_by_key p m in if before q.0 p.0 then q ∷ rest else p ∷ q ∷ m

-- The order in which a `std::map` is walked.
unfoldable pub by_key : Dict Bytes → Dict Bytes
unfolding insert_by_key
by_key [] = []
by_key (p ∷ m) = insert_by_key p (by_key m)

unfoldable pub peer_lines : Dict Bytes → List Bytes
peer_lines [] = []
peer_lines ((pk, ip) ∷ peers) =
    (codes "             " ++ (ip ++ (codes "  " ++ pk))) ∷ peer_lines peers

abbrev pub identity_lines : Keys → Config → List Bytes
identity_lines keys cfg =
    if is_empty cfg.seed
    then (codes "identity:    none" ++ (dash ++ codes "a random key is generated at each start"))
      ∷ []
    else (codes "seed:        "
        ++ (if is_empty cfg.seed_file
            then codes "inline in config"
            else codes "from " ++ cfg.seed_file))
      ∷ (codes "public_key:  " ++ pubkey_of keys cfg.seed)
      ∷ []

abbrev pub server_line : Config → Bytes
server_line cfg =
    codes "server:      "
    ++ (if is_empty cfg.server_key then codes "(missing!)" else cfg.server_key)

abbrev pub mode_lines : Config → List Bytes
mode_lines cfg =
    if same cfg.mode (codes "client")
    then server_line cfg ∷ []
    else if is_empty cfg.peers
    then (codes "peers:       none" ++ (dash ++ codes "OPEN MODE, any key may connect")) ∷ []
    else (codes "peers:       " ++ decimal (length cfg.peers)) ∷ peer_lines (by_key cfg.peers)

abbrev pub config_lines : Keys → Bytes → Config → List Bytes
config_lines keys path cfg =
    (codes "config:      " ++ path)
    ∷ (codes "mode:        " ++ cfg.mode)
    ∷ (codes "ip:          " ++ cfg.ip)
    ∷ (line_if (not (is_empty cfg.ipv6)) (codes "ipv6:        " ++ cfg.ipv6)
        ++ ((codes "mtu:         " ++ decimal_int cfg.mtu)
            ∷ (identity_lines keys cfg
                ++ (mode_lines cfg
                    ++ ((codes "full_tunnel: "
                          ++ (if cfg.full_tunnel then codes "yes" else codes "no"))
                        ∷ line_if (not (is_empty cfg.out_iface))
                            (codes "out_iface:   " ++ cfg.out_iface))))))

abbrev pub inspected : Keys → Bytes → Loaded Config → Printed
inspected keys path (exits message) = (1, [])
inspected keys path (loaded cfg) = (0, config_lines keys path cfg)

unfoldable pub cmd_inspect : Keys → Files → List Bytes → Printed
unfolding load_config pubkey_of decimal decimal_int peer_lines by_key same
cmd_inspect keys files [] = (1, [])
cmd_inspect keys files (path ∷ _) = inspected keys path (load_config files path)

abbrev pub key_lines : Keys → Loaded Bytes → Printed
key_lines keys (exits message) = (1, [])
key_lines keys (loaded seed) =
    (0, (codes "seed:       " ++ seed) ∷ (codes "public_key: " ++ pubkey_of keys seed) ∷ [])

abbrev pub first : List Bytes → Option Bytes
first [] = none
first (a ∷ _) = some a

unfoldable pub cmd_genkey : Keys → Files → Bytes → List Bytes → Printed
unfolding genkey_seed pubkey_of
cmd_genkey keys files drawn args = key_lines keys (genkey_seed files (first args) drawn)

-- `check` ends at once, or it starts its loop with the server to dial, if one is given, and its
-- identity, if it has one.
pub data CheckStart : Type 0 where
  refused : CheckStart
  started : Option Bytes → Option Bytes → CheckStart

abbrev pub with_identity : Option Bytes → Option Bytes → CheckStart
with_identity server none = refused
with_identity server (some seed) = started server (some seed)

abbrev pub with_server : Bytes → Option Bytes → CheckStart
with_server seed_hex none = refused
with_server seed_hex (some server_pk) =
    if is_empty seed_hex
    then started (some server_pk) none
    else with_identity (some server_pk) (hex_to_bytes seed_hex 32)

abbrev pub check_config : Loaded Config → CheckStart
check_config (exits message) = refused
check_config (loaded cfg) =
    if not (same cfg.mode (codes "client"))
    then refused
    else with_server cfg.seed (hex_to_bytes cfg.server_key 32)

unfoldable pub start_check : Files → List Bytes → CheckStart
unfolding load_config hex_to_bytes same
start_check files [] = started none none
start_check files (path ∷ _) = check_config (load_config files path)

-- What `inspect` prints of two seeds with the same public key is the same: the seed itself is not
-- shown.
pub config_lines_secret :
    (keys : Keys) (path : Bytes) (cfg : Config) (s t : Bytes)
    → is_empty s ≡ is_empty t
    → pubkey_of keys s ≡ pubkey_of keys t
    → config_lines keys path (record cfg { seed = s })
      ≡ config_lines keys path (record cfg { seed = t })
config_lines_secret keys path cfg s t h k = rw (h, k)
