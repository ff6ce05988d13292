-- ===== src/Commands/Init.antt =====
-- cpp/commands.cpp: `init`, from its arguments to its exit code and the files it leaves.
use nospoon.Base.{
  ℕ, Bool, not, List, [], ◌∷◌, ◌++◌, Option, none, some, if◌then◌else◌, Bytes, codes, is_empty,
}
use nospoon.Base.Dict.{Dict}
use nospoon.Base.Int.{ℤ, pos, atoi, decimal_int}
use nospoon.Validation.{validate_mtu}
use nospoon.Config.Hex.{bytes_to_hex}
use nospoon.Commands.{Subnet, parse_subnet, cleared}
use nospoon.Commands.Clients.{Keys, Made, make_clients, pubkey_of}
use nospoon.Commands.Count.{parse_count, last_option}
use nospoon.Commands.Save.{System, Saved, write_secret, and_then}

-- Whether the directory is there behind `create_directories`, and whether its mode could be set.
pub record Directory : Type 0 where
  pub creates : Bytes → Bool
  pub chmods : Bytes → Bool

abbrev pub or_default : Option Bytes → Bytes → Bytes
or_default none s = s
or_default (some t) s = t

abbrev pub mtu_of : Option Bytes → ℤ
mtu_of none = pos 1400
mtu_of (some s) = atoi s

-- The subnet of the option, with .0 and .1 taken.
abbrev pub subnet_of : Bytes → Option Subnet
subnet_of subnet = cleared (parse_subnet subnet (record { base = []; prefix = pos 24; used = [] }))

-- The lines of the peers, with a comma behind all but the last.
unfoldable pub peer_lines : List (Bytes × Bytes) → Bytes
peer_lines [] = []
peer_lines ((pk, ip) ∷ peers) =
    codes "    \""
    ++ (pk
        ++ (codes "\": \""
            ++ (ip
                ++ ((if is_empty peers then codes "\"\n" else codes "\",\n") ++ peer_lines peers))))

unfoldable pub server_config : Bytes → ℤ → Bytes → ℤ → List (Bytes × Bytes) → Bytes
unfolding peer_lines decimal_int
server_config server_ip prefix seed mtu peers =
    codes "{\n  \"mode\": \"server\",\n  \"ip\": \""
    ++ (server_ip
        ++ (b'/'
            ∷ (decimal_int prefix
                ++ (codes "\",\n  \"seed\": \""
                    ++ (seed
                        ++ (codes "\",\n  \"mtu\": "
                            ++ (decimal_int mtu
                                ++ (codes
                                      ",\n  // Allowlist: only these public keys may connect. Remove the block\n  // to accept any key (open mode). `nospoon addclient` appends here.\n  \"peers\": {\n"
                                    ++ (peer_lines peers ++ codes "  }\n}\n")))))))))

abbrev pub server_path : Bytes → Bytes
server_path dir = dir ++ codes "/server.jsonc"

-- `drawn` are the random bytes of each call of `new_seed_hex`, the server's first.
module _ (sys : System) (directory : Directory) (keys : Keys) (drawn : ℕ → Bytes) where
  -- `if (!make_clients(...)) return 1;` and the rest.
  abbrev pub save_server : Bytes → Subnet → ℤ → Made → Saved ℕ
  save_server dir net mtu m =
      let server =
        server_config (net.base ++ codes ".1") net.prefix (bytes_to_hex (drawn 0)) mtu m.peers in
      if m.result
      then and_then (write_secret sys (server_path dir) server m.files) (λ files. (0, files))
      else (1, m.files)

  -- From the subnet on.
  abbrev pub in_subnet : Bytes → ℕ → ℤ → Dict Bytes → Option Subnet → Saved ℕ
  in_subnet dir n mtu files none = (1, files)
  in_subnet dir n mtu files (some net) =
      let server_pk = pubkey_of keys (bytes_to_hex (drawn 0)) in
      if not (directory.creates dir)
      then (1, files)
      else if not (directory.chmods dir)
      then (1, files)
      else save_server dir net mtu (make_clients sys keys dir server_pk net mtu drawn n 1 1 files)

  abbrev pub counted : Bytes → Bytes → ℤ → Dict Bytes → Option ℕ → Saved ℕ
  counted dir subnet mtu files none = (1, files)
  counted dir subnet mtu files (some n) =
      if not (validate_mtu mtu).valid
      then (1, files)
      else in_subnet dir n mtu files (subnet_of subnet)

  -- The exit code, and the files.
  unfoldable pub cmd_init : List Bytes → Dict Bytes → Saved ℕ
  unfolding parse_count last_option parse_subnet make_clients pubkey_of server_config write_secret
  cmd_init [] files = (1, files)
  cmd_init (dir ∷ args) files =
      counted dir (or_default (last_option (codes "--subnet") none args) (codes "10.0.0.0/24"))
        (mtu_of (last_option (codes "--mtu") none args)) files (parse_count args 1)
