-- ===== src/Commands/Addclient.antt =====
-- cpp/commands.cpp: `addclient`, from its arguments to its exit code and the files it leaves.
use nospoon.Base.{
  ℕ, suc, ◌+◌, not, List, [], ◌∷◌, Option, none, some, if◌then◌else◌, Bytes, codes, same, is_empty,
  find_from, rfind, take, length, starts_with,
}
use mathlib.Core.Option
use nospoon.Base.Dict.{Dict, get}
use nospoon.Base.Int.{pos}
use nospoon.Config.{Config, Loaded, loaded, exits, load_config}
use nospoon.Config.Strip.{strip_comments}
use nospoon.Config.Json.{find_key}
use nospoon.Commands.{Subnet, parse_subnet, mark_peers, insert_peers}
use nospoon.Commands.Clients.{Keys, Made, make_clients, pubkey_of}
use nospoon.Commands.Count.{parse_count}
use nospoon.Commands.Save.{System, Saved, replace_config}

-- `s.find(word)` for a text
unfoldable pub find_text : Bytes → Bytes → Option ℕ
unfolding starts_with
find_text word [] = if is_empty word then some 0 else none
find_text word (c ∷ s) =
    let later = Option.map suc (find_text word s) in
    if starts_with word (c ∷ s) then some 0 else later

abbrev pub brace_from : Bytes → Option ℕ → Option ℕ
brace_from raw none = none
brace_from raw (some at) = find_from b'{' at raw

-- `raw.find('{', raw.find("\"peers\""))`
unfoldable pub find_brace : Bytes → Option ℕ
unfolding find_text find_from
find_brace raw = brace_from raw (find_text (codes "\"peers\"") raw)

abbrev pub dir_to : Bytes → Option ℕ → Bytes
dir_to path none = codes "."
dir_to path (some slash) = take slash path

-- The directory of the configuration.
unfoldable pub dir_of : Bytes → Bytes
unfolding rfind
dir_of path = dir_to path (rfind b'/' path)

-- The server's network with the addresses that its peers have.
abbrev pub net_of : Config → Option Subnet
net_of cfg =
    mark_peers cfg.peers (parse_subnet cfg.ip (record { base = []; prefix = pos 24; used = [] }))

-- `drawn` are the random bytes of each call of `new_seed_hex`.
module _ (sys : System) (keys : Keys) (drawn : ℕ → Bytes) where
  abbrev pub new_clients : Bytes → Config → ℕ → Subnet → Dict Bytes → Made
  new_clients path cfg n net files =
      make_clients sys keys (dir_of path) (pubkey_of keys cfg.seed) net cfg.mtu drawn n 0
        (length cfg.peers + 1) files

  -- `if (!make_clients(...)) return 1;` and the rest.
  abbrev pub save_peers : Bytes → Bytes → ℕ → Made → Saved ℕ
  save_peers path raw brace m =
      if m.result
      then replace_config sys path raw (insert_peers raw brace m.peers) m.files
      else (1, m.files)

  -- From the network on.
  abbrev pub in_net : Bytes → Config → ℕ → Bytes → ℕ → Dict Bytes → Option Subnet → Saved ℕ
  in_net path cfg n raw brace files none = (1, files)
  in_net path cfg n raw brace files (some net) =
      save_peers path raw brace (new_clients path cfg n net files)

  abbrev pub at_brace : Bytes → Config → ℕ → Bytes → Dict Bytes → Option ℕ → Saved ℕ
  at_brace path cfg n raw files none = (1, files)
  at_brace path cfg n raw files (some brace) = in_net path cfg n raw brace files (net_of cfg)

  abbrev pub at_key : Bytes → Config → ℕ → Bytes → Dict Bytes → Option ℕ → Saved ℕ
  at_key path cfg n raw files none = (1, files)
  at_key path cfg n raw files (some key_pos) = at_brace path cfg n raw files (find_brace raw)

  -- From the second read of the file on.
  abbrev pub with_raw : Bytes → Config → ℕ → Dict Bytes → Option Bytes → Saved ℕ
  with_raw path cfg n files none = (1, files)
  with_raw path cfg n files (some raw) =
      at_key path cfg n raw files (find_key (strip_comments raw) (codes "peers"))

  abbrev pub with_config : Bytes → ℕ → Dict Bytes → Loaded Config → Saved ℕ
  with_config path n files (exits message) = (1, files)
  with_config path n files (loaded cfg) =
      if not (same cfg.mode (codes "server"))
      then (1, files)
      else if is_empty cfg.seed
      then (1, files)
      else with_raw path cfg n files (get path files)

  abbrev pub with_count : Bytes → Dict Bytes → Option ℕ → Saved ℕ
  with_count path files none = (1, files)
  with_count path files (some n) = with_config path n files (load_config (λ p. get p files) path)

  -- The exit code, and the files.
  unfoldable pub cmd_addclient : List Bytes → Dict Bytes → Saved ℕ
  unfolding parse_count load_config find_key strip_comments find_brace dir_of parse_subnet
      make_clients pubkey_of insert_peers replace_config
  cmd_addclient [] files = (1, files)
  cmd_addclient (path ∷ args) files = with_count path files (parse_count args 1)
