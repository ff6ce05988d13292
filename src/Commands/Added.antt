-- ===== src/Commands/Added.antt =====
-- cpp/commands.cpp: what `addclient` leaves.
use nospoon.Base.{◌≡◌, ◌≢◌, ℕ, List, ◌∷◌, ◌++◌, none, some, Bytes, codes, length}
use nospoon.Base.Dict.{Dict, get, Distinct}
use nospoon.Config.{Config, loaded, load_config}
use nospoon.Commands.{Subnet, reserve}
use nospoon.Commands.Clients.{Keys, Made, pubkey_of, AllServed, hosts_of}
use nospoon.Commands.Count.{parse_count}
use nospoon.Commands.Wanted.{added_lines}
use nospoon.Commands.Brace.{Opens}
use nospoon.Commands.Save.{IsWhole, System, Saved}
use nospoon.Commands.Addclient.{find_brace, dir_of, net_of, new_clients}

module _ (sys : System) (keys : Keys) (drawn : ℕ → Bytes) where
  -- What `addclient` promises of a configuration that is there: with exit code 0 the entries of the
  -- count's clients stand where the text opens, the old text is the backup, and each client has its
  -- file; with another code the configuration is as it was.
  pub record Added (path : Bytes) (args : List Bytes) (files : Dict Bytes) (raw : Bytes)
      (r : Saved ℕ) : Type 0 where
    pub failed : r.0 ≢ 0 → get path r.1 ≡ some raw
    pub done :
        r.0 ≡ 0
        → (cfg : Config) × (n : ℕ) × (net : Subnet) × (peers : List (Bytes × Bytes))
          × (before : Bytes) × (behind : Bytes) × (load_config (λ p. get p files) path ≡ loaded cfg)
          × (parse_count args 1 ≡ some n)
          × (net_of cfg ≡ some net)
          × (length peers ≡ n)
          × Opens raw before behind
          × (get path r.1 ≡ some (before ++ (b'{' ∷ (added_lines peers ++ behind))))
          × (get (path ++ codes ".bak") r.1 ≡ some raw)
          × (get (path ++ codes ".tmp") r.1 ≡ none)
          × AllServed sys keys
              (dir_of path)
              (pubkey_of keys cfg.seed)
              net
              cfg.mtu
              drawn
              (new_clients sys keys drawn path cfg n net files).files
              0
              (hosts_of (reserve n net).0)
              peers

  module _ (whole : IsWhole sys) (path : Bytes) (args : List Bytes) (files : Dict Bytes)
      (d : Distinct files) (raw : Bytes) (there : get path files ≡ some raw) where
    IsAdded : Saved ℕ → Type 0
    IsAdded = Added path args files raw

    module _ (cfg : Config) (read : load_config (λ p. get p files) path ≡ loaded cfg) (n : ℕ)
        (count : parse_count args 1 ≡ some n) (brace : ℕ) (at : find_brace raw ≡ some brace) where
      module _ (net : Subnet) (of : net_of cfg ≡ some net) where
        abbrev m : Made
        m = new_clients sys keys drawn path cfg n net files
