-- ===== src/Commands/Runs.antt =====
-- Runs of `init` and `addclient` on concrete files.
use nospoon.Base.{
  ◌≡◌, refl, ℕ, ◌≤◌, some, none, Bytes, replicate, arith, true, [], ◌∷◌, ◌++◌, codes, same, find,
}
use nospoon.Base.Dict.{Dict, get, put, Distinct}
use nospoon.Validation.{
  validate_mtu, validate_cidr, validate_hex64, matches_cidr, match_digits, match_char, match_end,
  scan_octets,
}
use nospoon.Config.{
  Config, Files, loaded, load_config, check_fields, parse_fields, require_ok, load_seed,
}
use nospoon.Base.Int.{pos}
use nospoon.Base.Numerals.{decimal}
use nospoon.Base.{List}
use nospoon.Config.Json.{json_peers, quoted}
use nospoon.Config.Plain.{is_clear, mismatch}
use nospoon.Config.Pairs.{first_of}
use nospoon.Config.Block.{with_block}
use nospoon.Commands.{insert_peers}
use nospoon.Commands.Allowlist.{put_all, json_peers-insert_peers}
use nospoon.Commands.ClientFile.{expected, load_config-client_config}
use nospoon.Commands.{used_by_peers}
use nospoon.Commands.Names.{free_index, free_index-total}
use nospoon.Commands.Count.{parse_count, last_option}
use nospoon.Commands.Clients.{Keys, client_config}
use nospoon.Commands.Save.{System, IsWhole}
use nospoon.Commands.Init.{Directory, cmd_init, mtu_of, or_default, subnet_of}
use nospoon.Commands.Inited.{Inited, cmd_init-Inited}
use nospoon.Commands.Addclient.{cmd_addclient, find_brace}
use nospoon.Commands.Added.{Added}

abbrev willing : System
willing = record { opens = λ p. true; chmods = λ p. true; renames = true; stores = λ p body. body }

willing-IsWhole : IsWhole willing
willing-IsWhole path body = refl

abbrev anywhere : Directory
anywhere = record { creates = λ p. true; chmods = λ p. true }

abbrev keys : Keys
keys seed = seed

abbrev draws : ℕ → Bytes
draws round = replicate 32 (round)

-- A directory with the file of a first client.
abbrev files : Dict Bytes
files = (codes "d/client-001.jsonc", codes "old") ∷ []

abbrev files-Distinct : Distinct files
files-Distinct = (tt, tt)

skips_taken : free_index 2 (codes "d") 1 files ≡ some 2
unfolding free_index get same
skips_taken = refl

free_index-total_example : (j : ℕ) × (free_index 2 (codes "d") 1 files ≡ some j) × (1 ≤ j)
free_index-total_example = free_index-total 2 (codes "d") 1 files files-Distinct (omega arith)

init_ends_well : (cmd_init willing anywhere keys draws (codes "d" ∷ []) files).0 ≡ 0
unfolding cmd_init validate_mtu get
init_ends_well = refl

init_spares :
    get (codes "d/client-001.jsonc") (cmd_init willing anywhere keys draws (codes "d" ∷ []) files).1
    ≡ some (codes "old")
unfolding cmd_init get same validate_mtu put
init_spares = refl

cmd_init-Inited_example :
    Inited willing anywhere keys draws
      (codes "d")
      (mtu_of (last_option (codes "--mtu") none []))
      (parse_count [] 1)
      (subnet_of (or_default (last_option (codes "--subnet") none []) (codes "10.0.0.0/24")))
      files
      (cmd_init willing anywhere keys draws (codes "d" ∷ []) files)
cmd_init-Inited_example =
    cmd_init-Inited willing anywhere keys draws willing-IsWhole (codes "d") [] files files-Distinct

bad_count : parse_count (codes "-n" ∷ codes "254" ∷ []) 1 ≡ none
unfolding parse_count
bad_count = refl

good_count : parse_count (codes "-n" ∷ codes " +12" ∷ []) 1 ≡ some 12
unfolding parse_count
good_count = refl

-- A server's configuration with one peer, behind a comment.
abbrev text : Bytes
text =
    codes "{ \"mode\": \"server\", // ours\n \"ip\": \"10.0.0.1/24\",\n \"seed\": \""
    ++ (replicate 64 b'a' ++ codes "\", \"peers\": {\n \"bb\": \"10.0.0.2\"\n } }\n")

abbrev server_files : Dict Bytes
server_files = (codes "d/s.jsonc", text) ∷ []

addclient_ends_well : (cmd_addclient willing keys draws (codes "d/s.jsonc" ∷ []) server_files).0 ≡ 0
unfolding cmd_addclient get check_fields parse_fields require_ok validate_cidr matches_cidr
    match_digits match_char match_end scan_octets validate_hex64 validate_mtu load_seed
    used_by_peers
addclient_ends_well = refl

-- The name of the block in a comment is taken for the block.
finds_comment : find_brace (codes "// no \"peers\" {\n\"peers\": {}") ≡ some 14
unfolding find_brace
finds_comment = refl

-- The file of a client, and what is read back from it.
abbrev server_pk : Bytes
server_pk = replicate 64 b'a'

abbrev client_seed : Bytes
client_seed = replicate 64 b'b'

abbrev client_file : Files
client_file =
    λ path. some (client_config server_pk (codes "10.0.0.2") (pos 24) client_seed (pos 1400))

abbrev in_mind : Config
in_mind = expected server_pk (codes "10.0.0.2") 24 client_seed 1400

in_mind_passes : check_fields in_mind ≡ loaded tt
unfolding check_fields require_ok validate_cidr matches_cidr match_digits match_char match_end
    scan_octets validate_hex64 validate_mtu decimal find
in_mind_passes = refl

load_config-client_config_example :
    load_config client_file (codes "d/client-001.jsonc") ≡ loaded in_mind
unfolding decimal
load_config-client_config_example =
    load_config-client_config server_pk (codes "10.0.0.2") 24 client_seed 1400 refl refl refl
      client_file (codes "d/client-001.jsonc") refl in_mind_passes refl

-- A client is added to a block that has one.
abbrev old_block : Bytes
old_block = codes "\n    \"aa\": \"10.0.0.2\"\n  "

abbrev newcomer : List (Bytes × Bytes)
newcomer = (codes "bb", codes "10.0.0.3") ∷ []

nothing_before : is_clear (quoted (codes "peers")) (codes "{\n  ") ≡ true
unfolding is_clear mismatch
nothing_before = refl

its_brace :
    find_brace (with_block (codes "{\n  ") [] (codes " ") old_block (codes "\n}\n")) ≡ some 13
unfolding find_brace
its_brace = refl

json_peers-insert_peers_example :
    get (codes "bb") (
      json_peers (
        insert_peers
          (with_block (codes "{\n  ") [] (codes " ") old_block (codes "\n}\n"))
          13
          newcomer))
    ≡ first_of
        (get
          (codes "bb")
          (json_peers (with_block (codes "{\n  ") [] (codes " ") old_block (codes "\n}\n"))))
        (get (codes "bb") (put_all newcomer []))
json_peers-insert_peers_example =
    json_peers-insert_peers (codes "{\n  ") [] (codes " ") old_block (codes "\n}\n") newcomer
      (codes "bb") 13 its_brace nothing_before refl refl refl ((refl, refl), tt)

reads_newcomer :
    get (codes "bb") (
      json_peers (
        insert_peers
          (with_block (codes "{\n  ") [] (codes " ") old_block (codes "\n}\n"))
          13
          newcomer))
    ≡ some (codes "10.0.0.3")
unfolding json_peers insert_peers get put same
reads_newcomer = refl
