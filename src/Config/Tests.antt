-- ===== src/Config/Tests.antt =====
-- Runs of the config readers at concrete inputs.
use nospoon.Base.{◌≡◌, refl, [], ◌∷◌, ◌++◌, Bytes, codes, true, false, some, same, if◌then◌else◌}
use nospoon.Base.Int.{pos}
use nospoon.Config.{Config, Files, loaded, load_seed, require_ok, trim_end}
use nospoon.Config.Strip.{strip_comments}
use nospoon.Config.Json.{json_string, json_int, json_bool, json_peers}
use nospoon.Config.Text.{escape}
use nospoon.Config.Key.{json_string-escape, written}
use nospoon.Validation.{validate_hex64}

strip_run :
    strip_comments (codes "{ \"a\": 1, // x\n \"b\": \"//\" /* y */ }")
    ≡ codes "{ \"a\": 1,  \"b\": \"//\"  }"
unfolding strip_comments
strip_run = refl

string_run :
    json_string (codes "{\"mode\": \"server\", \"server\" : \"a\\/b\"}") (codes "server")
    ≡ codes "a/b"
unfolding json_string
string_run = refl

int_run : json_int (codes "{\"mtu\":  1280}") (codes "mtu") (pos 1400) ≡ pos 1280
unfolding json_int
int_run = refl

bool_run : json_bool (codes "{\"fullTunnel\": true}") (codes "fullTunnel") false ≡ true
unfolding json_bool
bool_run = refl

peers_run :
    json_peers (codes "{\"peers\": {\"aa\": \"10.0.0.2\", \"bb\": \"10.0.0.3\"}}")
    ≡ (codes "aa", codes "10.0.0.2") ∷ (codes "bb", codes "10.0.0.3") ∷ []
unfolding json_peers same
peers_run = refl

json_string-escape_example :
    json_string
      (written
        (codes "{ ")
        (codes "mode")
        (codes " ")
        (codes " ")
        (escape (codes "a\"b"))
        (codes "}"))
      (codes "mode")
    ≡ codes "a\"b"
json_string-escape_example =
    json_string-escape (codes "{ ") (codes "mode") (codes " ") (codes " ") (codes "a\"b")
      (codes "}") refl refl refl

abbrev three : Bytes
three = 0 ∷ 10 ∷ 255 ∷ []

abbrev seed : Bytes
seed = codes "000102030405060708090a0b0c0d0e0f000102030405060708090a0b0c0d0e0f"

seed_passes : (validate_hex64 seed (codes "seed")).valid ≡ true
unfolding validate_hex64
seed_passes = refl

abbrev text : Bytes
text = codes "{\"mode\": \"client\", \"ip\": \"10.0.0.2/24\", \"seedFile\": \"/s\", \"mtu\": 1280}"

-- A configuration and the seed file that it names.
abbrev disk : Files
disk path = if same path (codes "/c") then some text else some (seed ++ codes "\n")

abbrev parsed : Config
parsed = record {
  mode = codes "client";
  ip = codes "10.0.0.2/24";
  ipv6 = [];
  server_key = [];
  seed = seed;
  seed_file = codes "/s";
  mtu = pos 1280;
  full_tunnel = false;
  out_iface = [];
  peers = [];
}

seed_run : load_seed disk (record parsed { seed = [] }) ≡ loaded parsed
unfolding load_seed validate_hex64 trim_end same require_ok
seed_run = refl
