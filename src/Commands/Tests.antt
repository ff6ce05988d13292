-- ===== src/Commands/Tests.antt =====
-- Runs of the commands at concrete inputs.
use nospoon.Base.{
  ◌≡◌, refl, All, ℕ, length, some, Bytes, none, replicate, arith, true, false, List, [], ◌∷◌, ◌++◌,
  codes,
}
use nospoon.Base.Int.{pos, is_zero, negsuc}
use nospoon.Commands.{Subnet, client_name, insert_peers, used_by_peers, parse_subnet, reserve}
use nospoon.Commands.Addclient.{net_of}
use nospoon.Commands.Inspect.{by_key}
use nospoon.Base.Numerals.{read_digits}
use nospoon.Commands.Save.{System}
use nospoon.Config.{Files}
use nospoon.Base.Dict.{Dict}
use nospoon.Commands.Addresses.{net_of-IsNew, IsNew, AllDifferent}
use nospoon.Validation.Cidr.{Shape}
use nospoon.Config.{Config}
use nospoon.Commands.Check.{check_run, check_run-IsVerdict, fresh_check, CheckEvent, IsVerdict}

abbrev office : Subnet
office = record { base = codes "10.0.0"; prefix = pos 24; used = pos 2 ∷ pos 1 ∷ pos 4 ∷ [] }

name_run : client_name 7 ≡ codes "client-007"
unfolding client_name
name_run = refl

insert_run :
    insert_peers (codes "{\"peers\": {}}") 10 ((codes "ab", codes "10.0.0.2") ∷ [])
    ≡ codes "{\"peers\": {\n    \"ab\": \"10.0.0.2\",}}"
unfolding insert_peers
insert_run = refl

abbrev iterations : List (List CheckEvent)
iterations = (CheckEvent.bootstrapped ∷ []) ∷ []

abbrev failing_dial : List CheckEvent
failing_dial = CheckEvent.dialed (negsuc 2) ∷ []

check_run-IsVerdict_example :
    let c =
      check_run is_zero
        (fresh_check true)
        (iterations ++ (([] ++ (CheckEvent.deadline ∷ failing_dial)) ∷ [])) in
    IsVerdict is_zero c
    × (c.bootstrapped ≡ false → c.exit_code ≡ 2)
    × (c.exit_code ≡ 2
        → (check_run is_zero (fresh_check true) (iterations ++ ([] ∷ []))).bootstrapped ≡ false)
check_run-IsVerdict_example =
    check_run-IsVerdict is_zero true iterations [] failing_dial ((tt, tt), tt) tt (tt, tt)

-- The answer comes in the iteration of the deadline, behind it.
late_answer :
    (check_run is_zero
      (fresh_check true)
      ((CheckEvent.deadline ∷ CheckEvent.bootstrapped ∷ []) ∷ [])).exit_code
    ≡ 2
unfolding check_run
late_answer = refl

-- A system where the temporary file cannot be renamed.
abbrev stuck : System
stuck = record { opens = λ p. true; chmods = λ p. true; renames = false; stores = λ p body. body }

abbrev disk : Dict Bytes
disk = (codes "s.jsonc", codes "{}") ∷ []

abbrev no_files : Files
no_files path = none

abbrev drawn : Bytes
drawn = replicate 32 171

abbrev server : Config
server = record {
  mode = codes "server";
  ip = codes "10.0.0.1/24";
  ipv6 = [];
  seed = [];
  seed_file = [];
  server_key = [];
  mtu = pos 1400;
  peers = (codes "aa", codes "10.0.0.2") ∷ (codes "bb", codes "10.0.0.4") ∷ [];
  full_tunnel = false;
  out_iface = [];
}

abbrev server_shape : Shape server.ip
server_shape = record {
  a = codes "10";
  b = codes "0";
  c = codes "0";
  d = codes "1";
  p = codes "24";
  spelled = refl;
  a_group = record { digits = refl; some_digit = omega arith; few = omega arith };
  b_group = record { digits = refl; some_digit = omega arith; few = omega arith };
  c_group = record { digits = refl; some_digit = omega arith; few = omega arith };
  d_group = record { digits = refl; some_digit = omega arith; few = omega arith };
  p_group = record { digits = refl; some_digit = omega arith; few = omega arith };
}

abbrev server_net : Subnet
server_net = record { base = codes "10.0.0"; prefix = pos 24; used = pos 4 ∷ pos 2 ∷ pos 1 ∷ [] }

its_net : net_of server ≡ some server_net
unfolding parse_subnet used_by_peers
its_net = refl

two_more : (reserve 2 server_net).0 ≡ some (3 ∷ 5 ∷ [])
unfolding reserve
two_more = refl

net_of-IsNew_example :
    (length {A = ℕ} (3 ∷ 5 ∷ []) ≡ 2)
    × All (IsNew server (read_digits 0 (codes "1"))) (3 ∷ 5 ∷ [])
    × AllDifferent (3 ∷ 5 ∷ [])
net_of-IsNew_example = net_of-IsNew server 2 server_shape its_net two_more

walks_by_key :
    by_key ((codes "bb", codes "2") ∷ (codes "ab", codes "1") ∷ (codes "b", codes "3") ∷ [])
    ≡ (codes "ab", codes "1") ∷ (codes "b", codes "3") ∷ (codes "bb", codes "2") ∷ []
unfolding by_key
walks_by_key = refl
