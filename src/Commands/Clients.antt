-- ===== src/Commands/Clients.antt =====
-- cpp/commands.cpp: the client files that `init` and `addclient` write.
use nospoon.Base.{
  ◌≡◌, refl, ap, append_assoc, ◌∙◌, ℕ, suc, ◌+◌, Bool, true, false, List, [], ◌∷◌, ◌++◌, Option,
  none, some, if◌then◌else◌, Bytes, codes, length, same, same_iff, arith, Bool-cases, inl, inr,
}
use nospoon.Base.Dict.{Dict, get, Distinct}
use nospoon.Base.Int.{ℤ, decimal_int}
use nospoon.Base.Numerals.{decimal}
use nospoon.Config.Hex.{hex_to_bytes, bytes_to_hex}
use nospoon.Commands.{Subnet, reserve}
use nospoon.Commands.Hosts.{Reserved, reserve-Reserved}
use nospoon.Commands.Names.{file_name, free_index, free_index-total, free_index-free}
use nospoon.Commands.Save.{System, Saved, write_secret, Wrote, write_secret-Wrote, IsWhole}
use nospoon.Commands.Wanted.{unlines, client_lines}

-- The public key that libsodium makes of a seed.
abbrev pub Keys : Type 0
Keys = Bytes → Bytes

abbrev pub hex_key : Keys → Option Bytes → Bytes
hex_key keys none = []
hex_key keys (some seed) = bytes_to_hex (keys seed)

unfoldable pub pubkey_of : Keys → Bytes → Bytes
unfolding hex_to_bytes bytes_to_hex
pubkey_of keys seed_hex = hex_key keys (hex_to_bytes seed_hex 32)

unfoldable pub client_config : Bytes → Bytes → ℤ → Bytes → ℤ → Bytes
unfolding decimal_int
client_config server_pk ip prefix seed mtu =
    codes "{\n  \"mode\": \"client\",\n  \"server\": \""
    ++ (server_pk
        ++ (codes "\",\n  \"ip\": \""
            ++ (ip
                ++ (b'/'
                    ∷ (decimal_int prefix
                        ++ (codes "\",\n  \"seed\": \""
                            ++ (seed
                                ++ (codes "\",\n  \"mtu\": "
                                    ++ (decimal_int mtu ++ codes "\n}\n")))))))))

client_config-unlines :
    (server_pk ip : Bytes) (prefix : ℤ) (seed : Bytes) (mtu : ℤ)
    → client_config server_pk ip prefix seed mtu
      ≡ unlines (client_lines server_pk ip prefix seed mtu)
unfolding client_config decimal_int
client_config-unlines server_pk ip prefix seed mtu = simp append_assoc

abbrev pub host_ip : Subnet → ℕ → Bytes
host_ip net host = net.base ++ (b'.' ∷ decimal host)

-- What the loop returns, the files it leaves, and the "pubkey" and "ip" of each client.
pub record Made : Type 0 where
  pub result : Bool
  pub files : Dict Bytes
  pub peers : List (Bytes × Bytes)

abbrev pub with_peer : Bytes × Bytes → Made → Made
with_peer peer m = record m { peers = peer ∷ m.peers }

abbrev pub stopped : Dict Bytes → Made
stopped files = record { result = false; files = files; peers = [] }

-- The hosts of a reservation, none where it fails.
abbrev pub hosts_of : Option (List ℕ) → List ℕ
hosts_of none = []
hosts_of (some hosts) = hosts

-- `drawn` are the random bytes of each round.
module _ (sys : System) (keys : Keys) (dir server_pk : Bytes) (net : Subnet) (mtu : ℤ)
    (drawn : ℕ → Bytes) where
  abbrev pub seed_of : ℕ → Bytes
  seed_of round = bytes_to_hex (drawn round)

  abbrev pub body_of : ℕ → ℕ → Bytes
  body_of round host = client_config server_pk (host_ip net host) net.prefix (seed_of round) mtu

  abbrev pub peer_of : ℕ → ℕ → Bytes × Bytes
  peer_of round host = (pubkey_of keys (seed_of round), host_ip net host)

  -- A round behind the search for a name: the file, and the later rounds if it could be written.
  abbrev pub go_on : Bytes × Bytes → Saved Bool → Made → Made
  go_on peer (written, files) later = if written then with_peer peer later else stopped files

  -- The second loop. A search never runs out of its fuel.
  unfoldable pub write_clients : ℕ → ℕ → List ℕ → Dict Bytes → Made
  unfolding free_index file_name client_config pubkey_of write_secret bytes_to_hex decimal
  write_clients round index [] files = record { result = true; files = files; peers = [] }
  write_clients round index (host ∷ hosts) files =
      elim (free_index (suc (length files)) dir index files) [
        | none ↦ stopped files
        | some i ↦
            let saved = write_secret sys (file_name dir i) (body_of round host) files in
            go_on (peer_of round host) saved (write_clients (suc round) (i + 1) hosts saved.1)
      ]

  abbrev pub with_hosts : ℕ → ℕ → Dict Bytes → Option (List ℕ) → Made
  with_hosts round index files none = stopped files
  with_hosts round index files (some hosts) = write_clients round index hosts files

  -- All addresses are reserved before a file is written.
  unfoldable pub make_clients : ℕ → ℕ → ℕ → Dict Bytes → Made
  unfolding reserve write_clients
  make_clients n round index files = with_hosts round index files (reserve n net).0

  -- No file that was there is touched.
  abbrev pub Keeps : Dict Bytes → Dict Bytes → Type 0
  Keeps files out = (path body : Bytes) → get path files ≡ some body → get path out ≡ some body

  write-Keeps :
      (i : ℕ) (body : Bytes) (files : Dict Bytes) (r : Saved Bool)
      → get (file_name dir i) files ≡ none
      → Wrote (file_name dir i) body files r
      → Keeps files r.1
  write-Keeps i body files r free w path b there = elim (Bool-cases (same (file_name dir i) path)) [
    | inl e ↦ let named = (same_iff (file_name dir i) path).0 e in absurd (cc (free, there, named))
    | inr e ↦ w.others path e ∙ there
  ]

  -- A client's file, and its entry for the server.
  abbrev pub wanted : ℕ → ℕ → Bytes
  wanted round host =
      unlines (client_lines server_pk (host_ip net host) net.prefix (seed_of round) mtu)

  abbrev pub Served : Dict Bytes → ℕ → ℕ → Bytes × Bytes → Type 0
  Served out round host peer =
      (peer ≡ peer_of round host)
      × ((i : ℕ) × (get (file_name dir i) out ≡ some (wanted round host)))

  abbrev pub AllServed : Dict Bytes → ℕ → List ℕ → List (Bytes × Bytes) → Type 0
  AllServed out round [] [] = Unit {0}
  AllServed out round [] (p ∷ ps) = ⊥
  AllServed out round (h ∷ hs) [] = ⊥
  AllServed out round (h ∷ hs) (p ∷ ps) = Served out round h p × AllServed out (suc round) hs ps

  -- What a loop leaves: the files of before, no path twice, and if it returns true a file and an
  -- entry for each host.
  pub record Extends (round : ℕ) (hosts : List ℕ) (files : Dict Bytes) (m : Made) : Type 0 where
    pub keeps : Keeps files m.files
    pub distinct : Distinct m.files
    pub served : m.result ≡ true → AllServed m.files round hosts m.peers

  stopped-Extends :
      (round : ℕ) (hosts : List ℕ) (files out : Dict Bytes)
      → Keeps files out
      → Distinct out
      → Extends round hosts files (stopped out)
  stopped-Extends round hosts files out k d = record {
    keeps = k;
    distinct = d;
    served = λ h. absurd (cc);
  }

  go_on-Extends :
      (round host i : ℕ) (hosts : List ℕ) (files : Dict Bytes) (saved : Saved Bool) (later : Made)
      → get (file_name dir i) files ≡ none
      → Wrote (file_name dir i) (body_of round host) files saved
      → Extends (suc round) hosts saved.1 later
      → Extends round (host ∷ hosts) files (go_on (peer_of round host) saved later)
  go_on-Extends round host i hosts files (false, out) later free w e =
      stopped-Extends round (host ∷ hosts) files out
        (write-Keeps i (body_of round host) files (false, out) free w) w.distinct
  go_on-Extends round host i hosts files (true, out) later free w e = record {
    keeps = λ path b there.
        e.keeps path b (write-Keeps i (body_of round host) files (true, out) free w path b there);
    distinct = e.distinct;
    served = λ done. (
      (
        refl,
        (
          i,
          e.keeps (file_name dir i) (wanted round host) (
              w.written refl
              ∙ ap some (
                  client_config-unlines server_pk (host_ip net host) net.prefix (seed_of round)
                    mtu)),
        ),
      ),
      e.served done,
    );
  }

  pub write_clients-Extends :
      (whole : IsWhole sys) (round index : ℕ) (hosts : List ℕ) (files : Dict Bytes)
      → Distinct files
      → Extends round hosts files (write_clients round index hosts files)
  unfolding write_clients
  write_clients-Extends whole round index [] files d = record {
    keeps = λ path b there. there;
    distinct = d;
    served = λ done. tt;
  }
  write_clients-Extends whole round index (host ∷ hosts) files d =
      let (i, found, _) = free_index-total (suc (length files)) dir index files d (omega arith) in
      let saved = write_secret sys (file_name dir i) (body_of round host) files in
      let w = write_secret-Wrote sys whole (file_name dir i) (body_of round host) files d in
      rw (found, write_clients)
        (go_on-Extends round host i hosts files saved
          (write_clients (suc round) (i + 1) hosts saved.1)
          (free_index-free (suc (length files)) dir index files found) w
          (write_clients-Extends whole (suc round) (i + 1) hosts saved.1 w.distinct))

  with_hosts-Extends :
      (whole : IsWhole sys) (round index : ℕ) (files : Dict Bytes) (o : Option (List ℕ))
      → Distinct files
      → Extends round (hosts_of o) files (with_hosts round index files o)
  with_hosts-Extends whole round index files none d =
      stopped-Extends round [] files files (λ path b there. there) d
  with_hosts-Extends whole round index files (some hosts) d =
      write_clients-Extends whole round index hosts files d

  pub make_clients-Extends :
      (whole : IsWhole sys) (n round index : ℕ) (files : Dict Bytes)
      → Distinct files
      → Extends round (hosts_of (reserve n net).0) files (make_clients n round index files)
  unfolding make_clients
  make_clients-Extends whole n round index files d =
      with_hosts-Extends whole round index files (reserve n net).0 d

  -- As many clients are made as were asked for.
  served_count :
      (out : Dict Bytes) (round : ℕ) (hosts : List ℕ) (peers : List (Bytes × Bytes))
      → AllServed out round hosts peers
      → length peers ≡ length hosts
  served_count out round [] [] s = refl
  served_count out round [] (p ∷ ps) s = absurd s
  served_count out round (h ∷ hs) [] s = absurd s
  served_count out round (h ∷ hs) (p ∷ ps) s = ap suc (served_count out (suc round) hs ps s.1)

  hosts_count :
      (n round index : ℕ) (files : Dict Bytes) (r : Option (List ℕ) × Subnet)
      → Reserved n net.used r
      → (with_hosts round index files r.0).result ≡ true
      → length (hosts_of r.0) ≡ n
  hosts_count n round index files (none, after) v made = absurd (cc made)
  hosts_count n round index files (some hosts, after) v made = v.0

  pub make_clients_count :
      (whole : IsWhole sys) (n round index : ℕ) (files : Dict Bytes)
      → Distinct files
      → (make_clients n round index files).result ≡ true
      → length (make_clients n round index files).peers ≡ n
  unfolding make_clients
  make_clients_count whole n round index files d made =
      let m = make_clients n round index files in
      let hosts = hosts_of (reserve n net).0 in
      served_count m.files round hosts m.peers
        ((make_clients-Extends whole n round index files d).served made)
      ∙ hosts_count n round index files (reserve n net) (reserve-Reserved n net) made

  -- What is served stays served in files that keep the others.
  pub AllServed-Keeps :
      (from to : Dict Bytes) (round : ℕ) (hosts : List ℕ) (peers : List (Bytes × Bytes))
      → ((i : ℕ) (b : Bytes)
          → get (file_name dir i) from ≡ some b
          → get (file_name dir i) to ≡ some b)
      → AllServed from round hosts peers
      → AllServed to round hosts peers
  AllServed-Keeps from to round [] [] k s = tt
  AllServed-Keeps from to round [] (p ∷ ps) k s = absurd s
  AllServed-Keeps from to round (h ∷ hs) [] k s = absurd s
  AllServed-Keeps from to round (h ∷ hs) (p ∷ ps) k (((e, (i, there))), rest) =
      ((e, (i, k i (wanted round h) there)), AllServed-Keeps from to (suc round) hs ps k rest)
