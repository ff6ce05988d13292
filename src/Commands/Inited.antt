-- ===== src/Commands/Inited.antt =====
-- cpp/commands.cpp: what `init` leaves.
use nospoon.Base.{
  ◌≡◌, refl, ap, append_assoc, length, [], ◌∙◌, ℕ, Bool, true, false, not, List, ◌∷◌, ◌++◌, Option,
  none, some, if◌then◌else◌, Bytes, codes, same, arith,
}
use nospoon.Base.Dict.{Dict, get, Distinct}
use nospoon.Base.Int.{ℤ, decimal_int}
use nospoon.Validation.{validate_mtu}
use nospoon.Config.Hex.{bytes_to_hex}
use nospoon.Commands.{Subnet, reserve, client_name}
use nospoon.Commands.Clients.{
  Keys, hosts_of, Made, make_clients, pubkey_of, AllServed, Extends, make_clients-Extends,
  make_clients_count, AllServed-Keeps,
}
use nospoon.Commands.Count.{parse_count, last_option}
use nospoon.Commands.Wanted.{unlines, unlines-append, listing, server_lines}
use nospoon.Commands.Names.{file_name}
use nospoon.Commands.Save.{
  System, IsWhole, Saved, write_secret, and_then, Wrote, write_secret-Wrote, same-append,
}
use nospoon.Commands.Init.{
  Directory, or_default, mtu_of, subnet_of, server_config, peer_lines, server_path, save_server,
  in_subnet, counted, cmd_init,
}

peer_lines-unlines : (peers : List (Bytes × Bytes)) → peer_lines peers ≡ unlines (listing peers)
unfolding peer_lines
peer_lines-unlines [] = refl
peer_lines-unlines ((pk, ip) ∷ []) = simp append_assoc
peer_lines-unlines ((pk, ip) ∷ q ∷ ps) =
    ap (λ (t : Bytes). codes "    \"" ++ (pk ++ (codes "\": \"" ++ (ip ++ (codes "\",\n" ++ t)))))
      (peer_lines-unlines (q ∷ ps))
    ∙ simp append_assoc

server_config-unlines :
    (ip : Bytes) (prefix : ℤ) (seed : Bytes) (mtu : ℤ) (peers : List (Bytes × Bytes))
    → server_config ip prefix seed mtu peers ≡ unlines (server_lines ip prefix seed mtu peers)
unfolding server_config decimal_int
server_config-unlines ip prefix seed mtu peers =
    rw (peer_lines-unlines peers, unlines-append (listing peers) (codes "  }" ∷ codes "}" ∷ []))
      (simp append_assoc)

module _ (sys : System) (directory : Directory) (keys : Keys) (drawn : ℕ → Bytes) where
  -- What `init` promises: of the files that were there only server.jsonc may change, and with exit
  -- code 0 it lists the clients, each of which has its file.
  pub record Inited (dir : Bytes) (mtu : ℤ) (count : Option ℕ) (subnet : Option Subnet)
      (files : Dict Bytes) (r : Saved ℕ) : Type 0 where
    pub kept :
        (path body : Bytes)
        → same (server_path dir) path ≡ false
        → get path files ≡ some body
        → get path r.1 ≡ some body
    pub done :
        r.0 ≡ 0
        → (net : Subnet) × (n : ℕ) × (subnet ≡ some net)
          × (count ≡ some n)
          × (peers : List (Bytes × Bytes)) × (length peers ≡ n)
          × (get (server_path dir) r.1
              ≡ some (
                  unlines (
                    server_lines
                      (net.base ++ codes ".1")
                      net.prefix
                      (bytes_to_hex (drawn 0))
                      mtu
                      peers)))
          × AllServed sys keys dir
              (pubkey_of keys (bytes_to_hex (drawn 0)))
              net
              mtu
              drawn
              r.1
              1
              (hosts_of (reserve n net).0)
              peers

  failed-Inited :
      (dir : Bytes) (mtu : ℤ) (count : Option ℕ) (subnet : Option Subnet) (files out : Dict Bytes)
      → ((path body : Bytes) → get path files ≡ some body → get path out ≡ some body)
      → Inited dir mtu count subnet files (1, out)
  failed-Inited dir mtu count subnet files out k = record {
    kept = λ path b other there. k path b there;
    done = λ h. absurd (omega arith);
  }

  -- A client's file is not the server's.
  other_file : (dir : Bytes) (i : ℕ) → same (server_path dir) (file_name dir i) ≡ false
  unfolding file_name client_name same
  other_file dir i = same-append dir (codes "/server.jsonc") _

  if-Inited :
      (dir : Bytes) (mtu : ℤ) (count : Option ℕ) (subnet : Option Subnet) (files : Dict Bytes)
      (b : Bool) (x y : Saved ℕ)
      → (b ≡ true → Inited dir mtu count subnet files x)
      → (b ≡ false → Inited dir mtu count subnet files y)
      → Inited dir mtu count subnet files (if b then x else y)
  if-Inited dir mtu count subnet files true x y p q = p refl
  if-Inited dir mtu count subnet files false x y p q = q refl

  module _ (whole : IsWhole sys) (dir : Bytes) (net : Subnet) (mtu : ℤ) (n : ℕ)
      (files : Dict Bytes) where
    abbrev pub server_pk : Bytes
    server_pk = pubkey_of keys (bytes_to_hex (drawn 0))

    saved-Inited :
        (m : Made) (r : Saved Bool)
        → Extends sys keys dir server_pk net mtu drawn 1 (hosts_of (reserve n net).0) files m
        → Wrote
            (server_path dir)
            (server_config (net.base ++ codes ".1") net.prefix (bytes_to_hex (drawn 0)) mtu m.peers)
            m.files
            r
        → (m.result ≡ true → length m.peers ≡ n)
        → m.result ≡ true
        → Inited dir mtu (some n) (some net) files (and_then r (λ out. (0, out)))
    saved-Inited m (false, out) e w count made = record {
      kept = λ path b other there. w.others path other ∙ e.keeps path b there;
      done = λ h. absurd (omega arith);
    }
    saved-Inited m (true, out) e w count made = record {
      kept = λ path b other there. w.others path other ∙ e.keeps path b there;
      done = λ h. (
        net,
        n,
        refl,
        refl,
        m.peers,
        count made,
        w.written refl
            ∙ ap some (
                server_config-unlines (net.base ++ codes ".1") net.prefix (bytes_to_hex (drawn 0))
                  mtu m.peers),
        AllServed-Keeps sys keys dir server_pk net mtu drawn m.files out 1
            (hosts_of (reserve n net).0) m.peers
            (λ i b there. w.others (file_name dir i) (other_file dir i) ∙ there) (e.served made),
      );
    }

    save_server-Inited :
        (m : Made)
        → Extends sys keys dir server_pk net mtu drawn 1 (hosts_of (reserve n net).0) files m
        → (m.result ≡ true → length m.peers ≡ n)
        → Inited dir mtu
            (some n)
            (some net)
            files
            (save_server sys directory keys drawn dir net mtu m)
    save_server-Inited m e count =
        let body =
          server_config (net.base ++ codes ".1") net.prefix (bytes_to_hex (drawn 0)) mtu m.peers in
        let r = write_secret sys (server_path dir) body m.files in
        if-Inited dir mtu (some n) (some net) files m.result (and_then r (λ out. (0, out)))
          (1, m.files)
          (saved-Inited m r e
            (write_secret-Wrote sys whole (server_path dir) body m.files e.distinct) count)
          (λ _. failed-Inited dir mtu (some n) (some net) files m.files e.keeps)

  in_subnet-Inited :
      (whole : IsWhole sys) (dir : Bytes) (n : ℕ) (mtu : ℤ) (files : Dict Bytes) (o : Option Subnet)
      → Distinct files
      → Inited dir mtu (some n) o files (in_subnet sys directory keys drawn dir n mtu files o)
  in_subnet-Inited whole dir n mtu files none d =
      failed-Inited dir mtu (some n) none files files (λ path b there. there)
  in_subnet-Inited whole dir n mtu files (some net) d =
      let server_pk = pubkey_of keys (bytes_to_hex (drawn 0)) in
      let m = make_clients sys keys dir server_pk net mtu drawn n 1 1 files in
      let fails = failed-Inited dir mtu (some n) (some net) files files (λ path b there. there) in
      if-Inited dir mtu (some n) (some net) files (not (directory.creates dir)) (1, files)
        (if not (directory.chmods dir)
          then (1, files)
          else save_server sys directory keys drawn dir net mtu m)
        (λ _. fails)
        (λ _.
          if-Inited dir mtu (some n) (some net) files (not (directory.chmods dir)) (1, files)
            (save_server sys directory keys drawn dir net mtu m) (λ _. fails)
            (λ _.
              save_server-Inited whole dir net mtu n files m
                (make_clients-Extends sys keys dir server_pk net mtu drawn whole n 1 1 files d)
                (make_clients_count sys keys dir server_pk net mtu drawn whole n 1 1 files d)))

  counted-Inited :
      (whole : IsWhole sys) (dir subnet : Bytes) (mtu : ℤ) (files : Dict Bytes) (o : Option ℕ)
      → Distinct files
      → Inited dir mtu o
          (subnet_of subnet)
          files
          (counted sys directory keys drawn dir subnet mtu files o)
  counted-Inited whole dir subnet mtu files none d =
      failed-Inited dir mtu none (subnet_of subnet) files files (λ path b there. there)
  counted-Inited whole dir subnet mtu files (some n) d =
      if-Inited dir mtu (some n) (subnet_of subnet) files (not (validate_mtu mtu).valid) (1, files)
        _
        (λ _. failed-Inited dir mtu (some n) (subnet_of subnet) files files (λ path b there. there))
        (λ _. in_subnet-Inited whole dir n mtu files (subnet_of subnet) d)

  -- When no path stands twice among the files and the system's writes are whole, whatever init ends
  -- with, no file that was there is touched but server.jsonc; with code 0 that file holds, line by
  -- line, the server's configuration for the subnet and the MTU of the options with the keys and
  -- addresses of as many clients as the options ask for, and each of them has its file with its
  -- address and seed.
  pub cmd_init-Inited :
      (whole : IsWhole sys) (dir : Bytes) (args : List Bytes) (files : Dict Bytes)
      → Distinct files
      → Inited dir
          (mtu_of (last_option (codes "--mtu") none args))
          (parse_count args 1)
          (subnet_of (or_default (last_option (codes "--subnet") none args) (codes "10.0.0.0/24")))
          files
          (cmd_init sys directory keys drawn (dir ∷ args) files)
  unfolding cmd_init
  cmd_init-Inited whole dir args files d =
      counted-Inited whole dir
        (or_default (last_option (codes "--subnet") none args) (codes "10.0.0.0/24"))
        (mtu_of (last_option (codes "--mtu") none args)) files (parse_count args 1) d
