-- ===== src/Commands/ClientFile.antt =====
-- cpp/commands.cpp and cpp/config.hpp: a client's file is read back by `load_config`.
use nospoon.Base.{
  ◌≡◌, refl, sym, ap, subst, ◌∙◌, ℕ, true, false, [], ◌∷◌, ◌++◌, none, some, Bytes, codes, all,
  is_digit, append_assoc, is_empty,
}
use nospoon.Base.Int.{pos}
use nospoon.Base.Numerals.{decimal, read_digits}
use nospoon.Config.{Config, loaded, Files, parse_fields, check_fields, load_config, load_seed}
use nospoon.Config.Strip.{strip, strip_comments, outside}
use nospoon.Config.Json.{
  quoted, find_key, json_string, json_int, json_bool, json_peers, peers_at, bool_at, read_text,
  closing, unescape,
}
use nospoon.Config.Plain.{
  IsValue, IsWord, Skips, clear-Skips, append-Skips, field, field-Skips, digits-Skips,
  find_key-Skips, json_string-value, json_string-absent, is_clear, mismatch, read_text-value,
}
use nospoon.Config.Number.{json_int-digits}
use nospoon.Commands.Clients.{client_config}
use nospoon.Commands.ClientText.{
  chunk0, chunk1, chunk2, chunk3, chunk4, network_of, layout_of, layout_lem, layout_stays,
}
use nospoon.Commands.Names.{decimal-Spells, decimal-cons}

module _ (server_pk ip : Bytes) (prefix : ℕ) (seed : Bytes) (mtu : ℕ) where
  abbrev network : Bytes
  network = network_of ip prefix

  abbrev layout : Bytes
  layout = layout_of server_pk network seed mtu

  -- The configuration that a client has in mind.
  abbrev pub expected : Config
  expected = record {
    mode = codes "client";
    ip = network;
    ipv6 = [];
    seed = seed;
    seed_file = [];
    server_key = server_pk;
    mtu = pos mtu;
    peers = [];
    full_tunnel = false;
    out_iface = [];
  }

  module _ (pk_value : IsValue server_pk) (net_value : IsValue network)
      (seed_value : IsValue seed) where
    -- A key that the file does not have.
    absent :
        (key : Bytes)
        → IsWord key
        → is_clear (quoted key) chunk0 ≡ true
        → is_clear (quoted key) (b'"' ∷ chunk1) ≡ true
        → is_clear (quoted key) (b'"' ∷ chunk2) ≡ true
        → is_clear (quoted key) (b'"' ∷ chunk3) ≡ true
        → is_clear (quoted key) chunk4 ≡ true
        → find_key layout key ≡ none
    absent key w h0 h1 h2 h3 h4 =
        let t3 = decimal mtu ++ chunk4 in
        let t2 = field seed chunk3 ++ t3 in
        let t1 = field network chunk2 ++ t2 in
        find_key-Skips key layout (
          append-Skips key chunk0 (field server_pk chunk1 ++ t1) (clear-Skips key chunk0 h0) (
            append-Skips key (field server_pk chunk1) t1
              (field-Skips key server_pk chunk1 w pk_value h1)
              (append-Skips key (field network chunk2) t2
                (field-Skips key network chunk2 w net_value h2)
                (append-Skips key (field seed chunk3) t3
                  (field-Skips key seed chunk3 w seed_value h3)
                  (append-Skips key (decimal mtu) chunk4
                    (digits-Skips key (decimal mtu) (decimal-Spells mtu).digits)
                    (clear-Skips key chunk4 h4))))))

    present :
        (pre key v rest : Bytes)
        → layout ≡ pre ++ (quoted key ++ (codes ": " ++ (b'"' ∷ (v ++ (b'"' ∷ rest)))))
        → Skips key pre
        → read_text (v ++ (b'"' ∷ rest)) ≡ v
        → json_string layout key ≡ v
    present pre key v rest e h r =
        ap (λ (t : Bytes). json_string t key) e ∙ json_string-value pre key v rest h r

    mode_read : json_string layout (codes "mode") ≡ codes "client"
    unfolding is_clear mismatch read_text closing unescape
    mode_read =
        present (codes "{\n  ") (codes "mode") (codes "client")
          (codes ",\n  \"server\": "
            ++ (field server_pk chunk1
                ++ (field network chunk2 ++ (field seed chunk3 ++ (decimal mtu ++ chunk4)))))
          refl (clear-Skips (codes "mode") (codes "{\n  ") refl) refl

    server_read : json_string layout (codes "server") ≡ server_pk
    unfolding is_clear mismatch
    server_read =
        let pre = codes "{\n  \"mode\": \"client\",\n  " in
        let t1 = field network chunk2 ++ (field seed chunk3 ++ (decimal mtu ++ chunk4)) in
        present pre (codes "server") server_pk (chunk1 ++ t1) (simp append_assoc)
          (clear-Skips (codes "server") pre refl)
          (read_text-value server_pk (chunk1 ++ t1) pk_value)

    -- The places of the other keys.
    abbrev upto_ip : Bytes
    upto_ip = chunk0 ++ field server_pk (codes ",\n  ")

    abbrev upto_seed : Bytes
    upto_seed = chunk0 ++ (field server_pk chunk1 ++ field network (codes ",\n  "))

    abbrev upto_mtu : Bytes
    upto_mtu =
        chunk0 ++ (field server_pk chunk1 ++ (field network chunk2 ++ field seed (codes ",\n  ")))

    ip_read : json_string layout (codes "ip") ≡ network
    unfolding is_clear mismatch
    ip_read =
        let key = codes "ip" in
        let t2 = field seed chunk3 ++ (decimal mtu ++ chunk4) in
        present upto_ip key network (chunk2 ++ t2) (simp append_assoc)
          (append-Skips key chunk0 (field server_pk (codes ",\n  ")) (clear-Skips key chunk0 refl)
            (field-Skips key server_pk (codes ",\n  ") (refl, refl) pk_value refl))
          (read_text-value network (chunk2 ++ t2) net_value)

    seed_read : json_string layout (codes "seed") ≡ seed
    unfolding is_clear mismatch
    seed_read =
        let key = codes "seed" in
        let t3 = decimal mtu ++ chunk4 in
        let here = field network (codes ",\n  ") in
        present upto_seed key seed (chunk3 ++ t3) (simp append_assoc)
          (append-Skips key chunk0 (field server_pk chunk1 ++ here) (clear-Skips key chunk0 refl) (
            append-Skips key (field server_pk chunk1) here
              (field-Skips key server_pk chunk1 (refl, refl) pk_value refl)
              (field-Skips key network (codes ",\n  ") (refl, refl) net_value refl)))
          (read_text-value seed (chunk3 ++ t3) seed_value)

    mtu-Skips : Skips (codes "mtu") upto_mtu
    unfolding is_clear mismatch
    mtu-Skips =
        let key = codes "mtu" in
        let here = field seed (codes ",\n  ") in
        append-Skips key chunk0 (field server_pk chunk1 ++ (field network chunk2 ++ here))
          (clear-Skips key chunk0 refl)
          (append-Skips key (field server_pk chunk1) (field network chunk2 ++ here)
            (field-Skips key server_pk chunk1 (refl, refl) pk_value refl)
            (append-Skips key (field network chunk2) here
              (field-Skips key network chunk2 (refl, refl) net_value refl)
              (field-Skips key seed (codes ",\n  ") (refl, refl) seed_value refl)))

    mtu_at :
        (c : ℕ) (s : Bytes)
        → decimal mtu ≡ c ∷ s
        → layout
          ≡ upto_mtu ++ (quoted (codes "mtu") ++ (b':' ∷ (b' ' ∷ c ∷ (s ++ (b'\n' ∷ codes "}\n")))))
    mtu_at c s e =
        ap
          (λ (d : Bytes).
            chunk0
            ++ (field server_pk chunk1
                ++ (field network chunk2 ++ (field seed chunk3 ++ (d ++ chunk4)))))
          e
        ∙ simp append_assoc

    mtu_read : json_int layout (codes "mtu") (pos 1400) ≡ pos mtu
    mtu_read =
        let (c, s, e) = decimal-cons mtu in
        let spelled = decimal-Spells mtu in
        ap (λ (t : Bytes). json_int t (codes "mtu") (pos 1400)) (mtu_at c s e)
        ∙ (json_int-digits upto_mtu (codes "mtu") c s (codes "}\n") mtu-Skips
              (subst (λ (d : Bytes). all is_digit d ≡ true) e spelled.digits) (pos 1400)
            ∙ ap pos (ap (read_digits 0) (sym e) ∙ spelled.value))

    none_read :
        (json_string layout (codes "ipv6") ≡ [])
        × (json_string layout (codes "seedFile") ≡ [])
        × (json_string layout (codes "outInterface") ≡ [])
        × (json_peers layout ≡ [])
        × (json_bool layout (codes "fullTunnel") false ≡ false)
    unfolding is_clear mismatch json_peers json_bool
    none_read =
        let no_ipv6 = absent (codes "ipv6") (refl, refl) refl refl refl refl refl in
        let no_file = absent (codes "seedFile") (refl, refl) refl refl refl refl refl in
        let no_iface = absent (codes "outInterface") (refl, refl) refl refl refl refl refl in
        let no_peers = absent (codes "peers") (refl, refl) refl refl refl refl refl in
        let no_tunnel = absent (codes "fullTunnel") (refl, refl) refl refl refl refl refl in
        (
          json_string-absent layout (codes "ipv6") no_ipv6,
          json_string-absent layout (codes "seedFile") no_file,
          json_string-absent layout (codes "outInterface") no_iface,
          ap (peers_at layout) no_peers,
          ap (bool_at layout false) no_tunnel,
        )

    fields_read : parse_fields layout ≡ expected
    unfolding parse_fields
    fields_read = rw (
      mode_read, ip_read, seed_read, server_read, mtu_read, none_read.0, none_read.1, none_read.2,
      none_read.3, none_read.4,
    )

    pub parse_fields-client_config :
        parse_fields (strip_comments (client_config server_pk ip (pos prefix) seed (pos mtu)))
        ≡ expected
    unfolding strip_comments
    parse_fields-client_config =
        ap (λ (t : Bytes). parse_fields (strip outside t)) (layout_lem server_pk ip prefix seed mtu)
        ∙ (ap parse_fields (layout_stays server_pk ip prefix seed mtu pk_value net_value seed_value)
            ∙ fields_read)

    -- A client's file is read back: when the server key, the network (the address, a slash, the
    -- prefix) and the seed have hex digits, dots, colons and slashes only, the seed is not empty and
    -- the configuration meant passes the checks, load_config gives exactly that configuration: mode
    -- client, the server key, the network, the seed, the MTU, and nothing else set.
    pub load_config-client_config :
        (files : Files) (path : Bytes)
        → files path ≡ some (client_config server_pk ip (pos prefix) seed (pos mtu))
        → check_fields expected ≡ loaded tt
        → is_empty seed ≡ false
        → load_config files path ≡ loaded expected
    unfolding load_config load_seed
    load_config-client_config files path there passes some_seed =
        rw (there, parse_fields-client_config, passes, some_seed)
