-- ===== src/Commands/ClientText.antt =====
-- cpp/commands.cpp: a client's file part by part, and that it has no comment.
use nospoon.Base.{
  ◌≡◌, refl, sym, ap, ◌∙◌, ℕ, true, [], ◌∷◌, ◌++◌, Bytes, codes, all, is_digit, append_assoc,
}
use nospoon.Base.Int.{pos, decimal_int}
use nospoon.Base.Numerals.{decimal}
use nospoon.Config.Strip.{strip, outside, start}
use nospoon.Config.Plain.{IsValue, field, strip-quoted, strip-digits}
use nospoon.Commands.Clients.{client_config}
use nospoon.Commands.Names.{decimal-Spells}

-- The parts of the file that are the same for every client.
abbrev pub chunk0 : Bytes
chunk0 = codes "{\n  \"mode\": \"client\",\n  \"server\": "

abbrev pub chunk1 : Bytes
chunk1 = codes ",\n  \"ip\": "

abbrev pub chunk2 : Bytes
chunk2 = codes ",\n  \"seed\": "

abbrev pub chunk3 : Bytes
chunk3 = codes ",\n  \"mtu\": "

abbrev pub chunk4 : Bytes
chunk4 = codes "\n}\n"

abbrev pub network_of : Bytes → ℕ → Bytes
network_of ip prefix = ip ++ (b'/' ∷ decimal prefix)

-- The file, part by part.
abbrev pub layout_of : Bytes → Bytes → Bytes → ℕ → Bytes
layout_of server_pk network seed mtu =
    chunk0
    ++ (field server_pk chunk1
        ++ (field network chunk2 ++ (field seed chunk3 ++ (decimal mtu ++ chunk4))))

module _ (server_pk ip : Bytes) (prefix : ℕ) (seed : Bytes) (mtu : ℕ) where
  abbrev network : Bytes
  network = network_of ip prefix

  abbrev layout : Bytes
  layout = layout_of server_pk network seed mtu

  pub layout_lem : client_config server_pk ip (pos prefix) seed (pos mtu) ≡ layout
  unfolding client_config decimal_int
  layout_lem = simp append_assoc

  -- The file has no comment.
  chunk_stays :
      (r : Bytes)
      → (strip outside (chunk0 ++ (b'"' ∷ r)) ≡ chunk0 ++ strip outside (b'"' ∷ r))
        × (strip outside (chunk1 ++ (b'"' ∷ r)) ≡ chunk1 ++ strip outside (b'"' ∷ r))
        × (strip outside (chunk2 ++ (b'"' ∷ r)) ≡ chunk2 ++ strip outside (b'"' ∷ r))
        × (strip outside chunk4 ≡ chunk4)
  unfolding strip start
  chunk_stays r = (refl, refl, refl, refl)

  mtu_stays :
      (s : Bytes)
      → all is_digit s ≡ true
      → strip outside (chunk3 ++ (s ++ chunk4)) ≡ chunk3 ++ (s ++ chunk4)
  unfolding strip start
  mtu_stays [] h = refl
  mtu_stays (c ∷ s) h =
      ap (λ (t : Bytes). chunk3 ++ t)
        (strip-digits (c ∷ s) b'\n' (codes "}\n") h
          ∙ ap (λ (t : Bytes). (c ∷ s) ++ t) (chunk_stays []).3)

  module _ (pk_value : IsValue server_pk) (net_value : IsValue network)
      (seed_value : IsValue seed) where
    field_stays :
        (v chunk r : Bytes)
        → IsValue v
        → strip outside (field v chunk ++ r) ≡ b'"' ∷ (v ++ (b'"' ∷ strip outside (chunk ++ r)))
    field_stays v chunk r h =
        ap (λ (t : Bytes). strip outside (b'"' ∷ t)) (append_assoc v (b'"' ∷ chunk) r)
        ∙ strip-quoted v (chunk ++ r) h

    pub layout_stays : strip outside layout ≡ layout
    layout_stays =
        let t3 = decimal mtu ++ chunk4 in
        let t2 = field seed chunk3 ++ t3 in
        let t1 = field network chunk2 ++ t2 in
        let q3 = mtu_stays (decimal mtu) (decimal-Spells mtu).digits in
        let q2 : strip outside t2 ≡ t2 =
          field_stays seed chunk3 t3 seed_value
          ∙ (ap (λ (t : Bytes). b'"' ∷ (seed ++ (b'"' ∷ t))) q3
              ∙ ap (λ (t : Bytes). b'"' ∷ t) (sym (append_assoc seed (b'"' ∷ chunk3) t3))) in
        let q1 : strip outside t1 ≡ t1 =
          field_stays network chunk2 t2 net_value
          ∙ (ap (λ (t : Bytes). b'"' ∷ (network ++ (b'"' ∷ t)))
                ((chunk_stays (seed ++ (b'"' ∷ chunk3) ++ t3)).2
                  ∙ ap (λ (t : Bytes). chunk2 ++ t) q2)
              ∙ ap (λ (t : Bytes). b'"' ∷ t) (sym (append_assoc network (b'"' ∷ chunk2) t2))) in
        let q0 : strip outside (field server_pk chunk1 ++ t1) ≡ field server_pk chunk1 ++ t1 =
          field_stays server_pk chunk1 t1 pk_value
          ∙ (ap (λ (t : Bytes). b'"' ∷ (server_pk ++ (b'"' ∷ t)))
                ((chunk_stays (network ++ (b'"' ∷ chunk2) ++ t2)).1
                  ∙ ap (λ (t : Bytes). chunk1 ++ t) q1)
              ∙ ap (λ (t : Bytes). b'"' ∷ t) (sym (append_assoc server_pk (b'"' ∷ chunk1) t1))) in
        (chunk_stays (server_pk ++ (b'"' ∷ chunk1) ++ t1)).0 ∙ ap (λ (t : Bytes). chunk0 ++ t) q0
