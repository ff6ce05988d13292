-- ===== src/Commands/Wanted.antt =====
-- The texts that `init` and `addclient` of cpp/commands.cpp are to write, line by line.
use nospoon.Base.{◌≡◌, refl, ap, sym, ◌∙◌, List, [], ◌∷◌, ◌++◌, Bytes, codes, append_assoc}
use nospoon.Base.Int.{ℤ, decimal_int}
use nospoon.Commands.{entries}

-- Each line with its end.
abbrev pub unlines : List Bytes → Bytes
unlines [] = []
unlines (l ∷ ls) = l ++ (b'\n' ∷ unlines ls)

abbrev pub client_lines : Bytes → Bytes → ℤ → Bytes → ℤ → List Bytes
client_lines server_pk ip prefix seed mtu =
    codes "{"
    ∷ codes "  \"mode\": \"client\","
    ∷ (codes "  \"server\": \"" ++ (server_pk ++ codes "\","))
    ∷ (codes "  \"ip\": \"" ++ (ip ++ (codes "/" ++ (decimal_int prefix ++ codes "\","))))
    ∷ (codes "  \"seed\": \"" ++ (seed ++ codes "\","))
    ∷ (codes "  \"mtu\": " ++ decimal_int mtu)
    ∷ codes "}"
    ∷ []

abbrev pub peer_entry : Bytes × Bytes → Bytes
peer_entry (pk, ip) = codes "    \"" ++ (pk ++ (codes "\": \"" ++ (ip ++ codes "\"")))

-- A comma behind all but the last.
abbrev pub listing : List (Bytes × Bytes) → List Bytes
listing [] = []
listing (p ∷ []) = peer_entry p ∷ []
listing (p ∷ q ∷ ps) = (peer_entry p ++ codes ",") ∷ listing (q ∷ ps)

abbrev pub server_lines : Bytes → ℤ → Bytes → ℤ → List (Bytes × Bytes) → List Bytes
server_lines ip prefix seed mtu peers =
    codes "{"
    ∷ codes "  \"mode\": \"server\","
    ∷ (codes "  \"ip\": \"" ++ (ip ++ (codes "/" ++ (decimal_int prefix ++ codes "\","))))
    ∷ (codes "  \"seed\": \"" ++ (seed ++ codes "\","))
    ∷ (codes "  \"mtu\": " ++ (decimal_int mtu ++ codes ","))
    ∷ codes "  // Allowlist: only these public keys may connect. Remove the block"
    ∷ codes "  // to accept any key (open mode). `nospoon addclient` appends here."
    ∷ codes "  \"peers\": {"
    ∷ (listing peers ++ (codes "  }" ∷ codes "}" ∷ []))

pub unlines-append : (a b : List Bytes) → unlines (a ++ b) ≡ unlines a ++ unlines b
unlines-append [] b = refl
unlines-append (l ∷ a) b =
    ap (λ (t : Bytes). l ++ (b'\n' ∷ t)) (unlines-append a b)
    ∙ sym (append_assoc l (b'\n' ∷ unlines a) (unlines b))

-- Each new entry on a line of its own, in front of what was there.
abbrev pub added_lines : List (Bytes × Bytes) → Bytes
added_lines [] = []
added_lines (p ∷ ps) = b'\n' ∷ (peer_entry p ++ (codes "," ++ added_lines ps))

pub entries-added_lines : (peers : List (Bytes × Bytes)) → entries peers ≡ added_lines peers
unfolding entries
entries-added_lines [] = refl
entries-added_lines ((pk, ip) ∷ peers) =
    ap (λ (t : Bytes). codes "\n    \"" ++ (pk ++ (codes "\": \"" ++ (ip ++ (codes "\"," ++ t)))))
      (entries-added_lines peers)
    ∙ simp append_assoc
