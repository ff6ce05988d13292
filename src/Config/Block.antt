-- ===== src/Config/Block.antt =====
-- `json_peers` on a text that has the block.
use nospoon.Base.{
  ℕ, suc, ◌+◌, ◌-◌, ◌≡◌, refl, sym, ap, ◌∙◌, [], ◌∷◌, ◌++◌, append_assoc, some, arith, length,
  length-append, take, take-length, drop, drop-length, Bytes, codes, find_from,
}
use nospoon.Config.Json.{
  find_key, find_key_from, quoted, read_pairs, json_peers, peers_at, block_at, block_to,
}
use nospoon.Config.Key.{NoByte, find-skip, AllSpaces, find_key_from-here, drop_prefix}
use nospoon.Config.Plain.{Skips}

pub find_from-skip :
    (b n : ℕ) (json xs s : Bytes)
    → drop n json ≡ xs ++ (b ∷ s)
    → NoByte b xs
    → find_from b n json ≡ some (n + length xs)
unfolding find_from
find_from-skip b n json xs s e h = rw (e, find-skip b xs s h)

module _ (pre ws gap : Bytes) where
  abbrev pub up_to_brace : Bytes
  up_to_brace = pre ++ (quoted (codes "peers") ++ (ws ++ (b':' ∷ gap)))

  -- A text with a block of peers.
  abbrev pub with_block : Bytes → Bytes → Bytes
  with_block block rest = up_to_brace ++ (b'{' ∷ (block ++ (b'}' ∷ rest)))

  module _ (block rest : Bytes) where
    abbrev text : Bytes
    text = with_block block rest

    abbrev up_to_colon : Bytes
    up_to_colon = pre ++ (quoted (codes "peers") ++ (ws ++ (b':' ∷ [])))

    brace_length : length up_to_brace ≡ length up_to_colon + length gap
    brace_length = omega (
      arith,
      length-append pre (quoted (codes "peers") ++ (ws ++ (b':' ∷ gap))),
      length-append (quoted (codes "peers")) (ws ++ (b':' ∷ gap)),
      length-append ws (b':' ∷ gap),
      length-append pre (quoted (codes "peers") ++ (ws ++ (b':' ∷ []))),
      length-append (quoted (codes "peers")) (ws ++ (b':' ∷ [])),
      length-append ws (b':' ∷ []),
    )

    peers_found :
        Skips (codes "peers") pre
        → AllSpaces ws
        → find_key text (codes "peers") ≡ some (length up_to_colon)
    unfolding find_key
    peers_found h blank =
        let behind = gap ++ (b'{' ∷ (block ++ (b'}' ∷ rest))) in
        let flat : text ≡ pre ++ (quoted (codes "peers") ++ (ws ++ (b':' ∷ behind))) =
          simp append_assoc in
        ap (find_key_from (quoted (codes "peers")) 0) flat
        ∙ (h (quoted (codes "peers") ++ (ws ++ (b':' ∷ behind))) 0
            ∙ (find_key_from-here (codes "peers") ws behind blank (0 + length pre)
                ∙ ap some (
                    omega (
                      arith,
                      length-append pre (quoted (codes "peers") ++ (ws ++ (b':' ∷ []))),
                      length-append (quoted (codes "peers")) (ws ++ (b':' ∷ [])),
                      length-append ws (b':' ∷ []),
                    ))))

    brace_found :
        NoByte b'{' gap → find_from b'{' (length up_to_colon) text ≡ some (length up_to_brace)
    brace_found h =
        find_from-skip b'{' (length up_to_colon) text gap (block ++ (b'}' ∷ rest))
          (drop_prefix (length up_to_colon) up_to_colon (gap ++ (b'{' ∷ (block ++ (b'}' ∷ rest))))
            text (simp append_assoc) refl)
          h
        ∙ ap some (sym brace_length)

    end_found :
        NoByte b'}' block
        → find_from b'}' (length up_to_brace) text ≡ some (length up_to_brace + suc (length block))
    end_found h =
        find_from-skip b'}' (length up_to_brace) text (b'{' ∷ block) rest
          (drop-length up_to_brace (b'{' ∷ (block ++ (b'}' ∷ rest)))) h

    block_cut :
        take
          (length up_to_brace + suc (length block) - length up_to_brace - 1)
          (drop (length up_to_brace + 1) text)
        ≡ block
    block_cut =
        ap (λ (n : ℕ). take n (drop (length up_to_brace + 1) text))
          (sub_lem (length up_to_brace) (length block))
        ∙ (ap (take (length block)) (
              drop_prefix (length up_to_brace + 1) (up_to_brace ++ (b'{' ∷ []))
                (block ++ (b'}' ∷ rest)) text (simp append_assoc)
                (omega (arith, length-append up_to_brace (b'{' ∷ []))))
            ∙ take-length block (b'}' ∷ rest))
      where
        sub_lem : (a b : ℕ) → a + suc b - a - 1 ≡ b
        sub_lem a b = omega arith

    pub json_peers-block :
        Skips (codes "peers") pre
        → AllSpaces ws
        → NoByte b'{' gap
        → NoByte b'}' block
        → json_peers text ≡ read_pairs (suc (length block)) block []
    unfolding json_peers
    json_peers-block h blank opens closes =
        ap (peers_at text) (peers_found h blank)
        ∙ (ap (block_at text) (brace_found opens)
            ∙ (ap (block_to text (length up_to_brace)) (end_found closes)
                ∙ ap (λ (b : Bytes). read_pairs (suc (length b)) b []) block_cut))
