-- ===== src/Commands/Allowlist.antt =====
-- cpp/commands.cpp and cpp/config.hpp: the peers that `addclient` puts into a configuration, as they
-- are read.
use nospoon.Base.{
  some, find_from, starts_with, ◌≡◌, refl, sym, ap, ◌∙◌, ℕ, suc, ◌+◌, ◌≤◌, Bool, true, false, List,
  [], ◌∷◌, ◌++◌, Bytes, codes, all, All, arith, append_assoc, length, length-append, take,
  take-length, drop, ◌==◌, if◌then◌else◌,
}
use nospoon.Base.Dict.{Dict, get, put}
use nospoon.Config.Json.{quoted, json_peers, read_pairs}
use nospoon.Config.Key.{NoByte, AllSpaces, drop_prefix}
use nospoon.Commands.Addclient.{find_brace, find_text, brace_from}
use nospoon.Config.Plain.{is_clear, mismatch_lem, clear-Skips, IsValue, is_value}
use nospoon.Config.Pairs.{
  read_pairs_fuel, read_pairs-byte, read_pairs-written, get-read_pairs, first_of,
}
use nospoon.Config.Block.{find_from-skip, with_block, up_to_brace, json_peers-block}
use nospoon.Commands.{entries, insert_peers}

abbrev pub ArePlain : List (Bytes × Bytes) → Type 0
ArePlain = All (λ p. IsValue p.0 × IsValue p.1)

-- The peers put into a map in turn.
unfoldable pub put_all : List (Bytes × Bytes) → Dict Bytes → Dict Bytes
unfolding put
put_all [] m = m
put_all ((pk, ip) ∷ peers) m = put_all peers (put pk ip m)

value-NoByte : (b : ℕ) (s : Bytes) → is_value b ≡ false → IsValue s → NoByte b s
value-NoByte b [] k h = refl
value-NoByte b (c ∷ s) k h = ground (arith, value-NoByte b s)

all-append : (f : ℕ → Bool) (s t : Bytes) → all f s ≡ true → all f t ≡ true → all f (s ++ t) ≡ true
all-append f [] t h k = k
all-append f (c ∷ s) t h k = ground (arith, all-append f s t)

-- One entry, in front of what follows.
abbrev entry : Bytes → Bytes → Bytes → Bytes
entry pk ip rest =
    codes "\n    "
    ++ (b'"' ∷ (pk ++ (b'"' ∷ (codes ": " ++ (b'"' ∷ (ip ++ (b'"' ∷ (b',' ∷ rest))))))))

entries_cons :
    (pk ip : Bytes) (peers : List (Bytes × Bytes)) (old : Bytes)
    → entries ((pk, ip) ∷ peers) ++ old ≡ entry pk ip (entries peers ++ old)
unfolding entries
entries_cons pk ip peers old = simp append_assoc

-- The fuel for the entries and what follows them.
unfoldable rounds : List (Bytes × Bytes) → ℕ → ℕ
rounds [] f = f
rounds (_ ∷ peers) f = suc (rounds peers f)

rounds_le : (peers : List (Bytes × Bytes)) (f : ℕ) → f ≤ rounds peers f
unfolding rounds
rounds_le [] f = omega arith
rounds_le (_ ∷ peers) f = ground (arith, rounds_le peers f)

-- Each entry takes a round of the loop.
entries-read :
    (peers : List (Bytes × Bytes)) (f : ℕ) (old : Bytes) (m : Dict Bytes)
    → ArePlain peers
    → read_pairs (rounds peers f) (entries peers ++ old) m ≡ read_pairs f old (put_all peers m)
unfolding put_all entries rounds
entries-read [] f old m h = refl
entries-read ((pk, ip) ∷ peers) f old m h =
    ap (λ (s : Bytes). read_pairs (suc (rounds peers f)) s m) (entries_cons pk ip peers old)
    ∙ (read_pairs-written (rounds peers f) (codes "\n    ") pk (codes ": ") ip
          (b',' ∷ (entries peers ++ old)) m refl (value-NoByte b'"' pk refl h.0.0) refl
          (value-NoByte b'"' ip refl h.0.1)
        ∙ (read_pairs-byte b',' (rounds peers f) (entries peers ++ old) (put pk ip m) refl
            ∙ entries-read peers f old (put pk ip m) h.1))

entries-NoByte : (peers : List (Bytes × Bytes)) → ArePlain peers → NoByte b'}' (entries peers)
unfolding entries
entries-NoByte [] h = refl
entries-NoByte ((pk, ip) ∷ peers) h =
    let no_end : ℕ → Bool = λ c. if c == b'}' then false else true in
    all-append no_end pk _ (value-NoByte b'}' pk refl h.0.0)
      (all-append no_end ip _ (value-NoByte b'}' ip refl h.0.1) (entries-NoByte peers h.1))

-- Where the name begins nowhere in front, it is found.
find_text_clear :
    (s t : Bytes)
    → is_clear (quoted (codes "peers")) s ≡ true
    → find_text (quoted (codes "peers")) (s ++ (quoted (codes "peers") ++ t)) ≡ some (length s)
unfolding find_text is_clear starts_with
find_text_clear [] t h = refl
find_text_clear (c ∷ s) t h =
    let apart =
      mismatch_lem (quoted (codes "peers")) (c ∷ s) (quoted (codes "peers") ++ t) (ground arith) in
    rw (apart, find_text_clear s t (ground arith))

spaces-NoByte : (ws : Bytes) → AllSpaces ws → NoByte b'{' ws
spaces-NoByte [] h = refl
spaces-NoByte (c ∷ ws) h = ground (arith, spaces-NoByte ws)

some_place-injective : {m n : ℕ} → some m ≡ some n → m ≡ n
some_place-injective h = cc h

brace_from-name :
    (raw : Bytes) (name brace : ℕ)
    → find_text (quoted (codes "peers")) raw ≡ some name
    → find_from b'{' name raw ≡ some brace
    → find_brace raw ≡ some brace
unfolding find_brace
brace_from-name raw name brace h k = ap (brace_from raw) h ∙ k

module _ (pre ws gap old rest : Bytes) (peers : List (Bytes × Bytes)) where
  abbrev raw : Bytes
  raw = with_block pre ws gap old rest

  abbrev place : ℕ
  place = length (up_to_brace pre ws gap)

  inserted : insert_peers raw place peers ≡ with_block pre ws gap (entries peers ++ old) rest
  unfolding insert_peers
  inserted =
      let front : Bytes = up_to_brace pre ws gap ++ (b'{' ∷ []) in
      let flat : raw ≡ front ++ (old ++ (b'}' ∷ rest)) = simp append_assoc in
      let count : place + 1 ≡ length front =
        omega (arith, length-append (up_to_brace pre ws gap) (b'{' ∷ [])) in
      let before : take (place + 1) raw ≡ front =
        ap (λ (n : ℕ). take n raw) count
        ∙ (ap (take (length front)) flat ∙ take-length front (old ++ (b'}' ∷ rest))) in
      let behind : drop (place + 1) raw ≡ old ++ (b'}' ∷ rest) =
        drop_prefix (place + 1) front (old ++ (b'}' ∷ rest)) raw flat count in
      rw (before, behind) (simp append_assoc)

  -- A configuration with a block of peers, whose key json_peers finds, blanks at most in front of
  -- its colon, no brace between the colon and the block, and no closing brace inside: behind
  -- addclient's insertion of peers whose keys and addresses have hex digits, dots, colons and
  -- slashes only, json_peers gives each key the address that the block had for it, and else the one
  -- that was inserted.
  -- The brace that is looked for is the block's.
  brace_is_place :
      (brace : ℕ)
      → is_clear (quoted (codes "peers")) pre ≡ true
      → AllSpaces ws
      → NoByte b'{' gap
      → find_brace raw ≡ some brace
      → brace ≡ place
  brace_is_place brace clear blank opens found =
      let name = quoted (codes "peers") in
      let middle = name ++ (ws ++ (b':' ∷ gap)) in
      let behind = b'{' ∷ (old ++ (b'}' ∷ rest)) in
      let flat : raw ≡ pre ++ (name ++ ((ws ++ (b':' ∷ gap)) ++ behind)) = simp append_assoc in
      let cut : raw ≡ pre ++ (middle ++ behind) = append_assoc pre middle behind in
      let named : find_text name raw ≡ some (length pre) =
        ap (find_text name) flat ∙ find_text_clear pre ((ws ++ (b':' ∷ gap)) ++ behind) clear in
      let free : NoByte b'{' middle =
        all-append (λ c. if c == b'{' then false else true) ws (b':' ∷ gap) (spaces-NoByte ws blank)
          opens in
      let opened : find_from b'{' (length pre) raw ≡ some (length pre + length middle) =
        find_from-skip b'{' (length pre) raw middle (old ++ (b'}' ∷ rest))
          (drop_prefix (length pre) pre (middle ++ behind) raw cut refl) free in
      some_place-injective
        (sym found ∙ brace_from-name raw (length pre) (length pre + length middle) named opened)
      ∙ sym (length-append pre middle)

  -- A text with a block of peers, the quoted name peers nowhere in front, blanks at most in front of
  -- its colon, no brace between the colon and the block, and no closing brace inside: behind the
  -- insertion at the brace that addclient finds, of peers whose keys and addresses have hex digits,
  -- dots, colons and slashes only, json_peers gives each key the address that the block had for it,
  -- and else the one that was inserted.
  pub json_peers-insert_peers :
      (k : Bytes) (brace : ℕ)
      → find_brace raw ≡ some brace
      → is_clear (quoted (codes "peers")) pre ≡ true
      → AllSpaces ws
      → NoByte b'{' gap
      → NoByte b'}' old
      → ArePlain peers
      → get k (json_peers (insert_peers raw brace peers))
        ≡ first_of (get k (json_peers raw)) (get k (put_all peers []))
  json_peers-insert_peers k brace found clear blank opens closes plain =
      let h = clear-Skips (codes "peers") pre clear in
      let block = entries peers ++ old in
      let fuel = suc (length block) in
      let enough = rounds_le peers fuel in
      let new_read =
        json_peers-block pre ws gap block rest h blank opens
          (all-append _ (entries peers) old (entries-NoByte peers plain) closes) in
      let old_read = json_peers-block pre ws gap old rest h blank opens closes in
      ap (λ (b : ℕ). get k (json_peers (insert_peers raw b peers)))
        (brace_is_place brace clear blank opens found)
      ∙ ap (λ (t : Bytes). get k (json_peers t)) inserted
      ∙ ap (get k) (
          new_read
          ∙ read_pairs_fuel fuel (rounds peers fuel) block [] (omega arith) (omega arith)
          ∙ entries-read peers fuel old [] plain
          ∙ read_pairs_fuel fuel (suc (length old)) old (put_all peers [])
              (omega (arith, length-append (entries peers) old)) (omega arith))
      ∙ get-read_pairs k (suc (length old)) old (put_all peers [])
      ∙ ap (λ (d : Dict Bytes). first_of (get k d) (get k (put_all peers []))) (sym old_read)
