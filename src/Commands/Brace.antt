-- ===== src/Commands/Brace.antt =====
-- cpp/commands.cpp: the place where `addclient` puts its entries.
use nospoon.Base.{
  ◌≡◌, ◌≢◌, refl, ap, sym, ◌∙◌, ℕ, suc, ◌+◌, ◌≤◌, true, false, List, [], ◌∷◌, ◌++◌, Option, none,
  some, ◌==◌, ==_iff, Bool-cases, inl, inr, Bytes, codes, find, find_from, starts_with, length,
  length-append, take, take-length, drop, append_assoc, arith, is_empty,
}
use mathlib.Core.Option
use nospoon.Config.Key.{NoByte, drop_prefix, starts_with-append}
use nospoon.Commands.{insert_peers}
use nospoon.Commands.Addclient.{find_text, find_brace, brace_from}
use nospoon.Commands.Wanted.{added_lines, entries-added_lines}

-- The first brace behind the first place of "peers" with its quotes, be it in a comment or not.
pub record Opens (raw before behind : Bytes) : Type 0 where
  pub front : Bytes
  pub rest : Bytes
  pub gap : Bytes
  pub named : (v : Bytes) × (rest ≡ codes "\"peers\"" ++ v)
  pub first : (u v : Bytes) → raw ≡ u ++ (codes "\"peers\"" ++ v) → length front ≤ length u
  pub cut : raw ≡ front ++ rest
  pub opened : rest ≡ gap ++ (b'{' ∷ behind)
  pub no_brace : NoByte b'{' gap
  pub until : before ≡ front ++ gap

starts_with-split : (p s : Bytes) → starts_with p s ≡ true → (v : Bytes) × (s ≡ p ++ v)
unfolding starts_with
starts_with-split [] s h = (s, refl)
starts_with-split (x ∷ p) [] h = absurd (cc)
starts_with-split (x ∷ p) (y ∷ s) h =
    let (v, e) = starts_with-split p s (ground arith) in
    let same_byte : y ≡ x = ground (arith, ==_iff x y) in (v, rw same_byte (ap (◌∷◌ x) e))

-- Where a byte is found first.
pub record Found (b : ℕ) (s : Bytes) (i : ℕ) : Type 0 where
  pub gap : Bytes
  pub behind : Bytes
  pub cut : s ≡ gap ++ (b ∷ behind)
  pub free : NoByte b gap
  pub place : i ≡ length gap

some-injective : {m n : ℕ} → some m ≡ some n → m ≡ n
some-injective h = cc h

map-suc-inversion :
    (o : Option ℕ) (i : ℕ) → Option.map suc o ≡ some i → (k : ℕ) × (o ≡ some k) × (i ≡ suc k)
map-suc-inversion none i h = absurd (cc)
map-suc-inversion (some k) i h = (k, refl, sym (some-injective h))

find-Found : (b : ℕ) (s : Bytes) (i : ℕ) → find b s ≡ some i → Found b s i
unfolding find
find-Found b [] i h = absurd (cc)
find-Found b (c ∷ s) i h = elim (Bool-cases (c == b)) [
  | inl e ↦ record {
    gap = [];
    behind = s;
    cut = ap (λ (y : ℕ). y ∷ s) ((==_iff c b).0 e);
    free = refl;
    place = sym (some-injective (rw e at h));
  }
  | inr e ↦
      let (k, found, next) = map-suc-inversion (find b s) i (rw e at h) in
      let f = find-Found b s k found in
      record {
        gap = c ∷ f.gap;
        behind = f.behind;
        cut = ap (◌∷◌ c) f.cut;
        free = rw e f.free;
        place = next ∙ ap suc f.place;
      }
]

pub record FoundText (w s : Bytes) (i : ℕ) : Type 0 where
  pub front : Bytes
  pub behind : Bytes
  pub cut : s ≡ front ++ (w ++ behind)
  pub first : (u v : Bytes) → s ≡ u ++ (w ++ v) → length front ≤ length u
  pub place : i ≡ length front

not_here : (w s v : Bytes) → starts_with w s ≡ false → s ≢ w ++ v
not_here w s v h e =
    let t : starts_with w s ≡ true = ap (starts_with w) e ∙ starts_with-append w v in cc (h, t)

find_text-FoundText :
    (w s : Bytes) (i : ℕ) → is_empty w ≡ false → find_text w s ≡ some i → FoundText w s i
unfolding find_text
find_text-FoundText w [] i some_byte h = absurd (cc (rw some_byte at h))
find_text-FoundText w (c ∷ s) i some_byte h = elim (Bool-cases (starts_with w (c ∷ s))) [
  | inl e ↦
      let (v, cut) = starts_with-split w (c ∷ s) e in
      record {
        front = [];
        behind = v;
        cut = cut;
        first = λ u v e. omega arith;
        place = sym (some-injective (rw e at h));
      }
  | inr e ↦
      let (k, found, next) = map-suc-inversion (find_text w s) i (rw e at h) in
      let f = find_text-FoundText w s k some_byte found in
      record {
        front = c ∷ f.front;
        behind = f.behind;
        cut = ap (◌∷◌ c) f.cut;
        first = later c w s f.front e f.first;
        place = next ∙ ap suc f.place;
      }
]
  where
    later :
        (c : ℕ) (w s front : Bytes)
        → starts_with w (c ∷ s) ≡ false
        → ((u v : Bytes) → s ≡ u ++ (w ++ v) → length front ≤ length u)
        → (u v : Bytes) → c ∷ s ≡ u ++ (w ++ v)
        → suc (length front) ≤ length u
    later c w s front e first [] v h = absurd (not_here w (c ∷ s) v e h)
    later c w s front e first (x ∷ u) v h = let l = first u v (cc h) in omega arith

module _ (raw : Bytes) (brace : ℕ) (peers : List (Bytes × Bytes)) where
  -- The place, and the text with the entries behind it.
  abbrev pub AtBrace : Bytes → Type 0
  AtBrace updated =
      (before : Bytes) × (behind : Bytes) × Opens raw before behind
      × (updated ≡ before ++ (b'{' ∷ (added_lines peers ++ behind)))

  offset :
      (at : ℕ) (o : Option ℕ)
      → Option.map (λ i. at + i) o ≡ some brace
      → (k : ℕ) × (o ≡ some k) × (brace ≡ at + k)
  offset at none h = absurd (cc)
  offset at (some k) h = (k, refl, sym (some-injective h))

  inserted :
      (before behind : Bytes)
      → raw ≡ before ++ (b'{' ∷ behind)
      → brace ≡ length before
      → insert_peers raw brace peers ≡ before ++ (b'{' ∷ (added_lines peers ++ behind))
  unfolding insert_peers
  inserted before behind cut place =
      let front : Bytes = before ++ (b'{' ∷ []) in
      let flat : raw ≡ front ++ behind = cut ∙ sym (append_assoc before (b'{' ∷ []) behind) in
      let count : brace + 1 ≡ length front =
        omega (arith, length-append before (b'{' ∷ []), place) in
      let kept : take (brace + 1) raw ≡ front =
        ap (λ (n : ℕ). take n raw) count
        ∙ (ap (take (length front)) flat ∙ take-length front behind) in
      let left : drop (brace + 1) raw ≡ behind =
        drop_prefix (brace + 1) front behind raw flat count in
      rw (kept, left, entries-added_lines peers)
        (append_assoc before (b'{' ∷ []) (added_lines peers ++ behind))

  at_name :
      (at : ℕ)
      → find_text (codes "\"peers\"") raw ≡ some at
      → find_from b'{' at raw ≡ some brace
      → AtBrace (insert_peers raw brace peers)
  unfolding find_from
  at_name at named h =
      let f = find_text-FoundText (codes "\"peers\"") raw at refl named in
      let (k, found, place) = offset at (find b'{' (drop at raw)) h in
      let g = find-Found b'{' (drop at raw) k found in
      let word = codes "\"peers\"" ++ f.behind in
      let rest : drop at raw ≡ word = drop_prefix at f.front word raw f.cut f.place in
      let cut : raw ≡ f.front ++ drop at raw =
        f.cut ∙ ap (λ (t : Bytes). f.front ++ t) (sym rest) in
      (
        f.front ++ g.gap,
        g.behind,
        record {
          front = f.front;
          rest = drop at raw;
          gap = g.gap;
          named = (f.behind, rest);
          first = f.first;
          cut = cut;
          opened = g.cut;
          no_brace = g.free;
          until = refl;
        },
        inserted (f.front ++ g.gap) g.behind
            (cut
              ∙ (ap (λ (t : Bytes). f.front ++ t) g.cut
                  ∙ sym (append_assoc f.front g.gap (b'{' ∷ g.behind))))
            (omega (arith, length-append f.front g.gap, f.place, g.place, place)),
      )

  pub find_brace-AtBrace : find_brace raw ≡ some brace → AtBrace (insert_peers raw brace peers)
  unfolding find_brace
  find_brace-AtBrace h = from_name (find_text (codes "\"peers\"") raw) refl h
    where
      from_name :
          (o : Option ℕ)
          → find_text (codes "\"peers\"") raw ≡ o
          → brace_from raw o ≡ some brace
          → AtBrace (insert_peers raw brace peers)
      from_name none e k = absurd (cc)
      from_name (some at) e k = at_name at e k
