-- ===== src/Config/Json.antt =====
-- cpp/config.hpp: `find_key` and the value readers over it. A `size_t` place is a number, npos is
-- `none`.
use nospoon.Base.{
  ℕ, zero, suc, ◌+◌, ◌-◌, Bool, true, false, ◌&&◌, ◌||◌, [], ◌∷◌, ◌++◌, Option, none, some, ◌==◌,
  if◌then◌else◌, length, take, drop, Bytes, codes, find, find_from, starts_with, is_space,
}
use nospoon.Base.Dict.{Dict, put}
use nospoon.Base.Int.{ℤ, atoi}
use mathlib.Core.Option

-- How many blanks stand in front.
unfoldable pub spaces : Bytes → ℕ
spaces [] = 0
spaces (c ∷ s) = if is_space c then suc (spaces s) else 0

abbrev pub head_is : ℕ → Bytes → Bool
head_is c [] = false
head_is c (x ∷ _) = x == c

-- At a place where the pattern stands: is a colon next, behind blanks?
unfoldable pub is_key_at : Bytes → Bytes → Bool
unfolding spaces starts_with
is_key_at pattern s =
    starts_with pattern s
    && head_is b':' (drop (spaces (drop (length pattern) s)) (drop (length pattern) s))

-- The loop over the places of the pattern; `pos` is the place of the rest `s`.
unfoldable pub find_key_from : Bytes → ℕ → Bytes → Option ℕ
unfolding is_key_at
find_key_from pattern pos [] = none
find_key_from pattern pos (c ∷ s) =
    if is_key_at pattern (c ∷ s)
    then some (pos + length pattern + spaces (drop (length pattern) (c ∷ s)) + 1)
    else find_key_from pattern (pos + 1) s

abbrev pub quoted : Bytes → Bytes
quoted key = b'"' ∷ (key ++ (b'"' ∷ []))

unfoldable pub find_key : Bytes → Bytes → Option ℕ
unfolding find_key_from
find_key json key = find_key_from (quoted key) 0 json

-- The walk to the closing quote: how far it is from here.
unfoldable pub closing : Bytes → Option ℕ
closing [] = none
closing (c ∷ []) = if c == b'"' then some 0 else none
closing (c ∷ d ∷ s) = elim (c == b'\\') [
  | true ↦ Option.map (λ i. i + 2) (closing s)
  | false ↦ if c == b'"' then some 0 else Option.map suc (closing (d ∷ s))
]

unfoldable pub unescape_char : ℕ → ℕ
unescape_char e =
    if e == b'b'
    then 8
    else if e == b'f'
    then 12
    else if e == b'n'
    then b'\n'
    else if e == b'r'
    then b'\r'
    else if e == b't'
    then b'\t'
    else e

-- The slice between the quotes, its escapes translated.
unfoldable pub unescape : Bytes → Bytes
unfolding unescape_char
unescape [] = []
unescape (c ∷ []) = c ∷ []
unescape (c ∷ d ∷ s) = elim (c == b'\\') [
  | true ↦ unescape_char d ∷ unescape s
  | false ↦ c ∷ unescape (d ∷ s)
]

-- The text whose opening quote stands in front of `s`.
abbrev pub text_to : Option ℕ → Bytes → Bytes
text_to none s = []
text_to (some i) s = unescape (take i s)

unfoldable pub read_text : Bytes → Bytes
unfolding closing unescape
read_text s = text_to (closing s) s

-- From the place behind a key's colon on, the next quote opens the value.
abbrev pub text_at : Bytes → Option ℕ → Bytes
text_at json none = []
text_at json (some q) = read_text (drop (q + 1) json)

abbrev pub value_text : Bytes → Option ℕ → Bytes
value_text json none = []
value_text json (some pos) = text_at json (find_from b'"' pos json)

unfoldable pub json_string : Bytes → Bytes → Bytes
unfolding find_key read_text find_from
json_string json key = value_text json (find_key json key)

abbrev pub is_blank : ℕ → Bool
is_blank c = c == b' ' || c == b'\t'

unfoldable pub skip_blanks : Bytes → Bytes
skip_blanks [] = []
skip_blanks (c ∷ s) = if is_blank c then skip_blanks s else c ∷ s

abbrev pub int_at : Bytes → ℤ → Option ℕ → ℤ
int_at json fallback none = fallback
int_at json fallback (some pos) = atoi (skip_blanks (drop pos json))

unfoldable pub json_int : Bytes → Bytes → ℤ → ℤ
unfolding find_key skip_blanks atoi
json_int json key fallback = int_at json fallback (find_key json key)

unfoldable pub bool_of : Bytes → Bool → Bool
unfolding starts_with
bool_of s fallback =
    if starts_with (codes "true") s
    then true
    else if starts_with (codes "false") s
    then false
    else fallback

abbrev pub bool_at : Bytes → Bool → Option ℕ → Bool
bool_at json fallback none = fallback
bool_at json fallback (some pos) = bool_of (skip_blanks (drop pos json)) fallback

unfoldable pub json_bool : Bytes → Bytes → Bool → Bool
unfolding find_key skip_blanks bool_of
json_bool json key fallback = bool_at json fallback (find_key json key)

-- Up to the next quote, and what stands behind it.
abbrev pub cut_at : Bytes → Option ℕ → Option (Bytes × Bytes)
cut_at s none = none
cut_at s (some i) = some (take i s, drop (i + 1) s)

unfoldable pub next_quote : Bytes → Option (Bytes × Bytes)
unfolding find
next_quote s = cut_at s (find b'"' s)

infixl 5 ◌>>=◌
abbrev pub ◌>>=◌ {ℓ κ} : {A : Type ℓ} {B : Type κ} → Option A → (A → Option B) → Option B
none >>= f = none
some a >>= f = f a

-- One round of the loop: a key, a value, and the rest of the block.
pub record Pair : Type 0 where
  pub key : Bytes
  pub val : Bytes
  pub rest : Bytes

unfoldable pub next_pair : Bytes → Option Pair
unfolding next_quote
next_pair block = do
  (_, at_key) ← next_quote block
  (key, behind_key) ← next_quote at_key
  (_, at_val) ← next_quote behind_key
  (val, rest) ← next_quote at_val
  some (record { key = key; val = val; rest = rest })

-- `while (i < block.size())`, on fuel: a round takes four quotes at least.
unfoldable pub read_pairs : ℕ → Bytes → Dict Bytes → Dict Bytes
unfolding next_pair put
read_pairs zero block result = result
read_pairs (suc fuel) block result = elim (next_pair block) [
  | none ↦ result
  | some p ↦ read_pairs fuel p.rest (put p.key p.val result)
]

-- Between the first brace behind the key and the first closing brace behind that.
abbrev pub block_to : Bytes → ℕ → Option ℕ → Dict Bytes
block_to json pos none = []
block_to json pos (some end) =
    let block = take (end - pos - 1) (drop (pos + 1) json) in
    read_pairs (suc (length block)) block []

abbrev pub block_at : Bytes → Option ℕ → Dict Bytes
block_at json none = []
block_at json (some pos) = block_to json pos (find_from b'}' pos json)

abbrev pub peers_at : Bytes → Option ℕ → Dict Bytes
peers_at json none = []
peers_at json (some pos) = block_at json (find_from b'{' pos json)

unfoldable pub json_peers : Bytes → Dict Bytes
unfolding find_key find_from read_pairs
json_peers json = peers_at json (find_key json (codes "peers"))
