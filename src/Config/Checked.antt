-- ===== src/Config/Checked.antt =====
-- What `load_config` promises of the configuration it returns.
use nospoon.Base.{
  ◌≡◌, ◌≢◌, refl, sym, subst, ◌∙◌, ◌&&◌, not, ◌⊎◌, inl, inr, true, false, [], ◌∷◌, Option, none,
  some, arith, Bytes, codes, is_empty, length, all, is_hex_digit,
}
use nospoon.Base.Int.{ℤ, within}
use nospoon.Validation
use nospoon.Validation.{validate_hex64, validate_cidr, validate_cidr_v6, validate_mtu}
use nospoon.Validation.Cidr.{IsNetwork, validate_cidr-IsNetwork}
use nospoon.Validation.Network6.{IsNetwork6, validate_cidr_v6-IsNetwork6}
use nospoon.Config.Strip.{strip_comments}
use nospoon.Config.{
  Config, Loaded, loaded, exits, ◌>>=◌, ◌>>◌, Files, opened, require_ok, if_given, require_given,
  parse_fields, check_fields, trim_end, load_seed, load_config,
}
use nospoon.Config.Hex.{hex64_parts}

-- 64 hex digits.
pub record IsHex64 (s : Bytes) : Type 0 where
  pub sized : length s ≡ 64
  pub digits : all is_hex_digit s ≡ true

-- A field that is left out, or meets the condition.
abbrev pub Given : Bytes → Type 0 → Type 0
Given s P = (s ≡ []) ⊎ P

pub record IsValid (cfg : Config) : Type 0 where
  pub mode_given : cfg.mode ≢ []
  pub ip_network : IsNetwork cfg.ip
  pub ipv6_network : Given cfg.ipv6 (IsNetwork6 cfg.ipv6)
  pub seed_hex : Given cfg.seed (IsHex64 cfg.seed)
  pub server_hex : Given cfg.server_key (IsHex64 cfg.server_key)
  pub mtu_range : within 576 65535 cfg.mtu ≡ true

pub then_loaded {ℓ} :
    {B : Type ℓ} (m : Loaded (Unit {0})) (k : Loaded B) {b : B}
    → (m >> k) ≡ loaded b
    → (m ≡ loaded tt) × (k ≡ loaded b)
then_loaded (loaded tt) k h = (refl, h)
then_loaded (exits message) k h = (cc, cc)

require_ok-valid : (r : Validation.Result) → require_ok r ≡ loaded tt → r.valid ≡ true
unfolding require_ok
require_ok-valid r h = ground arith

given_cases :
    (s : Bytes) (check : Loaded (Unit {0}))
    → if_given s check ≡ loaded tt
    → Given s (check ≡ loaded tt)
given_cases [] check h = inl refl
given_cases (c ∷ s) check h = inr h

given_map : (s : Bytes) {P Q : Type 0} → (P → Q) → Given s P → Given s Q
given_map s f (inl e) = inl e
given_map s f (inr p) = inr (f p)

required : (s message : Bytes) → require_given s message ≡ loaded tt → s ≢ []
required [] message h = cc
required (c ∷ s) message h = λ e. cc

pub hex_of : (s label : Bytes) → require_ok (validate_hex64 s label) ≡ loaded tt → IsHex64 s
hex_of s label h =
    let (l, d) = hex64_parts s label (require_ok-valid (validate_hex64 s label) h) in
    record { sized = l; digits = d }

mtu_of : (v : ℤ) → (validate_mtu v).valid ≡ true → within 576 65535 v ≡ true
unfolding validate_mtu
mtu_of v h = ground arith

require_ok-IsNetwork6 :
    (s label : Bytes) → require_ok (validate_cidr_v6 s label) ≡ loaded tt → IsNetwork6 s
require_ok-IsNetwork6 s label h = validate_cidr_v6-IsNetwork6 s label (require_ok-valid _ h)

check_fields-IsValid : (cfg : Config) → check_fields cfg ≡ loaded tt → IsValid cfg
unfolding check_fields
check_fields-IsValid cfg h =
    let (mode, h1) = then_loaded (require_given cfg.mode _) _ h in
    let (ip, h2) = then_loaded (require_given cfg.ip _) _ h1 in
    let (network, h3) = then_loaded (require_ok (validate_cidr cfg.ip _)) _ h2 in
    let (v6, h4) = then_loaded (if_given cfg.ipv6 _) _ h3 in
    let (seed, h5) = then_loaded (if_given cfg.seed _) _ h4 in
    let (server, mtu) = then_loaded (if_given cfg.server_key _) _ h5 in
    record {
      mode_given = required cfg.mode _ mode;
      ip_network = (validate_cidr-IsNetwork cfg.ip (codes "ip")).0 (require_ok-valid _ network);
      ipv6_network =
          given_map cfg.ipv6 (require_ok-IsNetwork6 cfg.ipv6 _) (given_cases cfg.ipv6 _ v6);
      seed_hex = given_map cfg.seed (hex_of cfg.seed _) (given_cases cfg.seed _ seed);
      server_hex =
          given_map cfg.server_key (hex_of cfg.server_key _) (given_cases cfg.server_key _ server);
      mtu_range = mtu_of cfg.mtu (require_ok-valid _ mtu);
    }

bind_loaded {ℓ κ} :
    {A : Type ℓ} {B : Type κ} (m : Loaded A) (f : A → Loaded B) {b : B}
    → (m >>= f) ≡ loaded b
    → (a : A) × (m ≡ loaded a) × (f a ≡ loaded b)
bind_loaded (loaded a) f h = (a, refl, h)
bind_loaded (exits message) f h = cc

-- What `load_seed` does to a configuration: nothing, or it puts in a seed of 64 hex digits that the
-- seed file holds before its trailing blanks.
pub record FromFile (files : Files) (cfg out : Config) : Type 0 where
  pub no_seed : cfg.seed ≡ []
  pub named : cfg.seed_file ≢ []
  pub body : Bytes
  pub found : files cfg.seed_file ≡ some body
  pub trimmed : IsHex64 (trim_end body)
  pub result : out ≡ record cfg { seed = trim_end body }

abbrev pub Seeded : Files → Config → Config → Type 0
Seeded files cfg out = (out ≡ cfg) ⊎ FromFile files cfg out

empty_cases : (s : Bytes) → ((is_empty s ≡ true) × (s ≡ [])) ⊎ ((is_empty s ≡ false) × (s ≢ []))
empty_cases [] = inl (refl, refl)
empty_cases (c ∷ s) = inr (refl, λ e. cc)

pub loaded-injective {ℓ} : {A : Type ℓ} {a b : A} → loaded a ≡ loaded b → a ≡ b
loaded-injective h = cc

opened-found :
    (o : Option Bytes) (message : Bytes) {b : Bytes} → opened o message ≡ loaded b → o ≡ some b
opened-found none message h = cc
opened-found (some x) message h = cc

load_seed_kept :
    (files : Files) (cfg : Config)
    → (is_empty cfg.seed && not (is_empty cfg.seed_file)) ≡ false
    → load_seed files cfg ≡ loaded cfg
unfolding load_seed
load_seed_kept files cfg h = ground arith

read_seed :
    (files : Files) (cfg out : Config)
    → is_empty cfg.seed ≡ true
    → is_empty cfg.seed_file ≡ false
    → cfg.seed ≡ []
    → cfg.seed_file ≢ []
    → load_seed files cfg ≡ loaded out
    → FromFile files cfg out
unfolding load_seed
read_seed files cfg out e f none_given named h =
    let h' = rw (e, f) at h in
    let (body, found, h1) = bind_loaded (opened (files cfg.seed_file) _) _ h' in
    let (checked, h2) = then_loaded (require_ok (validate_hex64 (trim_end body) _)) _ h1 in
    record {
      no_seed = none_given;
      named = named;
      body = body;
      found = opened-found (files cfg.seed_file) _ found;
      trimmed = hex_of (trim_end body) _ checked;
      result = sym (loaded-injective h2);
    }

-- A configuration with a seed or without a seed file is returned as it is; otherwise the file is
-- read, its trailing blanks cut, the rest is 64 hex digits and becomes the seed, and no other field
-- changes.
pub load_seed-Seeded :
    (files : Files) (cfg out : Config) → load_seed files cfg ≡ loaded out → Seeded files cfg out
load_seed-Seeded files cfg out h = elim (empty_cases cfg.seed) [
  | inr (e, _) ↦ inl (loaded-injective (sym h ∙ load_seed_kept files cfg (ground arith)))
  | inl (e, none_given) ↦ elim (empty_cases cfg.seed_file) [
    | inl (f, _) ↦ inl (loaded-injective (sym h ∙ load_seed_kept files cfg (ground arith)))
    | inr (f, named) ↦ inr (read_seed files cfg out e f none_given named h)
  ]
]

Seeded-IsValid :
    (files : Files) (cfg out : Config) → IsValid cfg → Seeded files cfg out → IsValid out
Seeded-IsValid files cfg out v (inl e) = subst IsValid (sym e) v
Seeded-IsValid files cfg out v (inr f) = subst IsValid (sym f.result) (record {
  mode_given = v.mode_given;
  ip_network = v.ip_network;
  ipv6_network = v.ipv6_network;
  seed_hex = inr f.trimmed;
  server_hex = v.server_hex;
  mtu_range = v.mtu_range;
})

pub load_config-IsValid :
    (files : Files) (path : Bytes) {cfg : Config}
    → load_config files path ≡ loaded cfg
    → IsValid cfg
unfolding load_config
load_config-IsValid files path {cfg} h =
    let (body, found, h1) = bind_loaded (opened (files path) _) _ h in
    let (checks, h2) = then_loaded (check_fields (parse_fields (strip_comments body))) _ h1 in
    let v = check_fields-IsValid (parse_fields (strip_comments body)) checks in
    Seeded-IsValid files (parse_fields (strip_comments body)) cfg v
      (load_seed-Seeded files (parse_fields (strip_comments body)) cfg h2)
