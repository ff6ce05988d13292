-- ===== src/Commands/Genkey.antt =====
-- cpp/commands.cpp: the seed that `genkey` prints.
use nospoon.Base.{
  ◌≡◌, subst, [], ◌∷◌, Option, none, some, if◌then◌else◌, Bytes, codes, is_space, length, All,
}
use nospoon.Config.{Files, Loaded, loaded, require_ok, ◌>>◌, trim_end}
use nospoon.Config.Hex.{bytes_to_hex, IsByte, hex64_parts, validate_hex64-bytes_to_hex}
use nospoon.Config.Checked.{IsHex64, then_loaded, hex_of, loaded-injective}
use nospoon.Validation.{validate_hex64}

-- The front of `trim`.
unfoldable pub trim_front : Bytes → Bytes
trim_front [] = []
trim_front (c ∷ s) = if is_space c then trim_front s else c ∷ s

unfoldable pub trim : Bytes → Bytes
unfolding trim_end trim_front
trim s = trim_front (trim_end s)

-- The argument is a file that holds the seed, or the seed.
abbrev from_file : Option Bytes → Bytes → Bytes
from_file none arg = arg
from_file (some body) arg = trim body

-- The seed, or the exit; `drawn` are the 32 random bytes.
unfoldable pub genkey_seed : Files → Option Bytes → Bytes → Loaded Bytes
unfolding trim require_ok
genkey_seed files none drawn = loaded (bytes_to_hex drawn)
genkey_seed files (some arg) drawn =
    let seed = from_file (files arg) arg in
    require_ok (validate_hex64 seed (codes "seed")) >> loaded seed

-- The seed that genkey prints has 64 hex digits, be it given, read from a file, or drawn as 32
-- bytes.
pub genkey_seed-IsHex64 :
    (files : Files) (arg : Option Bytes) (drawn : Bytes) {seed : Bytes}
    → All IsByte drawn
    → length drawn ≡ 32
    → genkey_seed files arg drawn ≡ loaded seed
    → IsHex64 seed
unfolding genkey_seed
genkey_seed-IsHex64 files none drawn {seed} bytes l h =
    let (sized, digits) =
      hex64_parts (bytes_to_hex drawn) (codes "seed")
        (validate_hex64-bytes_to_hex drawn (codes "seed") bytes l) in
    subst IsHex64 (loaded-injective h) (record { sized = sized; digits = digits })
genkey_seed-IsHex64 files (some arg) drawn {seed} bytes l h =
    let seed_of_arg = from_file (files arg) arg in
    let (checked, same) =
      then_loaded (require_ok (validate_hex64 seed_of_arg (codes "seed"))) (loaded seed_of_arg) h in
    subst IsHex64 (loaded-injective same) (hex_of seed_of_arg (codes "seed") checked)
