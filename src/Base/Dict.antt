-- ===== src/Base/Dict.antt =====
-- `std::map` and `std::unordered_map` with string keys, as an association list in the order of
-- first insertion; a key stands in it once.
use Prim.Native.Nat.{◌+◌}
use mathlib.Core.Path.{◌≡◌, refl}
use mathlib.Core.Bool.{false}
use mathlib.Core.List.{List, [], ◌∷◌}
use mathlib.Core.Option.{Option, none, some}
use native.Mathlib.Omega.{arith}
use nospoon.Base.Tests.{if◌then◌else◌}
use nospoon.Base.Lists.{length}
use nospoon.Base.Texts.{Bytes, same, same_iff}

abbrev pub Dict {ℓ} : Type ℓ → Type ℓ
Dict V = List (Bytes × V)

module _ {ℓ} {V : Type ℓ} where
  -- `find(k)`
  unfoldable pub get : Bytes → Dict V → Option V
  get k [] = none
  get k ((j, v) ∷ m) = if same j k then some v else get k m

  -- `m[k] = v`
  unfoldable pub put : Bytes → V → Dict V → Dict V
  put k v [] = (k, v) ∷ []
  put k v ((j, w) ∷ m) = if same j k then (j, v) ∷ m else (j, w) ∷ put k v m

  -- `erase(k)`
  unfoldable pub erase : Bytes → Dict V → Dict V
  erase k [] = []
  erase k ((j, w) ∷ m) = if same j k then m else (j, w) ∷ erase k m

  abbrev pub Fresh : Bytes → Dict V → Type 0
  Fresh k [] = Unit {0}
  Fresh k ((j, _) ∷ m) = (same j k ≡ false) × Fresh k m

  -- No key stands twice.
  abbrev pub Distinct : Dict V → Type 0
  Distinct [] = Unit {0}
  Distinct ((j, _) ∷ m) = Fresh j m × Distinct m

  pub get-put :
      (k j : Bytes) (v : V) (m : Dict V)
      → get j (put k v m) ≡ (if same k j then some v else get j m)
  unfolding get put
  get-put k j v [] = refl
  get-put k j v ((i, w) ∷ m) =
      ground (arith, same_iff k j, same_iff i k, same_iff i j, get-put k j v m)

  pub get-Fresh : (k : Bytes) (m : Dict V) → Fresh k m → get k m ≡ none
  unfolding get
  get-Fresh k [] h = refl
  get-Fresh k ((i, w) ∷ m) h = ground (arith, get-Fresh k m)

  pub Fresh-get : (k : Bytes) (m : Dict V) → get k m ≡ none → Fresh k m
  unfolding get
  Fresh-get k [] h = tt
  Fresh-get k ((i, w) ∷ m) h = ground (arith, Fresh-get k m)

  Fresh-put :
      (k j : Bytes) (v : V) (m : Dict V) → same k j ≡ false → Fresh j m → Fresh j (put k v m)
  unfolding put
  Fresh-put k j v [] h f = (h, tt)
  Fresh-put k j v ((i, w) ∷ m) h f = ground (arith, Fresh-put k j v m)

  Fresh-erase : (k j : Bytes) (m : Dict V) → Fresh j m → Fresh j (erase k m)
  unfolding erase
  Fresh-erase k j [] f = tt
  Fresh-erase k j ((i, w) ∷ m) f = ground (arith, Fresh-erase k j m)

  pub put-Distinct : (k : Bytes) (v : V) (m : Dict V) → Distinct m → Distinct (put k v m)
  unfolding put
  put-Distinct k v [] d = (tt, tt)
  put-Distinct k v ((i, w) ∷ m) d =
      ground (arith, same_iff i k, same_iff k i, put-Distinct k v m d.1, Fresh-put k i v m)

  pub erase-Distinct : (k : Bytes) (m : Dict V) → Distinct m → Distinct (erase k m)
  unfolding erase
  erase-Distinct k [] d = tt
  erase-Distinct k ((i, w) ∷ m) d = ground (arith, erase-Distinct k m d.1, Fresh-erase k i m d.0)

  pub get-erase :
      (k j : Bytes) (m : Dict V)
      → Distinct m
      → get j (erase k m) ≡ (if same k j then none else get j m)
  unfolding get erase
  get-erase k j [] d = ground arith
  get-erase k j ((i, w) ∷ m) d =
      ground
        (arith, same_iff k j, same_iff i k, same_iff i j, get-erase k j m d.1, get-Fresh i m d.0)

  pub length-put :
      (k : Bytes) (v : V) (m : Dict V)
      → length (put k v m) ≡ elim (get k m) [ none ↦ length m + 1 | some _ ↦ length m ]
  unfolding get put
  length-put k v [] = omega arith
  length-put k v ((i, w) ∷ m) = ground (arith, length-put k v m)
