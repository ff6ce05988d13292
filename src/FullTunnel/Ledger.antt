-- ===== src/FullTunnel/Ledger.antt =====
-- cpp/full_tunnel_macos.cpp and cpp/full_tunnel_windows.cpp: which routes a list of commands has
-- added, and that calls keep them where a later call deletes them.
use nospoon.Base.{
  ◌≡◌, refl, sym, ap, subst, ◌∙◌, Bool, true, false, List, [], ◌∷◌, ◌++◌, if◌then◌else◌, All,
  All-append, append-nil, append_assoc,
}

-- What a call returns, leaves and runs.
pub record Outcome (A S : Type 0) : Type 0 where
  pub result : Bool
  pub state : S
  pub actions : List A

module _ {A S X : Type 0} (call : S → X → S × List A) where
  -- One call after the other.
  unfoldable pub call_all : S → List X → S × List A
  call_all s [] = (s, [])
  call_all s (x ∷ xs) =
      let (s', log) = call s x in let (s'', rest) = call_all s' xs in (s'', log ++ rest)

  -- What every call leaves as it is.
  pub call_all_same :
      {T : Type 0} (view : S → T)
      → ((s : S) (x : X) → view (call s x).0 ≡ view s)
      → (s : S) (xs : List X) → view (call_all s xs).0 ≡ view s
  unfolding call_all
  call_all_same view same s [] = refl
  call_all_same view same s (x ∷ xs) = call_all_same view same (call s x).0 xs ∙ same s x

-- Commands, whether each ended well, and what each adds.
module _ {A R : Type 0} (ok : A → Bool) (adds : A → List R) where
  -- What the commands that ended well have added.
  unfoldable pub added : List A → List R
  added [] = []
  added (a ∷ log) = (if ok a then adds a else []) ++ added log

  pub added-append : (xs ys : List A) → added (xs ++ ys) ≡ added xs ++ added ys
  unfolding added
  added-append [] ys = refl
  added-append (x ∷ xs) ys =
      ap (◌++◌ (if ok x then adds x else [])) (added-append xs ys)
      ∙ sym (append_assoc (if ok x then adds x else []) (added xs) (added ys))

-- When a state has an added thing in reach.
module _ {A R S : Type 0} (ok : A → Bool) (adds : A → List R) (Covered : S → R → Type 0) where
  -- An action that adds, if it ends well, only what is in reach.
  abbrev pub Safe : S → A → Type 0
  Safe s a = ok a ≡ true → All (Covered s) (adds a)

  if-Safe :
      (s : S) (b : Bool) (rs : List R)
      → (b ≡ true → All (Covered s) rs)
      → All (Covered s) (if b then rs else [])
  if-Safe s true rs h = h refl
  if-Safe s false rs h = tt

  pub Safe-added : (s : S) (log : List A) → All (Safe s) log → All (Covered s) (added ok adds log)
  unfolding added
  Safe-added s [] h = tt
  Safe-added s (a ∷ log) h =
      All-append (Covered s) (if ok a then adds a else []) (added ok adds log)
        (if-Safe s (ok a) (adds a) h.0) (Safe-added s log h.1)

  -- What a call leaves has in reach all of `rs` and all that the call added.
  abbrev pub Keeps : List R → S × List A → Type 0
  Keeps rs (s, log) = All (Covered s) (rs ++ added ok adds log)

  pub if-Keeps :
      (rs : List R) (b : Bool) (x y : S × List A)
      → (b ≡ true → Keeps rs x)
      → (b ≡ false → Keeps rs y)
      → Keeps rs (if b then x else y)
  if-Keeps rs true x y p q = p refl
  if-Keeps rs false x y p q = q refl

  pub idle-Keeps : (rs : List R) (s : S) → All (Covered s) rs → Keeps rs (s, [])
  unfolding added
  idle-Keeps rs s v = subst (All (Covered s)) (sym (append-nil rs)) v

  All-grow :
      (s t : S) (rs : List R)
      → ((r : R) → Covered s r → Covered t r)
      → All (Covered s) rs
      → All (Covered t) rs
  All-grow s t [] grow v = tt
  All-grow s t (r ∷ rs) grow v = (grow r v.0, All-grow s t rs grow v.1)

  -- One command, behind which the state has no less in reach.
  pub one-Keeps :
      (rs : List R) (s t : S) (a : A)
      → ((r : R) → Covered s r → Covered t r)
      → Safe t a
      → All (Covered s) rs
      → Keeps rs (t, a ∷ [])
  one-Keeps rs s t a grow safe v =
      All-append (Covered t) rs (added ok adds (a ∷ [])) (All-grow s t rs grow v)
        (Safe-added t (a ∷ []) (safe, tt))

  pub call_all-Keeps :
      {X : Type 0} (call : S → X → S × List A)
      → ((s : S) (x : X) (rs : List R) → All (Covered s) rs → Keeps rs (call s x))
      → (s : S) (xs : List X) (rs : List R) → All (Covered s) rs
      → Keeps rs (call_all call s xs)
  unfolding call_all
  call_all-Keeps call keep s [] rs v = idle-Keeps rs s v
  call_all-Keeps call keep s (x ∷ xs) rs v =
      let step = call s x in
      subst (All (Covered (call_all call step.0 xs).0))
        (append_assoc rs (added ok adds step.1) (added ok adds (call_all call step.0 xs).1)
          ∙ ap (◌++◌ rs) (sym (added-append ok adds step.1 (call_all call step.0 xs).1)))
        (call_all-Keeps call keep step.0 xs (rs ++ added ok adds step.1) (keep s x rs v))
