-- ===== src/Commands/Save.antt =====
-- cpp/commands.cpp: how files that hold seeds are written and
-- replaced. The files are an association list from paths to contents.
use nospoon.Base.{
  ◌≡◌, refl, sym, subst, ◌∙◌, ℕ, zero, suc, Bool, true, false, not, [], ◌∷◌, ◌++◌, Option, none,
  some, if◌then◌else◌, Bytes, codes, same, same_refl, ==_iff, arith,
}
use nospoon.Base.Dict
use nospoon.Base.Dict.{Dict, get, put, Distinct, get-put, get-erase, put-Distinct, erase-Distinct}

-- Whether the system lets the program open a path for writing, set its mode to 0600, and rename; and
-- what a file holds behind `f << body; f.close();`, which are not checked.
pub record System : Type 0 where
  pub opens : Bytes → Bool
  pub chmods : Bytes → Bool
  pub renames : Bool
  pub stores : Bytes → Bytes → Bytes

-- The writes that are never checked put the whole body into each file.
abbrev pub IsWhole : System → Type 0
IsWhole sys = (path body : Bytes) → sys.stores path body ≡ body

-- What a call returns, and the files it leaves.
abbrev pub Saved {ℓ} : Type ℓ → Type ℓ
Saved A = A × Dict Bytes

unfoldable pub write_secret : System → Bytes → Bytes → Dict Bytes → Saved Bool
write_secret sys path body files =
    if not (sys.opens path)
    then (false, files)
    else if not (sys.chmods path)
    then (false, Dict.erase path (put path (sys.stores path body) files))
    else (true, put path (sys.stores path body) files)

-- `rename` of a file that is there.
abbrev move : Bytes → Bytes → Option Bytes → Dict Bytes → Dict Bytes
move old new none files = files
move old new (some body) files = put new body (Dict.erase old files)

unfoldable pub rename_over : System → Bytes → Bytes → Dict Bytes → Saved ℕ
rename_over sys tmp path files =
    if sys.renames then (0, move tmp path (get tmp files) files) else (1, Dict.erase tmp files)

abbrev pub and_then : Saved Bool → (Dict Bytes → Saved ℕ) → Saved ℕ
and_then (ok, files) next = if ok then next files else (1, files)

-- The end of `addclient`: back up, then replace atomically. The exit code, and the files.
unfoldable pub replace_config : System → Bytes → Bytes → Bytes → Dict Bytes → Saved ℕ
unfolding write_secret rename_over
replace_config sys path raw updated files =
    and_then (write_secret sys (path ++ codes ".bak") raw files) (λ backed_up.
      and_then (write_secret sys (path ++ codes ".tmp") updated backed_up)
        (rename_over sys (path ++ codes ".tmp") path))

pub same-append : (p s t : Bytes) → same (p ++ s) (p ++ t) ≡ same s t
unfolding same
same-append [] s t = refl
same-append (x ∷ p) s t = ground (arith, ==_iff x x, same-append p s t)

-- A longer name is another name.
pub suffix_differs : (p : Bytes) (x : ℕ) (s : Bytes) → same (p ++ (x ∷ s)) p ≡ false
unfolding same
suffix_differs [] x s = refl
suffix_differs (y ∷ p) x s = ground (arith, ==_iff y y, suffix_differs p x s)

pub prefix_differs : (p : Bytes) (x : ℕ) (s : Bytes) → same p (p ++ (x ∷ s)) ≡ false
unfolding same
prefix_differs [] x s = refl
prefix_differs (y ∷ p) x s = ground (arith, ==_iff y y, prefix_differs p x s)

-- What `write_secret` does to the files: no other path changes, and the path holds the body when it
-- returns true.
pub record Wrote (path body : Bytes) (files : Dict Bytes) (r : Saved Bool) : Type 0 where
  pub others : (j : Bytes) → same path j ≡ false → get j r.1 ≡ get j files
  pub written : r.0 ≡ true → get path r.1 ≡ some body
  pub distinct : Distinct r.1

module _ (sys : System) (whole : IsWhole sys) (path body : Bytes) (files : Dict Bytes)
    (d : Distinct files) where
  refused-Wrote : Wrote path body files (false, files)
  refused-Wrote = record {
    others = λ j h. refl;
    written = λ h. absurd (ground arith);
    distinct = d;
  }

  removed-Wrote : Wrote path body files (false, Dict.erase path (put path body files))
  removed-Wrote = record {
    others = λ j h. ground (
      arith,
      get-erase path j (put path body files) (put-Distinct path body files d),
      get-put path j body files,
    );
    written = λ h. absurd (ground arith);
    distinct = erase-Distinct path (put path body files) (put-Distinct path body files d);
  }

  stored-Wrote : Wrote path body files (true, put path body files)
  stored-Wrote = record {
    others = λ j h. ground (arith, get-put path j body files);
    written = λ h. ground (arith, get-put path path body files, same_refl path);
    distinct = put-Distinct path body files d;
  }

  if-Wrote :
      (b : Bool) (x y : Saved Bool)
      → Wrote path body files x
      → Wrote path body files y
      → Wrote path body files (if b then x else y)
  if-Wrote true x y p q = p
  if-Wrote false x y p q = q

  pub write_secret-Wrote : Wrote path body files (write_secret sys path body files)
  unfolding write_secret
  write_secret-Wrote = rw (whole path body) (
      if-Wrote (not (sys.opens path)) _ _ refused-Wrote
        (if-Wrote (not (sys.chmods path)) _ _ removed-Wrote stored-Wrote))

-- What the end of `addclient` leaves: the new text and a backup of the old, no temporary file, or on
-- an error the configuration as it was.
abbrev pub Replaced : Bytes → Bytes → Bytes → Dict Bytes → Saved ℕ → Type 0
Replaced path raw updated files (zero, out) =
    (get path out ≡ some updated)
    × (get (path ++ codes ".bak") out ≡ some raw)
    × (get (path ++ codes ".tmp") out ≡ none)
Replaced path raw updated files (suc code, out) = get path out ≡ get path files

module _ (sys : System) (path raw updated : Bytes) (files backed_up staged : Dict Bytes)
    (first : Wrote (path ++ codes ".bak") raw files (true, backed_up))
    (second : Wrote (path ++ codes ".tmp") updated backed_up (true, staged)) where
  abbrev tmp : Bytes
  tmp = path ++ codes ".tmp"

  kept : get path staged ≡ get path files
  kept =
      second.others path (suffix_differs path b'.' (codes "tmp"))
      ∙ first.others path (suffix_differs path b'.' (codes "bak"))

  staged_bak : get (path ++ codes ".bak") staged ≡ some raw
  unfolding same
  staged_bak =
      second.others (path ++ codes ".bak") (same-append path (codes ".tmp") (codes ".bak"))
      ∙ first.written refl

  abbrev moved : Dict Bytes
  moved = put path updated (Dict.erase tmp staged)

  moved-Replaced : Replaced path raw updated files (0, moved)
  unfolding same
  moved-Replaced = (
    rw (get-put path path updated (Dict.erase tmp staged), same_refl path),
    rw
        (
          get-put path (path ++ codes ".bak") updated (Dict.erase tmp staged),
          prefix_differs path b'.' (codes "bak"),
          get-erase tmp (path ++ codes ".bak") staged second.distinct,
          same-append path (codes ".tmp") (codes ".bak"),
        )
        staged_bak,
    rw (
      get-put path tmp updated (Dict.erase tmp staged),
      prefix_differs path b'.' (codes "tmp"),
      get-erase tmp tmp staged second.distinct,
      same_refl tmp,
    ),
  )

  dropped-Replaced : Replaced path raw updated files (1, Dict.erase tmp staged)
  dropped-Replaced =
      rw (get-erase tmp path staged second.distinct, suffix_differs path b'.' (codes "tmp")) kept

  if-Replaced :
      (b : Bool) (x y : Saved ℕ)
      → Replaced path raw updated files x
      → Replaced path raw updated files y
      → Replaced path raw updated files (if b then x else y)
  if-Replaced true x y p q = p
  if-Replaced false x y p q = q

  rename_over-Replaced : Replaced path raw updated files (rename_over sys tmp path staged)
  unfolding rename_over
  rename_over-Replaced =
      if-Replaced sys.renames (0, move tmp path (get tmp staged) staged) (1, Dict.erase tmp staged)
        (subst (λ (o : Option Bytes). Replaced path raw updated files (0, move tmp path o staged))
          (sym (second.written refl)) moved-Replaced)
        dropped-Replaced

module _ (sys : System) (whole : IsWhole sys) (path raw updated : Bytes) (files : Dict Bytes) where
  staged-Replaced :
      (backed_up : Dict Bytes)
      → Wrote (path ++ codes ".bak") raw files (true, backed_up)
      → (r : Saved Bool) → Wrote (path ++ codes ".tmp") updated backed_up r
      → Replaced path raw updated files (and_then r (rename_over sys (path ++ codes ".tmp") path))
  staged-Replaced backed_up first (false, out) second =
      second.others path (suffix_differs path b'.' (codes "tmp"))
      ∙ first.others path (suffix_differs path b'.' (codes "bak"))
  staged-Replaced backed_up first (true, staged) second =
      rename_over-Replaced sys path raw updated files backed_up staged first second

  backed_up-Replaced :
      (r : Saved Bool)
      → Wrote (path ++ codes ".bak") raw files r
      → Replaced path raw updated files (
          and_then r (λ backed_up.
            and_then
              (write_secret sys (path ++ codes ".tmp") updated backed_up)
              (rename_over sys (path ++ codes ".tmp") path)))
  backed_up-Replaced (false, out) first = first.others path (suffix_differs path b'.' (codes "bak"))
  backed_up-Replaced (true, backed_up) first =
      staged-Replaced backed_up first (write_secret sys (path ++ codes ".tmp") updated backed_up)
        (write_secret-Wrote sys whole (path ++ codes ".tmp") updated backed_up first.distinct)

  -- Whatever opens, mode changes or the rename fail when addclient saves, where the writes themselves
  -- are whole and no path stands twice among the files: with exit code 0 the configuration is the new text, the backup holds the old
  -- one and no temporary file is left; with any other code the configuration is as it was.
  pub replace_config-Replaced :
      Distinct files → Replaced path raw updated files (replace_config sys path raw updated files)
  unfolding replace_config
  replace_config-Replaced d =
      backed_up-Replaced (write_secret sys (path ++ codes ".bak") raw files)
        (write_secret-Wrote sys whole (path ++ codes ".bak") raw files d)
