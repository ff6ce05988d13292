-- ===== src/FullTunnel/Macos/Rules.antt =====
-- cpp/full_tunnel_macos.cpp: the rules that are put into /etc/pf.conf, and the server's calls.
use nospoon.Base.{
  ◌≡◌, refl, sym, ap, ◌∙◌, ℕ, zero, suc, ◌+◌, ◌<◌, Bool, true, false, not, List, [], ◌∷◌, ◌++◌,
  Option, none, some, Bytes, codes, is_empty, if◌then◌else◌, arith, take, drop, length, Bool-cases,
  ◌⊎◌, inl, inr, All,
}
use nospoon.FullTunnel.{ServerState, no_server, active_server, or_else}
use nospoon.FullTunnel.Ledger.{Outcome}
use nospoon.FullTunnel.Macos.{
  Shell, Action, ok, enable_server_forwarding, disable_server_forwarding, write_rules, remove_rules,
  restore_rules, set_forwarding, load_rules, with_conf, load_pf, refused, nat_rule, pass_in,
  pass_out, get_default_gateway, enable_pf,
}
use nospoon.FullTunnel.MacosText.{last_match, has_word, with_rule, insert_at, pf_rules, lines}

abbrev pub is_anchor : Bytes → Bool
is_anchor = has_word (codes "nat-anchor")

abbrev IsNot : (Bytes → Bool) → Bytes → Type 0
IsNot test l = test l ≡ false

-- Where a list is cut by its last line that passes a test.
abbrev pub LastAt : (Bytes → Bool) → List Bytes → Type 0
LastAt test old =
    (before : List Bytes) × (l : Bytes) × (behind : List Bytes) × (old ≡ before ++ (l ∷ behind))
    × (test l ≡ true)
    × All (IsNot test) behind

abbrev pub NoneOrLast : (Bytes → Bool) → List Bytes → Type 0
NoneOrLast test old = All (IsNot test) old ⊎ LastAt test old

onto_cut :
    (test : Bytes → Bool) (x : Bytes) (xs : List Bytes)
    → (test x ≡ true) ⊎ (test x ≡ false)
    → NoneOrLast test xs
    → NoneOrLast test (x ∷ xs)
onto_cut test x xs b (inr (before, l, behind, e, here, later)) =
    inr (x ∷ before, l, behind, ap (◌∷◌ x) e, here, later)
onto_cut test x xs (inl here) (inl none_later) = inr ([], x, xs, refl, here, none_later)
onto_cut test x xs (inr not_here) (inl none_later) = inl (not_here, none_later)

-- Either no line passes, or there is a last one that does.
unfoldable pub cut_at_last : (test : Bytes → Bool) (old : List Bytes) → NoneOrLast test old
unfolding onto_cut
cut_at_last test [] = inl tt
cut_at_last test (x ∷ xs) = onto_cut test x xs (Bool-cases (test x)) (cut_at_last test xs)

last_match-keeps :
    (test : Bytes → Bool) (i : ℕ) (found : Option ℕ) (old : List Bytes)
    → All (IsNot test) old
    → last_match test i found old ≡ found
unfolding last_match
last_match-keeps test i found [] h = refl
last_match-keeps test i found (l ∷ ls) h = rw h.0 (last_match-keeps test (i + 1) found ls h.1)

last_match-at :
    (test : Bytes → Bool) (i : ℕ) (found : Option ℕ) (before : List Bytes) (l : Bytes)
    (behind : List Bytes)
    → test l ≡ true
    → All (IsNot test) behind
    → last_match test i found (before ++ (l ∷ behind)) ≡ some (i + length before)
unfolding last_match
last_match-at test i found [] l behind yes_here none_later =
    rw (yes_here, last_match)
      (last_match-keeps test (i + 1) (some i) behind none_later ∙ ap some (omega arith))
last_match-at test i found (x ∷ before) l behind yes_here none_later =
    last_match-at test (i + 1) (if test x then some i else found) before l behind yes_here
      none_later
    ∙ ap some (omega arith)

-- A rule goes nowhere without a place, and behind the line at its place.
with_rule-none : (rule : Bytes) (i : ℕ) (old : List Bytes) → with_rule none rule i old ≡ old
unfolding with_rule
with_rule-none rule i [] = refl
with_rule-none rule i (l ∷ ls) = ap (◌∷◌ l) (with_rule-none rule (i + 1) ls)

with_rule-past :
    (k : ℕ) (rule : Bytes) (i : ℕ) (old : List Bytes) → k < i → with_rule (some k) rule i old ≡ old
unfolding with_rule
with_rule-past k rule i [] h = refl
with_rule-past k rule i (l ∷ ls) h = ground (arith, with_rule-past k rule (i + 1) ls)

with_rule-at :
    (rule : Bytes) (i k : ℕ) (before : List Bytes) (l : Bytes) (behind : List Bytes)
    → k ≡ i + length before
    → with_rule (some k) rule i (before ++ (l ∷ behind)) ≡ before ++ (l ∷ rule ∷ behind)
unfolding with_rule
with_rule-at rule i k [] l behind e = ground (arith, with_rule-past k rule (i + 1) behind)
with_rule-at rule i k (x ∷ before) l behind e =
    ground (arith, with_rule-at rule (i + 1) k before l behind)

take-drop : (k : ℕ) (xs : List Bytes) → take k xs ++ drop k xs ≡ xs
take-drop zero xs = refl
take-drop (suc k) [] = refl
take-drop (suc k) (x ∷ xs) = ap (◌∷◌ x) (take-drop k xs)

-- The file with a rule behind its last line that passes, unchanged where none does.
abbrev pub behind_last :
    {test : Bytes → Bool} {old : List Bytes} → Bytes → NoneOrLast test old → List Bytes
behind_last {old = old} rule (inl _) = old
behind_last rule (inr (before, l, behind, _, _, _)) = before ++ (l ∷ rule ∷ behind)

-- `extra` stands somewhere in a list that is `rest` without it.
abbrev pub Inserted : List Bytes → List Bytes → List Bytes → Type 0
Inserted extra rest all =
    (before : List Bytes) × (behind : List Bytes) × (rest ≡ before ++ behind)
    × (all ≡ before ++ (extra ++ behind))

module _ (nat_rule pass_in pass_out : Bytes) (old : List Bytes) where
  -- The two rules that let packets pass stand together among the other lines.
  passes-Inserted :
      (mid : List Bytes)
      → with_rule (last_match is_anchor 0 none old) nat_rule 0 old ≡ mid
      → Inserted (pass_in ∷ pass_out ∷ []) mid (pf_rules nat_rule pass_in pass_out old)
  unfolding pf_rules
  passes-Inserted mid e =
      let k = insert_at (last_match (has_word (codes "load anchor")) 0 none old) mid old in
      (
        take k mid,
        drop k mid,
        sym (take-drop k mid),
        ap
            (λ (m : List Bytes).
              take (insert_at (last_match (has_word (codes "load anchor")) 0 none old) m old) m
              ++ (pass_in
                  ∷ pass_out
                  ∷ drop (insert_at (last_match (has_word (codes "load anchor")) 0 none old) m old)
                      m))
            e,
      )

  -- The rules that the macOS server loads are the lines of /etc/pf.conf with the NAT rule behind the
  -- last line that starts with nat-anchor, and the two rules that let packets pass, next to each
  -- other, put in somewhere; where no line starts with nat-anchor the NAT rule is not put in.
  pub pf_rules_lem :
      (cut : NoneOrLast is_anchor old)
      → Inserted
          (pass_in ∷ pass_out ∷ [])
          (behind_last nat_rule cut)
          (pf_rules nat_rule pass_in pass_out old)
  pf_rules_lem (inl none_there) = passes-Inserted old (
      ap (λ (at : Option ℕ). with_rule at nat_rule 0 old)
        (last_match-keeps is_anchor 0 none old none_there)
      ∙ with_rule-none nat_rule 0 old)
  pf_rules_lem (inr (before, l, behind, e, here, later)) =
      passes-Inserted (before ++ (l ∷ nat_rule ∷ behind)) (
        ap (λ (o : List Bytes). with_rule (last_match is_anchor 0 none o) nat_rule 0 o) e
        ∙ (ap (λ (at : Option ℕ). with_rule at nat_rule 0 (before ++ (l ∷ behind)))
              (last_match-at is_anchor 0 none before l behind here later)
            ∙ with_rule-at nat_rule 0 (0 + length before) before l behind refl))

-- What the server's calls promise: a call that succeeds leaves a state whose disable call loads the
-- old rules again and clears it, a call that fails leaves the old state; the temporary file is gone
-- either way, and it has held the rules for this interface, network and tunnel.
unfoldable pub written : List Action → List (List Bytes)
written [] = []
written (write_rules r ∷ log) = r ∷ written log
written (_ ∷ log) = written log

-- Whether the temporary file is there behind the actions.
unfoldable pub leaves_file : Bool → List Action → Bool
leaves_file b [] = b
leaves_file b (write_rules r ∷ log) = leaves_file true log
leaves_file b (remove_rules ∷ log) = leaves_file false log
leaves_file b (_ ∷ log) = leaves_file b log

abbrev pub IsServed : Option Bytes → ServerState → Outcome Action ServerState → Type 0
IsServed file s r =
    (leaves_file false r.actions ≡ false)
    × (if r.result
        then (disable_server_forwarding r.state ≡ (no_server, restore_rules ∷ []))
          × ((conf : Bytes) × (file ≡ some conf)
              × (written r.actions
                  ≡ pf_rules (nat_rule r.state.iface r.state.source) (pass_in r.state.tun_name)
                      (pass_out r.state.iface) (lines conf)
                    ∷ []))
        else (r.state ≡ s))

if-IsServed :
    (file : Option Bytes) (s : ServerState) (b : Bool) (x y : Outcome Action ServerState)
    → IsServed file s x
    → IsServed file s y
    → IsServed file s (if b then x else y)
if-IsServed file s true x y p q = p
if-IsServed file s false x y p q = q

with_conf-IsServed :
    (sh : Shell) (s new : ServerState) (conf : Option Bytes)
    → new.active ≡ true
    → IsServed conf s (with_conf sh s new conf)
unfolding leaves_file written disable_server_forwarding
with_conf-IsServed sh s new none on = (refl, refl)
with_conf-IsServed sh s new (some conf) on =
    let rules =
      pf_rules (nat_rule new.iface new.source) (pass_in new.tun_name) (pass_out new.iface)
        (lines conf) in
    if-IsServed (some conf) s (not sh.writable) (refused s (set_forwarding ∷ []))
      (load_pf sh s new rules) (refl, refl)
      (if-IsServed (some conf) s (ok sh load_rules)
        (record {
          result = true;
          state = new;
          actions = set_forwarding ∷ write_rules rules ∷ load_rules ∷ enable_pf ∷ remove_rules ∷ [];
        })
        (refused s (set_forwarding ∷ write_rules rules ∷ load_rules ∷ remove_rules ∷ []))
        (refl, (rw (on), (conf, refl, refl))) (refl, refl))

pub enable_server_forwarding-IsServed :
    (sh : Shell) (s : ServerState) (tun subnet iface : Bytes)
    → IsServed sh.pf_conf s (enable_server_forwarding sh s tun subnet iface)
unfolding enable_server_forwarding leaves_file
enable_server_forwarding-IsServed sh s tun subnet iface =
    let out = or_else iface (get_default_gateway sh).device in
    let new =
      active_server out (or_else subnet (codes "10.0.0.0/24")) (or_else tun (codes "utun0")) in
    let go = with_conf sh s new sh.pf_conf in
    if-IsServed sh.pf_conf s (is_empty out) (refused s [])
      (if not (ok sh set_forwarding) then refused s (set_forwarding ∷ []) else go) (refl, refl)
      (if-IsServed sh.pf_conf s (not (ok sh set_forwarding)) (refused s (set_forwarding ∷ [])) go
        (refl, refl) (with_conf-IsServed sh s new sh.pf_conf refl))
