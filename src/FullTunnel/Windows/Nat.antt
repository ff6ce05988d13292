-- ===== src/FullTunnel/Windows/Nat.antt =====
-- cpp/full_tunnel_windows.cpp: the server's forwarding and NAT, set up and taken back.
use nospoon.Base.{
  ◌≡◌, refl, Bool, true, false, not, ◌||◌, List, [], ◌∷◌, Bytes, codes, is_empty, if◌then◌else◌,
  arith,
}
use nospoon.FullTunnel.{or_else}
use nospoon.FullTunnel.Ledger.{Outcome}
use nospoon.FullTunnel.Windows.{
  ServerState, Shell, Action, ok, no_server, run_script, enable_server_forwarding,
  disable_server_forwarding, enable_forwarding, disable_forwarding, script, refused, try_nat,
  remove_nat_script,
}

-- The interfaces whose forwarding is turned on, and off again, and the scripts that are run.
unfoldable pub enabled : List Action → List Bytes
enabled [] = []
enabled (enable_forwarding i ∷ log) = i ∷ enabled log
enabled (_ ∷ log) = enabled log

unfoldable pub disabled : List Action → List Bytes
disabled [] = []
disabled (disable_forwarding i ∷ log) = i ∷ disabled log
disabled (_ ∷ log) = disabled log

unfoldable pub scripts : List Action → List Action
scripts [] = []
scripts (script text ∷ log) = script text ∷ scripts log
scripts (_ ∷ log) = scripts log

-- Some script was run and ended well.
unfoldable pub some_ended_well : Shell → List Action → Bool
some_ended_well sh [] = false
some_ended_well sh (a ∷ log) = ok sh a || some_ended_well sh log

-- After an enable call that succeeds, the disable call turns off what was turned on, runs the script
-- that removes NAT exactly if the one that adds it ended well, and clears the state.
abbrev pub IsUndone : Shell → ServerState → Outcome Action ServerState → Type 0
IsUndone sh s r =
    let down = disable_server_forwarding sh r.state in
    if r.result
    then (down.0 ≡ no_server)
      × (disabled down.1 ≡ enabled r.actions)
      × (scripts down.1 ≡ (
          if some_ended_well sh (scripts r.actions) then run_script sh remove_nat_script else []))
    else (r.state ≡ s)

if-IsUndone :
    (sh : Shell) (s : ServerState) (b : Bool) (x y : Outcome Action ServerState)
    → (b ≡ true → IsUndone sh s x)
    → (b ≡ false → IsUndone sh s y)
    → IsUndone sh s (if b then x else y)
if-IsUndone sh s true x y p q = p refl
if-IsUndone sh s false x y p q = q refl

module _ (sh : Shell) (s : ServerState) (tun subnet out : Bytes) where
  one-IsUndone :
      is_empty out ≡ true → IsUndone sh s (try_nat sh tun subnet out (enable_forwarding tun ∷ []))
  unfolding disable_server_forwarding enabled disabled scripts some_ended_well
  one-IsUndone h = ground arith

  two-IsUndone :
      is_empty out ≡ false
      → IsUndone sh s
          (try_nat sh tun subnet out (enable_forwarding tun ∷ enable_forwarding out ∷ []))
  unfolding disable_server_forwarding enabled disabled scripts some_ended_well
  two-IsUndone h = ground arith

-- After an enable call of the Windows server that succeeds, the disable call turns forwarding off on
-- the very interfaces where it was turned on, runs the script that removes the NAT exactly if the
-- one that adds it ended well, and clears the state; after one that fails the state is the old one.
pub windows_server-IsUndone :
    (sh : Shell) (s : ServerState) (tun subnet out : Bytes)
    → IsUndone sh s (enable_server_forwarding sh s tun subnet out)
unfolding enable_server_forwarding
windows_server-IsUndone sh s tun_arg subnet_arg out =
    let tun = or_else tun_arg (codes "Nospoon") in
    let subnet = or_else subnet_arg (codes "10.0.0.0/24") in
    let on_tun = enable_forwarding tun in
    let on_out = enable_forwarding out in
    let one = try_nat sh tun subnet out (on_tun ∷ []) in
    let two = try_nat sh tun subnet out (on_tun ∷ on_out ∷ []) in
    let fails = refused s (on_tun ∷ on_out ∷ []) in
    if-IsUndone sh s (not (ok sh on_tun)) (refused s (on_tun ∷ []))
      (if is_empty out then one else if not (ok sh on_out) then fails else two) (λ _. refl)
      (λ _.
        if-IsUndone sh s (is_empty out) one (if not (ok sh on_out) then fails else two)
          (one-IsUndone sh s tun subnet out)
          (λ some_out.
            if-IsUndone sh s (not (ok sh on_out)) fails two (λ _. refl)
              (λ _. two-IsUndone sh s tun subnet out some_out)))
