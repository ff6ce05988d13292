-- ===== src/FullTunnel/Rules.antt =====
-- cpp/full_tunnel_linux.cpp: the server's rules, set up and taken back.
use nospoon.Base.{
  ◌≡◌, refl, Bool, true, false, List, [], ◌∷◌, map, Bytes, codes, is_empty, if◌then◌else◌, arith,
}
use nospoon.FullTunnel.{
  ServerState, Shell, Action, Rule, Ran, run_all, no_server, rules, enable_server_forwarding,
  disable_server_forwarding, get_default_gateway, delete_rule, append_rule, set_forwarding, if_done,
  or_else, active_server,
}

-- The rules that the commands append, and those they delete.
unfoldable pub appended : List Action → List Rule
appended [] = []
appended (append_rule r ∷ log) = r ∷ appended log
appended (_ ∷ log) = appended log

unfoldable pub deleted : List Action → List Rule
deleted [] = []
deleted (delete_rule r ∷ log) = r ∷ deleted log
deleted (_ ∷ log) = deleted log

-- What a call of `enable_server_forwarding` promises about the call of `disable_server_forwarding`
-- that follows it.
abbrev pub IsUndone : ServerState → Ran ServerState → Type 0
IsUndone s r =
    if r.result
    then ((disable_server_forwarding r.state).0 ≡ no_server)
      × (deleted (disable_server_forwarding r.state).1 ≡ appended r.actions)
    else (r.state ≡ s)

-- Commands that all ended well were all run.
run_all-true :
    (sh : Shell) (acts : List Action) → (run_all sh acts).0 ≡ true → (run_all sh acts).1 ≡ acts
unfolding run_all
run_all-true sh [] h = refl
run_all-true sh (a ∷ later) h = ground (arith, run_all-true sh later)

done-IsUndone :
    (new old : ServerState) (ran : Bool × List Action)
    → new.active ≡ true
    → (ran.0 ≡ true → ran.1 ≡ set_forwarding ∷ map append_rule (rules new))
    → IsUndone old (if_done new old ran)
unfolding disable_server_forwarding appended deleted
done-IsUndone new old (false, acts) on h = refl
done-IsUndone new old (true, acts) on h = (rw (on), rw (on, h refl))

refused-IsUndone :
    (b : Bool) (s : ServerState) (r : Ran ServerState)
    → IsUndone s r
    → IsUndone s (if b then record { result = false; state = s; actions = [] } else r)
refused-IsUndone true s r h = refl
refused-IsUndone false s r h = h

-- After an enable call that succeeds the disable call deletes the very rules that were appended and
-- clears the state; after one that fails the state is the old one.
pub enable_server_forwarding-IsUndone :
    (sh : Shell) (s : ServerState) (tun subnet iface : Bytes)
    → IsUndone s (enable_server_forwarding sh s tun subnet iface)
unfolding enable_server_forwarding
enable_server_forwarding-IsUndone sh s tun subnet iface =
    let out = or_else iface (get_default_gateway sh).device in
    let new =
      active_server out (or_else subnet (codes "10.0.0.0/24")) (or_else tun (codes "tun0")) in
    let actions = set_forwarding ∷ map append_rule (rules new) in
    refused-IsUndone (is_empty out) s (if_done new s (run_all sh actions))
      (done-IsUndone new s (run_all sh actions) refl (run_all-true sh actions))
