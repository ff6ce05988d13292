-- ===== src/FullTunnel/Undo.antt =====
-- cpp/full_tunnel_linux.cpp: a whole tunnel, from its enable call to its disable call.
use mathlib.Core.List.{mem-cons_self, mem-cons_of_mem, mem-append_right}
use nospoon.Base.{
  ◌≡◌, refl, ◌∙◌, Bool, true, false, not, List, [], ◌∷◌, ◌++◌, Bytes, codes, is_empty,
  if◌then◌else◌, All, All-append,
}
use nospoon.FullTunnel.{
  ClientState, Shell, Action, Ran, ok, run_all, enable_client_full_tunnel, half_routes,
  half_routes6, active_client, refused, tunnel_on, set_dns, by_resolvectl, by_file, tunnel_dns,
  write_resolv_conf, which_resolvectl, set_rp_filter, get_default_gateway, is_valid, host,
  add_route, or_else,
}
use nospoon.FullTunnel.Routes.{
  Covered, Deleted, added, added_route, All-Deleted, exempt_all, exempt_all-Keeps,
  exempt_all-active,
}

-- An action that adds no route but a covered one.
abbrev Safe : ClientState → Action → Type 0
Safe c a = All (Covered c) (added_route a)

if-Safe :
    (c : ClientState) (b : Bool) (a : Action)
    → Safe c a
    → All (Covered c) (if b then added_route a else [])
if-Safe c true a h = h
if-Safe c false a h = tt

Safe-added :
    (sh : Shell) (c : ClientState) (acts : List Action)
    → All (Safe c) acts
    → All (Covered c) (added sh acts)
unfolding added
Safe-added sh c [] h = tt
Safe-added sh c (a ∷ acts) h =
    All-append (Covered c) (if ok sh a then added_route a else []) (added sh acts)
      (if-Safe c (ok sh a) a h.0) (Safe-added sh c acts h.1)

run_all-Safe :
    (sh : Shell) (c : ClientState) (acts : List Action)
    → All (Safe c) acts
    → All (Safe c) (run_all sh acts).1
unfolding run_all
run_all-Safe sh c [] h = tt
run_all-Safe sh c (a ∷ acts) h = go (ok sh a) (run_all-Safe sh c acts h.1)
  where
    go :
        (b : Bool)
        → All (Safe c) (run_all sh acts).1
        → All
            (Safe c)
            (if◌then◌else◌ {A = Bool × List Action} b
              ((run_all sh acts).0, a ∷ (run_all sh acts).1)
              (false, a ∷ [])).1
    go true r = (h.0, r)
    go false r = (h.0, tt)

-- Every route that the commands of an outcome add is covered by its state.
abbrev SafeRun : List Action → ClientState × List Action → Type 0
SafeRun acts (c, more) = All (Safe c) (acts ++ more)

if-SafeRun :
    (acts : List Action) (b : Bool) (x y : ClientState × List Action)
    → SafeRun acts x
    → SafeRun acts y
    → SafeRun acts (if b then x else y)
if-SafeRun acts true x y p q = p
if-SafeRun acts false x y p q = q

written-Safe :
    (c : ClientState) (b : Bool) (s : Bytes)
    → All (Safe c) (if b then write_resolv_conf s ∷ [] else [])
written-Safe c true s = (tt, tt)
written-Safe c false s = tt

module _ (sh : Shell) (c : ClientState) (tun : Bytes) (acts : List Action)
    (h : All (Safe c) acts) where
  -- The DNS settings add no route.
  dns-SafeRun : SafeRun acts (set_dns sh c tun)
  dns-SafeRun =
      if-SafeRun acts (ok sh which_resolvectl) (by_resolvectl c tun) (by_file sh c)
        (All-append (Safe c) acts (by_resolvectl c tun).1 h (tt, (tt, (tt, tt))))
        (All-append (Safe c) acts (by_file sh c).1 h (tt, written-Safe c sh.writable tunnel_dns))

-- What `tunnel_on` gives has its routes covered, if those it starts from are.
abbrev RanSafe : Ran ClientState → Type 0
RanSafe r = All (Safe r.state) r.actions

halves-Safe :
    (c : ClientState)
    → All (Safe c) (half_routes c.tun_name) × All (Safe c) (half_routes6 c.tun_name)
halves-Safe c = (
  ((mem-cons_of_mem _ mem-cons_self, tt), ((mem-cons_self, tt), tt)),
  (
    (mem-cons_of_mem _ (mem-cons_of_mem _ mem-cons_self), tt),
    ((mem-cons_of_mem _ (mem-cons_of_mem _ (mem-cons_of_mem _ mem-cons_self)), tt), tt),
  ),
)

tunnel_on-RanSafe :
    (sh : Shell) (c : ClientState) (before : List Action) (ran : Bool × List Action)
    → All (Safe c) before
    → All (Safe c) ran.1
    → RanSafe (tunnel_on sh c c.tun_name before ran)
tunnel_on-RanSafe sh c before (false, ran) p q = All-append (Safe c) before ran p q
tunnel_on-RanSafe sh c before (true, ran) p q =
    dns-SafeRun sh c c.tun_name (before ++ (ran ++ half_routes6 c.tun_name)) (
      All-append (Safe c) before (ran ++ half_routes6 c.tun_name) p
        (All-append (Safe c) ran (half_routes6 c.tun_name) q (halves-Safe c).1))

refused-RanSafe :
    (b : Bool) (c : ClientState) (r : Ran ClientState)
    → RanSafe r
    → RanSafe (if b then refused c else r)
refused-RanSafe true c r h = tt
refused-RanSafe false c r h = h

enable_client-RanSafe :
    (sh : Shell) (c : ClientState) (tun remote : Bytes)
    → RanSafe (enable_client_full_tunnel sh c tun remote)
unfolding enable_client_full_tunnel
enable_client-RanSafe sh c tun remote =
    let dev = or_else tun (codes "tun0") in
    let gw = get_default_gateway sh in
    let st = active_client sh c dev gw remote in
    let before = set_rp_filter (codes "2") ∷ add_route (host remote gw.gateway) gw.device ∷ [] in
    let r = tunnel_on sh st dev before (run_all sh (half_routes dev)) in
    refused-RanSafe (is_empty remote) c (if not (is_valid gw) then refused c else r) (
      refused-RanSafe (not (is_valid gw)) c r (
        tunnel_on-RanSafe sh st before (run_all sh (half_routes dev))
          (tt, (((refl, mem-append_right c.remote_hosts mem-cons_self), tt), tt))
          (run_all-Safe sh st (half_routes dev) (halves-Safe st).0)))

-- Once the enable call has turned the tunnel on, though it may fail later, and after any host
-- exemptions, the disable call deletes every route whose command ended well.
pub disable_client-Deleted :
    (sh : Shell) (c : ClientState) (tun remote : Bytes) (hosts : List Bytes)
    → (enable_client_full_tunnel sh c tun remote).state.active ≡ true
    → let r = enable_client_full_tunnel sh c tun remote in
      let up = exempt_all sh r.state hosts in
      All (Deleted sh up.0) (added sh r.actions ++ added sh up.1)
disable_client-Deleted sh c tun remote hosts on =
    let r = enable_client_full_tunnel sh c tun remote in
    let up = exempt_all sh r.state hosts in
    All-Deleted sh up.0 (added sh r.actions ++ added sh up.1)
      (exempt_all-active sh r.state hosts ∙ on)
      (exempt_all-Keeps sh r.state hosts (added sh r.actions)
        (Safe-added sh r.state r.actions (enable_client-RanSafe sh c tun remote)))
