-- ===== src/FullTunnel/Windows/Undo.antt =====
-- cpp/full_tunnel_windows.cpp: a whole tunnel, from its enable call to its disable call.
use mathlib.Core.List.{
  Mem, mem-cons_self, mem-cons_of_mem, mem-append_left, mem-append_right, mem-map_of_mem,
}
use nospoon.Base.{
  ◌≡◌, refl, ◌∙◌, Bool, true, false, not, ◌||◌, List, [], ◌∷◌, ◌++◌, map, Bytes, codes, is_empty,
  if◌then◌else◌, arith, All, All-append, Option, none, some,
}
use nospoon.FullTunnel.{or_else, member}
use nospoon.FullTunnel.Ledger.{
  Outcome, added, Safe, Safe-added, Keeps, if-Keeps, idle-Keeps, one-Keeps, call_all,
  call_all-Keeps, call_all_same,
}
use nospoon.FullTunnel.Windows.{
  ClientState, Shell, Action, Route, ok, no_client, run_script, enable_client_full_tunnel,
  add_host_exemption, disable_client_full_tunnel, net, net6, host, add_route, delete_net,
  delete_net6, delete_host, flush_dns, script, net_deletes, net6_deletes, remove_rule, tunnel_on,
  with_routes, with_gateway, active_client, exempted, low_half, high_half, half_routes6, refused,
  ps_capture, split_pipe, index_script, gateway_script, nrpt_script,
}

abbrev pub added_route : Action → List Route
added_route (add_route r) = r ∷ []
added_route _ = []

-- The command that takes a route back.
abbrev pub removes : Route → Action
removes (net d i) = delete_net d
removes (net6 d i) = delete_net6 d i
removes (host h g i) = delete_host h

-- A route that the disable call deletes.
abbrev CoveredBy : Bytes → List Bytes → Route → Type 0
CoveredBy idx hosts (net d i) = Mem (delete_net d) net_deletes
CoveredBy idx hosts (net6 d i) = Mem (delete_net6 d i) (net6_deletes idx)
CoveredBy idx hosts (host h g i) = Mem h hosts

abbrev Covered : ClientState → Route → Type 0
Covered c = CoveredBy c.tun_if_index c.remote_hosts

exempted-Covered :
    (c : ClientState) (h : Bytes) (r : Route) → Covered c r → Covered (exempted c h) r
exempted-Covered c h (host k g i) m = mem-append_left _ m
exempted-Covered c h (net d i) m = m
exempted-Covered c h (net6 d i) m = m

when_on :
    {a : Action} {S : Type 0} (b : Bool) (s t : S) {xs : List Action}
    → b ≡ true
    → Mem a xs
    → Mem a (if◌then◌else◌ {A = S × List Action} (not b) (s, []) (t, xs)).1
when_on false s t h m = absurd (cc)
when_on true s t h m = m

covered_delete :
    (idx : Bytes) (hosts : List Bytes) (rest : List Action) (r : Route)
    → CoveredBy idx hosts r
    → Mem (removes r) (net_deletes ++ (net6_deletes idx ++ (map delete_host hosts ++ rest)))
covered_delete idx hosts rest (net d i) m = mem-append_left _ m
covered_delete idx hosts rest (net6 d i) m = mem-append_right net_deletes (mem-append_left _ m)
covered_delete idx hosts rest (host h g i) m =
    mem-append_right net_deletes
      (mem-append_right (net6_deletes idx) (mem-append_left _ (mem-map_of_mem delete_host m)))

module _ (sh : Shell) where
  abbrev pub Deleted : ClientState → Route → Type 0
  Deleted c r = Mem (removes r) (disable_client_full_tunnel sh c).1

  All-Deleted :
      (c : ClientState) (rs : List Route)
      → c.active ≡ true
      → All (Covered c) rs
      → All (Deleted c) rs
  unfolding disable_client_full_tunnel
  All-Deleted c [] h v = tt
  All-Deleted c (r ∷ rs) h v = (
    when_on c.active c no_client h (
        covered_delete c.tun_if_index c.remote_hosts
          (remove_rule sh c.nrpt_rule_name ++ (flush_dns ∷ [])) r v.0),
    All-Deleted c rs h v.1,
  )

  abbrev pub added_by : List Action → List Route
  added_by = added (ok sh) added_route

  abbrev pub exempt_all : ClientState → List Bytes → ClientState × List Action
  exempt_all = call_all (add_host_exemption sh)

  abbrev IsSafe : ClientState → Action → Type 0
  IsSafe = Safe (ok sh) added_route Covered

  exempt-Keeps :
      (c : ClientState) (h : Bytes) (rs : List Route)
      → All (Covered c) rs
      → Keeps (ok sh) added_route Covered rs (add_host_exemption sh c h)
  unfolding add_host_exemption
  exempt-Keeps c h rs v =
      let route = add_route (host h c.gateway c.gateway_if_index) in
      let idle = idle-Keeps (ok sh) added_route Covered rs c v in
      if-Keeps (ok sh) added_route Covered rs (not c.active || is_empty h) (c, []) _ (λ _. idle)
        (λ _.
          if-Keeps (ok sh) added_route Covered rs (member h c.remote_hosts) (c, []) _ (λ _. idle)
            (λ _.
              if-Keeps (ok sh) added_route Covered rs (ok sh route) (exempted c h, route ∷ [])
                (c, route ∷ [])
                (λ _.
                  one-Keeps (ok sh) added_route Covered rs c (exempted c h) route
                    (exempted-Covered c h)
                    (λ _. (mem-append_right c.remote_hosts mem-cons_self, tt)) v)
                (λ failed.
                  one-Keeps (ok sh) added_route Covered rs c c route (λ r k. k)
                    (λ done. absurd (cc (failed, done))) v)))

  exempt-active : (c : ClientState) (h : Bytes) → (add_host_exemption sh c h).0.active ≡ c.active
  unfolding add_host_exemption
  exempt-active c h = ground arith

  -- Every route that an enable call adds is covered by what it leaves.
  abbrev SafeOutcome : Outcome Action ClientState → Type 0
  SafeOutcome r = All (IsSafe r.state) r.actions

  if-SafeOutcome :
      (b : Bool) (x y : Outcome Action ClientState)
      → (b ≡ true → SafeOutcome x)
      → (b ≡ false → SafeOutcome y)
      → SafeOutcome (if b then x else y)
  if-SafeOutcome true x y p q = p refl
  if-SafeOutcome false x y p q = q refl

  run_script-Safe : (c : ClientState) (text : Bytes) → All (IsSafe c) (run_script sh text)
  run_script-Safe c text = go (sh.temp_file text)
    where
      go : (b : Bool) → All (IsSafe c) (if b then script text ∷ [] else [])
      go true = ((λ _. tt), tt)
      go false = tt

  module _ (c : ClientState) (remote : Bytes) where
    abbrev exempt : Action
    exempt = add_route (host remote c.gateway c.gateway_if_index)

    abbrev routes : List Action
    routes = exempt ∷ low_half c.tun_if_index ∷ high_half c.tun_if_index ∷ []

    routes-Safe : All (IsSafe (exempted c remote)) routes
    routes-Safe = (
      λ _. (mem-append_right c.remote_hosts mem-cons_self, tt),
      (λ _. (mem-cons_self, tt), (λ _. (mem-cons_of_mem _ mem-cons_self, tt), tt)),
    )

    halves6-Safe :
        (d : ClientState)
        → is_empty d.tun_if_index ≡ false
        → All (IsSafe d) (half_routes6 d.tun_if_index)
    halves6-Safe d some_index = (
      λ _. (rw some_index mem-cons_self, tt),
      (λ _. (rw some_index (mem-cons_of_mem _ mem-cons_self), tt), tt),
    )

    on-SafeOutcome :
        is_empty c.tun_if_index ≡ false → SafeOutcome (tunnel_on sh (exempted c remote) routes)
    on-SafeOutcome some_index =
        let d = record (exempted c remote) { nrpt_rule_name = ps_capture sh nrpt_script } in
        All-append (IsSafe d) routes
          (half_routes6 c.tun_if_index ++ (run_script sh nrpt_script ++ (flush_dns ∷ [])))
          routes-Safe
          (All-append (IsSafe d) (half_routes6 c.tun_if_index)
            (run_script sh nrpt_script ++ (flush_dns ∷ [])) (halves6-Safe d some_index)
            (All-append (IsSafe d) (run_script sh nrpt_script) (flush_dns ∷ [])
              (run_script-Safe d nrpt_script) ((λ _. tt), tt)))

    with_routes-SafeOutcome :
        is_empty c.tun_if_index ≡ false → SafeOutcome (with_routes sh c remote)
    with_routes-SafeOutcome some_index =
        let idx = c.tun_if_index in
        let c' = exempted c remote in
        let safe = routes-Safe in
        let ends1 = refused c' (exempt ∷ low_half idx ∷ []) in
        let ends2 = refused c' routes in
        let on = tunnel_on sh c' routes in
        if-SafeOutcome (not (ok sh exempt)) (refused c (exempt ∷ []))
          (if not (ok sh (low_half idx))
            then ends1
            else if not (ok sh (high_half idx))
            then ends2
            else on)
          (λ failed. ((λ done. absurd (ground arith)), tt))
          (λ _.
            if-SafeOutcome (not (ok sh (low_half idx))) ends1
              (if not (ok sh (high_half idx)) then ends2 else on) (λ _. (safe.0, (safe.1.0, tt)))
              (λ _.
                if-SafeOutcome (not (ok sh (high_half idx))) ends2 on (λ _. safe)
                  (λ _. on-SafeOutcome some_index)))

  with_gateway-SafeOutcome :
      (c : ClientState) (tun remote : Bytes) (parts : Option (Bytes × Bytes))
      → SafeOutcome (with_gateway sh c tun remote parts)
  with_gateway-SafeOutcome c tun remote none = tt
  with_gateway-SafeOutcome c tun remote (some (gw, gw_idx)) =
      let idx = ps_capture sh (index_script tun) in
      if-SafeOutcome (is_empty idx) (refused c [])
        (with_routes sh (active_client c tun idx gw gw_idx) remote) (λ _. tt)
        (λ some_index.
          with_routes-SafeOutcome (active_client c tun idx gw gw_idx) remote some_index)

  enable_client-SafeOutcome :
      (c : ClientState) (tun remote : Bytes)
      → SafeOutcome (enable_client_full_tunnel sh c tun remote)
  unfolding enable_client_full_tunnel
  enable_client-SafeOutcome c tun remote =
      let combined = ps_capture sh gateway_script in
      let r = with_gateway sh c (or_else tun (codes "Nospoon")) remote (split_pipe combined) in
      if-SafeOutcome (is_empty remote) (refused c [])
        (if is_empty combined then refused c [] else r) (λ _. tt)
        (λ _.
          if-SafeOutcome (is_empty combined) (refused c []) r (λ _. tt)
            (λ _.
              with_gateway-SafeOutcome c (or_else tun (codes "Nospoon")) remote
                (split_pipe combined)))

  -- On Windows, once the enable call has turned the tunnel on, though it may fail later, and after
  -- any host exemptions, the disable call deletes every route whose command ended well.
  pub windows_tunnel-Deleted :
      (c : ClientState) (tun remote : Bytes) (hosts : List Bytes)
      → (enable_client_full_tunnel sh c tun remote).state.active ≡ true
      → let r = enable_client_full_tunnel sh c tun remote in
        let up = exempt_all r.state hosts in
        All (Deleted up.0) (added_by r.actions ++ added_by up.1)
  windows_tunnel-Deleted c tun remote hosts on =
      let r = enable_client_full_tunnel sh c tun remote in
      let up = exempt_all r.state hosts in
      All-Deleted up.0 (added_by r.actions ++ added_by up.1)
        (call_all_same (add_host_exemption sh) (λ (s : ClientState). s.active) exempt-active r.state
            hosts
          ∙ on)
        (call_all-Keeps (ok sh) added_route Covered (add_host_exemption sh) exempt-Keeps r.state
          hosts (added_by r.actions)
          (Safe-added (ok sh) added_route Covered r.state r.actions
            (enable_client-SafeOutcome c tun remote)))
