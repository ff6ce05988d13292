-- ===== src/FullTunnel/Macos/Undo.antt =====
-- cpp/full_tunnel_macos.cpp: a whole tunnel, from its enable call to its disable call.
use mathlib.Core.List.{
  Mem, mem-cons_self, mem-cons_of_mem, mem-append_left, mem-append_right, mem-map_of_mem,
}
use nospoon.Base.{
  ◌≡◌, refl, sym, subst, ◌∙◌, Bool, true, false, not, ◌||◌, List, [], ◌∷◌, ◌++◌, map, Bytes, codes,
  is_empty, if◌then◌else◌, arith, append_assoc, All, All-append,
}
use nospoon.FullTunnel.{is_valid, or_else, member}
use nospoon.FullTunnel.Ledger.{
  Outcome, added, Safe, Safe-added, Keeps, if-Keeps, idle-Keeps, one-Keeps, call_all,
  call_all-Keeps, call_all_same,
}
use nospoon.FullTunnel.Macos.{
  ClientState, Shell, Action, Route, ok, no_client, enable_client_full_tunnel, add_host_exemption,
  disable_client_full_tunnel, half_deletes, delete_host, net, net6, host, add_route, delete_route,
  set_dns, with_halves, tunnel_on, tunnel_dns, active_client, get_default_gateway,
  get_network_service_for_device, refused, low_half, high_half, half_routes6,
}

abbrev pub added_route : Action → List Route
added_route (add_route r) = r ∷ []
added_route _ = []

-- A route that the disable call deletes.
abbrev CoveredBy : Bytes → List Bytes → Bytes → Route → Type 0
CoveredBy gw hosts tun (host h gateway) = (gateway ≡ gw) × Mem h hosts
CoveredBy gw hosts tun (net n dev) = Mem (delete_route (net n dev)) (half_deletes tun)
CoveredBy gw hosts tun (net6 n dev) = Mem (delete_route (net6 n dev)) (half_deletes tun)

abbrev Covered : ClientState → Route → Type 0
Covered c = CoveredBy c.gateway c.remote_hosts c.tun_name

abbrev pub Deleted : ClientState → Route → Type 0
Deleted c r = Mem (delete_route r) (disable_client_full_tunnel c).1

pub when_on :
    {a : Action} {S : Type 0} (b : Bool) (s t : S) {xs : List Action}
    → b ≡ true
    → Mem a xs
    → Mem a (if◌then◌else◌ {A = S × List Action} (not b) (s, []) (t, xs)).1
when_on false s t h m = absurd (cc)
when_on true s t h m = m

deleted_when_on :
    (c : ClientState) (a : Action)
    → c.active ≡ true
    → Mem a (half_deletes c.tun_name ++ map (delete_host c.gateway) c.remote_hosts)
    → Mem a (disable_client_full_tunnel c).1
unfolding disable_client_full_tunnel
deleted_when_on c a h m = when_on c.active c no_client h (
    subst (Mem a)
      (append_assoc (half_deletes c.tun_name) (map (delete_host c.gateway) c.remote_hosts) _)
      (mem-append_left _ m))

Covered-Deleted : (c : ClientState) (r : Route) → c.active ≡ true → Covered c r → Deleted c r
Covered-Deleted c (host k g) h (e, m) = deleted_when_on c _ h (
    mem-append_right (half_deletes c.tun_name) (
      subst (λ (x : Bytes). Mem (delete_host x k) (map (delete_host c.gateway) c.remote_hosts))
        (sym e) (mem-map_of_mem (delete_host c.gateway) m)))
Covered-Deleted c (net k t) h m = deleted_when_on c _ h (mem-append_left _ m)
Covered-Deleted c (net6 k t) h m = deleted_when_on c _ h (mem-append_left _ m)

All-Deleted :
    (c : ClientState) (rs : List Route) → c.active ≡ true → All (Covered c) rs → All (Deleted c) rs
All-Deleted c [] h v = tt
All-Deleted c (r ∷ rs) h v = (Covered-Deleted c r h v.0, All-Deleted c rs h v.1)

abbrev exempted : ClientState → Bytes → ClientState
exempted c h = record c { remote_hosts = c.remote_hosts ++ (h ∷ []) }

exempted-Covered :
    (c : ClientState) (h : Bytes) (r : Route) → Covered c r → Covered (exempted c h) r
exempted-Covered c h (host k g) (e, m) = (e, mem-append_left _ m)
exempted-Covered c h (net k t) m = m
exempted-Covered c h (net6 k t) m = m

module _ (sh : Shell) where
  abbrev pub added_by : List Action → List Route
  added_by = added (ok sh) added_route

  abbrev pub exempt_all : ClientState → List Bytes → ClientState × List Action
  exempt_all = call_all (add_host_exemption sh)

  abbrev Keep : List Route → ClientState × List Action → Type 0
  Keep = Keeps (ok sh) added_route Covered

  -- A call of `add_host_exemption`: what was deleted before is deleted still, and a new route is.
  exempt-Keep :
      (c : ClientState) (h : Bytes) (rs : List Route)
      → All (Covered c) rs
      → Keep rs (add_host_exemption sh c h)
  unfolding add_host_exemption
  exempt-Keep c h rs v =
      let route = add_route (host h c.gateway) in
      let idle = idle-Keeps (ok sh) added_route Covered rs c v in
      if-Keeps (ok sh) added_route Covered rs (not c.active || is_empty h || is_empty c.gateway)
        (c, []) _ (λ _. idle)
        (λ _.
          if-Keeps (ok sh) added_route Covered rs (member h c.remote_hosts) (c, []) _ (λ _. idle)
            (λ _.
              if-Keeps (ok sh) added_route Covered rs (ok sh route) (exempted c h, route ∷ [])
                (c, route ∷ [])
                (λ _.
                  one-Keeps (ok sh) added_route Covered rs c (exempted c h) route
                    (exempted-Covered c h)
                    (λ _. ((refl, mem-append_right c.remote_hosts mem-cons_self), tt)) v)
                (λ failed.
                  one-Keeps (ok sh) added_route Covered rs c c route (λ r k. k)
                    (λ done. absurd (cc (failed, done))) v)))

  exempt-active : (c : ClientState) (h : Bytes) → (add_host_exemption sh c h).0.active ≡ c.active
  unfolding add_host_exemption
  exempt-active c h = ground arith

  -- Every route that an enable call adds is covered by what it leaves.
  abbrev SafeOutcome : Outcome Action ClientState → Type 0
  SafeOutcome r = All (Safe (ok sh) added_route Covered r.state) r.actions

  if-SafeOutcome :
      (b : Bool) (x y : Outcome Action ClientState)
      → SafeOutcome x
      → SafeOutcome y
      → SafeOutcome (if b then x else y)
  if-SafeOutcome true x y p q = p
  if-SafeOutcome false x y p q = q

  module _ (c : ClientState) (device remote : Bytes) (m : Mem remote c.remote_hosts) where
    abbrev routes_of : Bytes → List Bytes → Bytes → List Action
    routes_of gw hosts tun =
        add_route (host remote gw) ∷ low_half tun ∷ high_half tun ∷ half_routes6 tun

    abbrev routes : List Action
    routes = routes_of c.gateway c.remote_hosts c.tun_name

    routes-Safe : All (Safe (ok sh) added_route Covered c) routes
    routes-Safe = (
      λ _. ((refl, m), tt),
      (
        λ _. (mem-cons_of_mem _ mem-cons_self, tt),
        (
          λ _. (mem-cons_self, tt),
          (
            λ _. (mem-cons_of_mem _ (mem-cons_of_mem _ mem-cons_self), tt),
            (
              λ _. (mem-cons_of_mem _ (mem-cons_of_mem _ (mem-cons_of_mem _ mem-cons_self)), tt),
              tt,
            ),
          ),
        ),
      ),
    )

    dns-SafeOutcome : (service : Bytes) → SafeOutcome (tunnel_on routes (tunnel_dns sh c service))
    dns-SafeOutcome [] = All-append (Safe (ok sh) added_route Covered c) routes [] routes-Safe tt
    dns-SafeOutcome (x ∷ s) =
        All-append (Safe (ok sh) added_route Covered c) routes
          (set_dns (x ∷ s) (codes "1.1.1.1 8.8.8.8") ∷ []) routes-Safe ((λ _. tt), tt)

    halves-SafeOutcome : SafeOutcome (with_halves sh c device (add_route (host remote c.gateway)))
    halves-SafeOutcome =
        let tun = c.tun_name in
        let exempt = add_route (host remote c.gateway) in
        let safe = routes-Safe in
        let ends1 = refused c (exempt ∷ low_half tun ∷ []) in
        let ends2 = refused c (exempt ∷ low_half tun ∷ high_half tun ∷ []) in
        let on = tunnel_on routes (tunnel_dns sh c (get_network_service_for_device sh device)) in
        if-SafeOutcome (not (ok sh (low_half tun))) ends1
          (if not (ok sh (high_half tun)) then ends2 else on) (safe.0, (safe.1.0, tt))
          (if-SafeOutcome (not (ok sh (high_half tun))) ends2 on
            (safe.0, (safe.1.0, (safe.1.1.0, tt)))
            (dns-SafeOutcome (get_network_service_for_device sh device)))

  enable_client-SafeOutcome :
      (c : ClientState) (tun remote : Bytes)
      → SafeOutcome (enable_client_full_tunnel sh c tun remote)
  unfolding enable_client_full_tunnel
  enable_client-SafeOutcome c tun remote =
      let gw = get_default_gateway sh in
      let new = active_client c (or_else tun (codes "utun0")) gw remote in
      let r = with_halves sh new gw.device (add_route (host remote gw.gateway)) in
      if-SafeOutcome (is_empty remote) (refused c [])
        (if not (is_valid gw) then refused c [] else r) tt
        (if-SafeOutcome (not (is_valid gw)) (refused c []) r tt
          (halves-SafeOutcome new gw.device remote (mem-append_right c.remote_hosts mem-cons_self)))

  -- On macOS, once the enable call has turned the tunnel on, though it may fail later, and after any
  -- host exemptions, the disable call deletes every route whose command ended well.
  pub macos_tunnel-Deleted :
      (c : ClientState) (tun remote : Bytes) (hosts : List Bytes)
      → (enable_client_full_tunnel sh c tun remote).state.active ≡ true
      → let r = enable_client_full_tunnel sh c tun remote in
        let up = exempt_all r.state hosts in
        All (Deleted up.0) (added_by r.actions ++ added_by up.1)
  macos_tunnel-Deleted c tun remote hosts on =
      let r = enable_client_full_tunnel sh c tun remote in
      let up = exempt_all r.state hosts in
      All-Deleted up.0 (added_by r.actions ++ added_by up.1)
        (call_all_same (add_host_exemption sh) (λ (s : ClientState). s.active) exempt-active r.state
            hosts
          ∙ on)
        (call_all-Keeps (ok sh) added_route Covered (add_host_exemption sh) exempt-Keep r.state
          hosts (added_by r.actions)
          (Safe-added (ok sh) added_route Covered r.state r.actions
            (enable_client-SafeOutcome c tun remote)))
