-- ===== src/FullTunnel/Routes.antt =====
-- cpp/full_tunnel_linux.cpp: the routes that the client adds, and those that a disable call deletes.
use mathlib.Core.List.{Mem, mem-cons_self, mem-append_left, mem-append_right, mem-map_of_mem}
use nospoon.Base.{
  ◌≡◌, refl, sym, ap, subst, ◌∙◌, Bool, true, false, not, ◌||◌, List, [], ◌∷◌, ◌++◌, map, Bytes,
  is_empty, if◌then◌else◌, arith, append_assoc, All, All-append, append-nil,
}
use nospoon.FullTunnel.{
  ClientState, Shell, Action, Route, ok, no_client, add_host_exemption, disable_client_full_tunnel,
  half_deletes, member, delete_host, net, net6, host, delete_route, add_route,
}

abbrev pub added_route : Action → List Route
added_route (add_route r dev) = r ∷ []
added_route _ = []

-- The routes of the commands that ended well.
unfoldable pub added : Shell → List Action → List Route
added sh [] = []
added sh (a ∷ log) = (if ok sh a then added_route a else []) ++ added sh log

-- A route that `disable_client_full_tunnel` deletes.
abbrev pub CoveredBy : Bytes → List Bytes → Bytes → Route → Type 0
CoveredBy gw hosts tun (host h gateway) = (gateway ≡ gw) × Mem h hosts
CoveredBy gw hosts tun (net n dev) = Mem (delete_route (net n dev)) (half_deletes tun)
CoveredBy gw hosts tun (net6 n dev) = Mem (delete_route (net6 n dev)) (half_deletes tun)

abbrev pub Covered : ClientState → Route → Type 0
Covered c = CoveredBy c.gateway c.remote_hosts c.tun_name

abbrev pub Deleted : Shell → ClientState → Route → Type 0
Deleted sh c r = Mem (delete_route r) (disable_client_full_tunnel sh c).1

when_on :
    {a : Action} {S : Type 0} (b : Bool) (s t : S) {xs : List Action}
    → b ≡ true
    → Mem a xs
    → Mem a (if◌then◌else◌ {A = S × List Action} (not b) (s, []) (t, xs)).1
when_on false s t h m = absurd (ground arith)
when_on true s t h m = m

deleted_when_on :
    (sh : Shell) (c : ClientState) (a : Action)
    → c.active ≡ true
    → Mem a (half_deletes c.tun_name ++ map (delete_host c.gateway) c.remote_hosts)
    → Mem a (disable_client_full_tunnel sh c).1
unfolding disable_client_full_tunnel
deleted_when_on sh c a h m = when_on c.active c no_client h (
    subst (Mem a)
      (append_assoc (half_deletes c.tun_name) (map (delete_host c.gateway) c.remote_hosts) _)
      (mem-append_left _ m))

Covered-Deleted :
    (sh : Shell) (c : ClientState) (r : Route) → c.active ≡ true → Covered c r → Deleted sh c r
Covered-Deleted sh c (host k g) h (e, m) = deleted_when_on sh c _ h (
    mem-append_right (half_deletes c.tun_name) (
      subst (λ (x : Bytes). Mem (delete_host x k) (map (delete_host c.gateway) c.remote_hosts))
        (sym e) (mem-map_of_mem (delete_host c.gateway) m)))
Covered-Deleted sh c (net k t) h m = deleted_when_on sh c _ h (mem-append_left _ m)
Covered-Deleted sh c (net6 k t) h m = deleted_when_on sh c _ h (mem-append_left _ m)

pub All-Deleted :
    (sh : Shell) (c : ClientState) (rs : List Route)
    → c.active ≡ true
    → All (Covered c) rs
    → All (Deleted sh c) rs
All-Deleted sh c [] h v = tt
All-Deleted sh c (r ∷ rs) h v = (Covered-Deleted sh c r h v.0, All-Deleted sh c rs h v.1)

added-append : (sh : Shell) (xs ys : List Action) → added sh (xs ++ ys) ≡ added sh xs ++ added sh ys
unfolding added
added-append sh [] ys = refl
added-append sh (x ∷ xs) ys =
    ap (◌++◌ (if ok sh x then added_route x else [])) (added-append sh xs ys)
    ∙ sym (append_assoc (if ok sh x then added_route x else []) (added sh xs) (added sh ys))

abbrev pub exempted : ClientState → Bytes → ClientState
exempted c h = record c { remote_hosts = c.remote_hosts ++ (h ∷ []) }

exempted-Covered :
    (c : ClientState) (h : Bytes) (r : Route) → Covered c r → Covered (exempted c h) r
exempted-Covered c h (host k g) (e, m) = (e, mem-append_left _ m)
exempted-Covered c h (net k t) m = m
exempted-Covered c h (net6 k t) m = m

exempted-All :
    (c : ClientState) (h : Bytes) (rs : List Route)
    → All (Covered c) rs
    → All (Covered (exempted c h)) rs
exempted-All c h [] v = tt
exempted-All c h (r ∷ rs) v = (exempted-Covered c h r v.0, exempted-All c h rs v.1)

-- What a call leaves and runs keeps every route of `rs` and every route it adds covered.
abbrev pub Keeps : Shell → List Route → ClientState × List Action → Type 0
Keeps sh rs (c, acts) = All (Covered c) (rs ++ added sh acts)

if-Keeps :
    (sh : Shell) (rs : List Route) (b : Bool) (x y : ClientState × List Action)
    → (b ≡ true → Keeps sh rs x)
    → (b ≡ false → Keeps sh rs y)
    → Keeps sh rs (if b then x else y)
if-Keeps sh rs true x y p q = p refl
if-Keeps sh rs false x y p q = q refl

module _ (sh : Shell) (c : ClientState) (h : Bytes) (rs : List Route) (v : All (Covered c) rs) where
  idle-Keeps : Keeps sh rs (c, [])
  unfolding added
  idle-Keeps = subst (All (Covered c)) (sym (append-nil rs)) v

  abbrev route : Action
  route = add_route (host h c.gateway) c.gateway_device

  new-Keeps : ok sh route ≡ true → Keeps sh rs (exempted c h, route ∷ [])
  unfolding added
  new-Keeps e =
      subst (λ (l : List Route). All (Covered (exempted c h)) (rs ++ l))
        (ap (λ (b : Bool). (if b then added_route route else []) ++ []) (sym e))
        (All-append (Covered (exempted c h)) rs (added_route route) (exempted-All c h rs v)
          ((refl, mem-append_right c.remote_hosts mem-cons_self), tt))

  failed-Keeps : ok sh route ≡ false → Keeps sh rs (c, route ∷ [])
  unfolding added
  failed-Keeps e =
      subst (λ (l : List Route). All (Covered c) (rs ++ l))
        (ap (λ (b : Bool). (if b then added_route route else []) ++ []) (sym e)) idle-Keeps

  -- A call of `add_host_exemption`: what was deleted before is deleted still, and a new route is.
  exempt-Keeps : Keeps sh rs (add_host_exemption sh c h)
  unfolding add_host_exemption
  exempt-Keeps =
      if-Keeps sh rs (not c.active || is_empty h || is_empty c.gateway || is_empty c.gateway_device)
        (c, []) _ (λ _. idle-Keeps)
        (λ _.
          if-Keeps sh rs (member h c.remote_hosts) (c, []) _ (λ _. idle-Keeps)
            (λ _.
              if-Keeps sh rs (ok sh route) (exempted c h, route ∷ []) (c, route ∷ []) new-Keeps
                failed-Keeps))

-- The exemptions that the client asks for while the tunnel is up, one call after the other.
unfoldable pub exempt_all : Shell → ClientState → List Bytes → ClientState × List Action
unfolding add_host_exemption
exempt_all sh c [] = (c, [])
exempt_all sh c (h ∷ hs) =
    let (c', acts) = add_host_exemption sh c h in
    let (c'', rest) = exempt_all sh c' hs in (c'', acts ++ rest)

pub exempt_all-Keeps :
    (sh : Shell) (c : ClientState) (hs : List Bytes) (rs : List Route)
    → All (Covered c) rs
    → Keeps sh rs (exempt_all sh c hs)
unfolding exempt_all added
exempt_all-Keeps sh c [] rs v = subst (All (Covered c)) (sym (append-nil rs)) v
exempt_all-Keeps sh c (h ∷ hs) rs v =
    let step = add_host_exemption sh c h in
    subst (All (Covered (exempt_all sh step.0 hs).0))
      (append_assoc rs (added sh step.1) (added sh (exempt_all sh step.0 hs).1)
        ∙ ap (◌++◌ rs) (sym (added-append sh step.1 (exempt_all sh step.0 hs).1)))
      (exempt_all-Keeps sh step.0 hs (rs ++ added sh step.1) (exempt-Keeps sh c h rs v))

exempt-active :
    (sh : Shell) (c : ClientState) (h : Bytes) → (add_host_exemption sh c h).0.active ≡ c.active
unfolding add_host_exemption
exempt-active sh c h = ground arith

pub exempt_all-active :
    (sh : Shell) (c : ClientState) (hs : List Bytes) → (exempt_all sh c hs).0.active ≡ c.active
unfolding exempt_all
exempt_all-active sh c [] = refl
exempt_all-active sh c (h ∷ hs) =
    exempt_all-active sh (add_host_exemption sh c h).0 hs ∙ exempt-active sh c h
