-- ===== src/FullTunnel/Macos/Dns.antt =====
-- cpp/full_tunnel_macos.cpp: the DNS servers of a service, replaced and put back.
use mathlib.Core.List.{Mem, mem-cons_self, mem-append_right}
use nospoon.Base.{
  ◌≡◌, ◌≢◌, refl, Bool, true, false, not, List, [], ◌∷◌, map, Bytes, codes, is_empty, if◌then◌else◌,
  arith,
}
use nospoon.FullTunnel.{is_valid, or_else}
use nospoon.FullTunnel.Ledger.{Outcome, call_all}
use nospoon.FullTunnel.Macos.{
  ClientState, Shell, Action, ok, no_client, enable_client_full_tunnel, add_host_exemption,
  disable_client_full_tunnel, half_deletes, delete_host, host, add_route, set_dns, tunnel_on,
  tunnel_dns, active_client, get_default_gateway, get_network_service_for_device, get_dns, dns_args,
  low_half, high_half, half_routes6,
}
use nospoon.FullTunnel.Macos.Undo.{exempt_all, when_on}

module _ (sh : Shell) where
  abbrev pub found_service : Bytes
  found_service = get_network_service_for_device sh (get_default_gateway sh).device

  -- A tunnel that is on with the DNS of a service replaced, and the old servers kept.
  pub record HasDns (service : Bytes) (c : ClientState) : Type 0 where
    is_active : c.active ≡ true
    of_service : c.network_service ≡ service
    old_servers : c.saved_dns ≡ get_dns sh service

  exempt-HasDns :
      (service : Bytes) (c : ClientState) (h : Bytes)
      → HasDns service c
      → HasDns service (add_host_exemption sh c h).0
  unfolding add_host_exemption
  exempt-HasDns service c h d = ground arith

  exempt_all-HasDns :
      (service : Bytes) (c : ClientState) (hosts : List Bytes)
      → HasDns service c
      → HasDns service (exempt_all sh c hosts).0
  unfolding call_all
  exempt_all-HasDns service c [] d = d
  exempt_all-HasDns service c (h ∷ hosts) d =
      exempt_all-HasDns service (add_host_exemption sh c h).0 hosts (exempt-HasDns service c h d)

  tunnel_on-HasDns :
      (c : ClientState) (log : List Action) (service : Bytes)
      → c.active ≡ true
      → service ≢ []
      → HasDns service (tunnel_on log (tunnel_dns sh c service)).state
  tunnel_on-HasDns c log [] on some_service = absurd (some_service refl)
  tunnel_on-HasDns c log (x ∷ s) on some_service = record {
    is_active = on;
    of_service = refl;
    old_servers = refl;
  }

  -- What holds of the state if the call succeeded.
  abbrev IfDone : (ClientState → Type 0) → Outcome Action ClientState → Type 0
  IfDone P r = r.result ≡ true → P r.state

  if-IfDone :
      (P : ClientState → Type 0) (b : Bool) (x y : Outcome Action ClientState)
      → IfDone P x
      → IfDone P y
      → IfDone P (if b then x else y)
  if-IfDone P true x y p q = p
  if-IfDone P false x y p q = q

  enable_client-HasDns :
      (c : ClientState) (tun remote : Bytes)
      → found_service ≢ []
      → IfDone (HasDns found_service) (enable_client_full_tunnel sh c tun remote)
  unfolding enable_client_full_tunnel
  enable_client-HasDns c tun remote some_service =
      let gw = get_default_gateway sh in
      let new = active_client c (or_else tun (codes "utun0")) gw remote in
      let exempt = add_route (host remote gw.gateway) in
      let P = HasDns found_service in
      if-IfDone P (is_empty remote) _ _ (λ h. absurd (cc))
        (if-IfDone P (not (is_valid gw)) _ _ (λ h. absurd (cc))
          (if-IfDone P (not (ok sh (low_half new.tun_name))) _ _ (λ h. absurd (cc))
            (if-IfDone P (not (ok sh (high_half new.tun_name))) _ _ (λ h. absurd (cc))
              (λ _.
                tunnel_on-HasDns new
                  (exempt
                    ∷ low_half new.tun_name
                    ∷ high_half new.tun_name
                    ∷ half_routes6 new.tun_name)
                  found_service refl some_service))))

  restores :
      (service : Bytes) (c : ClientState)
      → service ≢ []
      → HasDns service c
      → Mem (set_dns service (dns_args (get_dns sh service))) (disable_client_full_tunnel c).1
  unfolding disable_client_full_tunnel
  restores [] c some_service d = absurd (some_service refl)
  restores (x ∷ s) c some_service d = when_on c.active c no_client d.is_active (
      mem-append_right (half_deletes c.tun_name) (
        mem-append_right (map (delete_host c.gateway) c.remote_hosts)
          (rw (d.of_service, d.old_servers) mem-cons_self)))

  pub macos_tunnel-dns :
      (c : ClientState) (tun remote : Bytes) (hosts : List Bytes)
      → (enable_client_full_tunnel sh c tun remote).result ≡ true
      → found_service ≢ []
      → let up = exempt_all sh (enable_client_full_tunnel sh c tun remote).state hosts in
        Mem
          (set_dns found_service (dns_args (get_dns sh found_service)))
          (disable_client_full_tunnel up.0).1
  macos_tunnel-dns c tun remote hosts done some_service =
      let r = enable_client_full_tunnel sh c tun remote in
      restores found_service (exempt_all sh r.state hosts).0 some_service (
        exempt_all-HasDns found_service r.state hosts
          (enable_client-HasDns c tun remote some_service done))
