-- ===== src/FullTunnel/Macos/Tests.antt =====
-- Runs of a full tunnel on a concrete Mac.
use mathlib.Core.List.{Mem}
use nospoon.Base.{◌≡◌, ◌≢◌, refl, true, [], ◌∷◌, ◌++◌, List, some, codes, All, Bytes}
use nospoon.FullTunnel.{no_server}
use nospoon.FullTunnel.Macos.{
  Shell, no_client, enable_server_forwarding, enable_client_full_tunnel, get_dns,
  get_network_service_for_device, dns_args, disable_client_full_tunnel, set_dns,
  get_default_gateway,
}
use nospoon.FullTunnel.MacosText.{lines, pf_rules}
use nospoon.FullTunnel.Macos.Rules.{
  IsServed, enable_server_forwarding-IsServed, pf_rules_lem, cut_at_last, Inserted, behind_last,
  is_anchor,
}
use nospoon.FullTunnel.Macos.Undo.{Deleted, added_by, exempt_all, macos_tunnel-Deleted}
use nospoon.FullTunnel.Macos.Dns.{macos_tunnel-dns, found_service}

abbrev mac : Shell
mac = record {
  exit = λ _. 0;
  default_route = codes "   route to: default\n    gateway: 192.168.1.1\n  interface: en0\n";
  hardware_ports =
      codes "\nHardware Port: Ethernet\nDevice: en5\n\nHardware Port: Wi-Fi \nDevice: en0\n";
  dns_servers = λ _. codes "9.9.9.9\n 8.8.4.4\n";
  pf_conf = some (codes "scrub-anchor \"a\"\nnat-anchor \"a\"\nload anchor \"a\" from \"b\"\n");
  writable = true;
}

service_found : get_network_service_for_device mac (codes "en0") ≡ codes "Wi-Fi"
unfolding get_network_service_for_device
service_found = refl

servers_found : get_dns mac (codes "Wi-Fi") ≡ codes "9.9.9.9" ∷ codes "8.8.4.4" ∷ []
unfolding get_dns
servers_found = refl

servers_joined : dns_args (codes "9.9.9.9" ∷ codes "8.8.4.4" ∷ []) ≡ codes "9.9.9.9 8.8.4.4"
unfolding dns_args
servers_joined = refl

rules_put_in :
    pf_rules
      (codes "nat")
      (codes "in")
      (codes "out")
      (lines (codes "nat-anchor \"a\"\nload anchor \"a\"\n"))
    ≡ codes "nat-anchor \"a\""
      ∷ codes "nat"
      ∷ codes "in"
      ∷ codes "out"
      ∷ codes "load anchor \"a\""
      ∷ []
unfolding pf_rules lines
rules_put_in = refl

abbrev two_lines : List Bytes
two_lines = codes "nat-anchor a" ∷ codes "anchor b" ∷ []

pf_rules_lem_example :
    Inserted
      (codes "in" ∷ codes "out" ∷ [])
      (behind_last (codes "nat") (cut_at_last is_anchor two_lines))
      (pf_rules (codes "nat") (codes "in") (codes "out") two_lines)
pf_rules_lem_example =
    pf_rules_lem (codes "nat") (codes "in") (codes "out") two_lines
      (cut_at_last is_anchor two_lines)

enable_server_forwarding-IsServed_example :
    IsServed mac.pf_conf no_server
      (enable_server_forwarding mac no_server (codes "utun3") (codes "10.0.0.0/24") [])
enable_server_forwarding-IsServed_example =
    enable_server_forwarding-IsServed mac no_server (codes "utun3") (codes "10.0.0.0/24") []

turned_on : (enable_client_full_tunnel mac no_client [] (codes "5.6.7.8")).result ≡ true
unfolding enable_client_full_tunnel
turned_on = refl

is_on : (enable_client_full_tunnel mac no_client [] (codes "5.6.7.8")).state.active ≡ true
unfolding enable_client_full_tunnel
is_on = refl

found_wifi : found_service mac ≡ codes "Wi-Fi"
unfolding get_default_gateway get_network_service_for_device
found_wifi = refl

some_bytes : (s : Bytes) → s ≡ codes "Wi-Fi" → s ≢ []
some_bytes [] e h = absurd (cc)
some_bytes (x ∷ s) e h = absurd (cc)

has_service : found_service mac ≢ []
has_service = some_bytes (found_service mac) found_wifi

macos_tunnel-Deleted_example :
    let r = enable_client_full_tunnel mac no_client [] (codes "5.6.7.8") in
    let up = exempt_all mac r.state (codes "5.6.7.9" ∷ codes "5.6.7.8" ∷ []) in
    All (Deleted up.0) (added_by mac r.actions ++ added_by mac up.1)
macos_tunnel-Deleted_example =
    macos_tunnel-Deleted mac no_client [] (codes "5.6.7.8") (codes "5.6.7.9" ∷ codes "5.6.7.8" ∷ [])
      is_on

macos_tunnel-dns_example :
    let up =
      exempt_all mac
        (enable_client_full_tunnel mac no_client [] (codes "5.6.7.8")).state
        (codes "5.6.7.9" ∷ []) in
    Mem
      (set_dns (found_service mac) (dns_args (get_dns mac (found_service mac))))
      (disable_client_full_tunnel up.0).1
macos_tunnel-dns_example =
    macos_tunnel-dns mac no_client [] (codes "5.6.7.8") (codes "5.6.7.9" ∷ []) turned_on has_service
