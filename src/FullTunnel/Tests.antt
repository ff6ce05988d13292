-- ===== src/FullTunnel/Tests.antt =====
-- Runs of a full tunnel on a concrete machine.
use nospoon.Base.{◌≡◌, refl, ℕ, true, [], ◌∷◌, ◌++◌, some, codes, All}
use nospoon.FullTunnel.{Shell, Action, no_client, enable_client_full_tunnel}
use nospoon.FullTunnel.Routes.{Deleted, added, exempt_all}
use nospoon.FullTunnel.Undo.{disable_client-Deleted}

-- Every command ends well, and there is no resolvectl.
abbrev exits : Action → ℕ
exits Action.which_resolvectl = 1
exits _ = 0

abbrev machine : Shell
machine = record {
  exit = exits;
  default_route = codes "default via 192.168.1.1 dev wlan0 proto dhcp\n";
  rp_filter = codes "1\n";
  resolv_conf = some (codes "nameserver 9.9.9.9\n");
  writable = true;
}

turned_on : (enable_client_full_tunnel machine no_client [] (codes "5.6.7.8")).state.active ≡ true
unfolding enable_client_full_tunnel
turned_on = refl

disable_client-Deleted_example :
    let r = enable_client_full_tunnel machine no_client [] (codes "5.6.7.8") in
    let up = exempt_all machine r.state (codes "5.6.7.9" ∷ codes "5.6.7.8" ∷ []) in
    All (Deleted machine up.0) (added machine r.actions ++ added machine up.1)
disable_client-Deleted_example =
    disable_client-Deleted machine no_client [] (codes "5.6.7.8")
      (codes "5.6.7.9" ∷ codes "5.6.7.8" ∷ []) turned_on
