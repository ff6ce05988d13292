-- ===== src/FullTunnel/Windows/Tests.antt =====
-- Runs of a full tunnel on a concrete Windows machine.
use nospoon.Base.{◌≡◌, refl, true, [], ◌∷◌, ◌++◌, some, none, codes, All, same, if◌then◌else◌}
use nospoon.FullTunnel.Windows.{
  Shell, no_client, no_server, enable_server_forwarding, enable_client_full_tunnel, gateway_script,
  split_pipe,
}
use nospoon.FullTunnel.Windows.Nat.{IsUndone, windows_server-IsUndone}
use nospoon.FullTunnel.Windows.Undo.{Deleted, added_by, exempt_all, windows_tunnel-Deleted}

-- Every script but the one for the gateway prints 12.
abbrev pc : Shell
pc = record {
  exit = λ _. 0;
  output = λ text. if same text gateway_script then codes "192.168.1.1|7\r\n" else codes "12\r\n";
  temp_file = λ _. true;
}

windows_server-IsUndone_example :
    IsUndone pc no_server (
      enable_server_forwarding pc no_server (codes "Nospoon") (codes "10.0.0.0/24") (codes "Wi-Fi"))
windows_server-IsUndone_example =
    windows_server-IsUndone pc no_server (codes "Nospoon") (codes "10.0.0.0/24") (codes "Wi-Fi")

split_gateway : split_pipe (codes "192.168.1.1|7") ≡ some (codes "192.168.1.1", codes "7")
unfolding split_pipe
split_gateway = refl

split_nothing : split_pipe (codes "|7") ≡ none
unfolding split_pipe
split_nothing = refl

is_on : (enable_client_full_tunnel pc no_client [] (codes "5.6.7.8")).state.active ≡ true
unfolding enable_client_full_tunnel same
is_on = refl

windows_tunnel-Deleted_example :
    let r = enable_client_full_tunnel pc no_client [] (codes "5.6.7.8") in
    let up = exempt_all pc r.state (codes "5.6.7.9" ∷ codes "5.6.7.8" ∷ []) in
    All (Deleted pc up.0) (added_by pc r.actions ++ added_by pc up.1)
windows_tunnel-Deleted_example =
    windows_tunnel-Deleted pc no_client [] (codes "5.6.7.8")
      (codes "5.6.7.9" ∷ codes "5.6.7.8" ∷ []) is_on
