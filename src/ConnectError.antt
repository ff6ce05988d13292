-- ===== src/ConnectError.antt =====
-- cpp/connect_error.hpp: the hints for the codes of the DHT library, which are a parameter.
use nospoon.Base.{
  Bool, false, ◌||◌, [], ◌∷◌, ◌++◌, Option, none, some, if◌then◌else◌, Bytes, codes, ◌==◌,
}
use nospoon.Base.Int.{ℤ, pos, negsuc}

pub record Codes : Type 0 where
  pub peer_not_found : ℤ
  pub peer_connection_failed : ℤ
  pub no_addresses : ℤ
  pub holepunch_failed : ℤ
  pub holepunch_timeout : ℤ
  pub relay_failed : ℤ
  pub server_error : ℤ
  pub destroyed : ℤ

abbrev pub same_int : ℤ → ℤ → Bool
same_int (pos m) (pos n) = m == n
same_int (negsuc m) (negsuc n) = m == n
same_int _ _ = false

-- " — "
abbrev pub dash : Bytes
dash = b' ' ∷ 0xE2 ∷ 0x80 ∷ 0x94 ∷ b' ' ∷ []

-- none for nullptr
unfoldable pub connect_error_hint : Codes → ℤ → Option Bytes
connect_error_hint k e =
    if same_int e k.peer_not_found
    then some (
        codes
          "no node returned a record for this key. Either the server is not running/announcing, or this network blocks the DHT (bootstrap is UDP :49737).")
    else if same_int e k.peer_connection_failed
    then some (
        codes
          "the record was found but no relay got an answer from the server. The server is announcing but not replying to handshakes"
        ++ (dash ++ codes "check that this client's key is in the server's peers list."))
    else if same_int e k.no_addresses
    then some (codes "the server answered but advertised no connectable address.")
    else if same_int e k.holepunch_failed || same_int e k.holepunch_timeout
    then some (
        codes "handshake succeeded, NAT traversal did not. This is the CGNAT/symmetric-NAT class"
        ++ (dash ++ codes "retry, or try another network."))
    else if same_int e k.relay_failed
    then some (codes "blind-relay pairing failed.")
    else if same_int e k.server_error
    then some (
        codes
          "the server rejected us at the protocol level (version mismatch, or it returned an error payload).")
    else if same_int e k.destroyed
    then some (
        codes
          "the DHT was torn down mid-connect (usually our own restart after repeated failures).")
    else none
