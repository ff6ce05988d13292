-- ===== src/Stream.antt =====
-- What cpp/client.cpp and cpp/server.cpp hand to the encrypted stream of hyperdht.
use nospoon.Base.{Bool, Bytes}

-- `secret_stream::DuplexHandshake`
pub record Handshake : Type 0 where
  pub tx_key : Bytes
  pub rx_key : Bytes
  pub handshake_hash : Bytes
  pub remote_public_key : Bytes
  pub public_key : Bytes
  pub is_initiator : Bool
