-- ===== src/Client/Tests.antt =====
-- Runs of the client from concrete contexts.
use nospoon.Base.{
  ◌≡◌, refl, inl, arith, true, false, List, [], ◌∷◌, map, none, some, Bytes, codes, flatten,
}
use nospoon.Base.Int.{negsuc}
use nospoon.Framing.{frame_encode}
use nospoon.Framing.Wire.{delivered}
use nospoon.Client.{ClientCtx, ConnectResult, tun_write, on_connect_result, send_framed}
use nospoon.Client.Run.{Event, run, step, closed, reconnect_due, signal}
use nospoon.Client.Backoff.{IsPaced, run-IsPaced, on_connect_result-Retries, Retries}
use nospoon.Client.Stop.{run-signal, IsStopped}
use nospoon.Client.Connection.{IsConsistent, run-IsConsistent}
use nospoon.Client.Traffic.{run-messages-wire, tunnel_carries, messages, tun_packets, written}

-- A client with full tunnel on, up on stream 7.
abbrev up : ClientCtx
up = record {
  has_dht = true;
  dht_generation = 4;
  public_key = 1 ∷ 2 ∷ [];
  full_tunnel = true;
  socket_keepalive = 3;
  duplex = some 7;
  decoder = record { buf = [] };
  backoff_ms = 1000;
  failures = 0;
  connected = true;
  running = true;
  full_tunnel_active = true;
  reconnect_timer = none;
  keepalive_timer = true;
}

-- And after two failures.
abbrev failing : ClientCtx
failing = record up { duplex = none; connected = false; failures = 2; backoff_ms = 4000 }

abbrev peer : ConnectResult
peer = record {
  tx_key = 1 ∷ [];
  rx_key = 2 ∷ [];
  handshake_hash = 3 ∷ [];
  remote_public_key = 4 ∷ [];
  host = codes "1.2.3.4";
  port = 9000;
  raw_stream = 11;
  udx_socket = 12;
  remote_udx_id = 13;
  socket_keepalive = 14;
}

abbrev events : List Event
events = closed ∷ reconnect_due ∷ Event.result 4 (negsuc 2) peer 8 true ∷ []

run-IsPaced_example : IsPaced (run up events).0
run-IsPaced_example = run-IsPaced up events (inl (refl, refl))

on_connect_result-Retries_example : Retries (on_connect_result failing (negsuc 4) peer 9 true)
on_connect_result-Retries_example =
    on_connect_result-Retries failing (negsuc 4) peer 9 true refl refl

run-signal_example : IsStopped (run (step up signal).0 events)
run-signal_example = run-signal up events

run-IsConsistent_example : IsConsistent (run up events).0
run-IsConsistent_example =
    run-IsConsistent up events (record { agrees = refl; wanted = λ h. absurd (ground arith) })

abbrev sent : List Bytes
sent = codes "abc" ∷ [] ∷ codes "d" ∷ []

abbrev cut : List Bytes
cut =
    (0 ∷ 0 ∷ [])
    ∷ (0 ∷ 3 ∷ b'a' ∷ [])
    ∷ (b'b' ∷ b'c' ∷ 0 ∷ 0 ∷ 0 ∷ 0 ∷ 0 ∷ [])
    ∷ (0 ∷ 0 ∷ 1 ∷ b'd' ∷ [])
    ∷ []

run-messages-wire_example : run up (messages cut) ≡ (up, map tun_write (delivered sent))
run-messages-wire_example =
    run-messages-wire up sent cut refl (omega arith) (omega arith) (unfold frame_encode in refl)

on_wire : flatten cut ≡ written (run up (tun_packets sent)).1
unfolding run step send_framed frame_encode
on_wire = refl

tunnel_carries_example : run up (messages cut) ≡ (up, map tun_write (delivered sent))
tunnel_carries_example =
    tunnel_carries up up 7 sent cut refl refl (omega arith) (omega arith) on_wire
