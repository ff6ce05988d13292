-- ===== src/Client/Connection.antt =====
-- The connection and the full-tunnel routes over any run of the client.
use nospoon.Base.{
  ℕ, ◌+◌, ◌<◌, ◌*◌, ◌≡◌, ◌⊎◌, Bool, true, false, List, [], ◌∷◌, Option, none, some, arith,
}
use nospoon.Framing
use nospoon.Client.{
  ConnectResult, ClientCtx, do_connect, restart_dht, give_up_routes, back_off, schedule_reconnect,
  on_connected, on_close, lesser, start_timer,
}
use nospoon.Client.Run.{Event, result, closed, reconnect_due, step, run}

abbrev pub is_some {ℓ} : {A : Type ℓ} → Option A → Bool
is_some none = false
is_some (some _) = true

-- The flag and the stream agree, and routes are installed only where the configuration asks for it.
pub record IsConsistent (c : ClientCtx) : Type 0 where
  pub agrees : c.connected ≡ is_some c.duplex
  pub wanted : c.full_tunnel ≡ false → c.full_tunnel_active ≡ false

restart_dht-same :
    (c : ClientCtx)
    → ((restart_dht c).0.full_tunnel ≡ c.full_tunnel)
      × ((restart_dht c).0.full_tunnel_active ≡ c.full_tunnel_active)
unfolding restart_dht do_connect
restart_dht-same c = ground arith

restart_dht-agrees :
    (c : ClientCtx)
    → c.running ≡ true
    → ((restart_dht c).0.connected ≡ false) × ((restart_dht c).0.duplex ≡ none)
unfolding restart_dht do_connect
restart_dht-agrees c h = ground arith

-- What a scheduled reconnect may have done to the connection and the routes.
abbrev After : ClientCtx → ClientCtx → Type 0
After c c' =
    ((c'.connected ≡ c.connected) × (c'.duplex ≡ c.duplex)
      ⊎ (c'.connected ≡ false) × (c'.duplex ≡ none))
    × (c'.full_tunnel ≡ c.full_tunnel)
    × (c.full_tunnel_active ≡ false → c'.full_tunnel_active ≡ false)

schedule_reconnect-After : (c : ClientCtx) → After c (schedule_reconnect c).0
unfolding schedule_reconnect give_up_routes back_off
schedule_reconnect-After c = ground (
  arith,
  restart_dht-same (record c { failures = c.failures + 1 }),
  restart_dht-agrees (record c { failures = c.failures + 1 }),
  restart_dht-same (record c { failures = c.failures + 1; full_tunnel_active = false }),
  restart_dht-agrees (record c { failures = c.failures + 1; full_tunnel_active = false }),
)

schedule_reconnect-IsConsistent :
    (c : ClientCtx) → IsConsistent c → IsConsistent (schedule_reconnect c).0
schedule_reconnect-IsConsistent c v = ground (arith, schedule_reconnect-After c, v.agrees, v.wanted)

on_close-IsConsistent : (c : ClientCtx) → IsConsistent c → IsConsistent (on_close c).0
unfolding on_close
on_close-IsConsistent c v = ground (
  arith,
  schedule_reconnect-After (record c { connected = false; decoder = Framing.reset c.decoder }),
  v.wanted,
)

on_connected-IsConsistent :
    (c : ClientCtx) (r : ConnectResult) (stream : ℕ) (enabled : Bool)
    → IsConsistent c
    → IsConsistent (on_connected c r stream enabled).0
unfolding on_connected
on_connected-IsConsistent c r stream enabled v = ground (arith, v.wanted)

step-IsConsistent : (c : ClientCtx) (e : Event) → IsConsistent c → IsConsistent (step c e).0
unfolding step
step-IsConsistent c (result generation error r stream enabled) v =
    ground
      (arith, schedule_reconnect-IsConsistent c v, on_connected-IsConsistent c r stream enabled v)
step-IsConsistent c closed v = on_close-IsConsistent c v
step-IsConsistent c reconnect_due v = ground (arith, v.wanted)
step-IsConsistent c _ v = ground (arith, v.wanted)

-- From a context where this holds, in every run the client holds a stream exactly while it counts as
-- connected, and routes are installed only where full tunnel is configured.
pub run-IsConsistent :
    (c : ClientCtx) (es : List Event) → IsConsistent c → IsConsistent (run c es).0
unfolding run
run-IsConsistent c [] v = v
run-IsConsistent c (e ∷ es) v = run-IsConsistent (step c e).0 es (step-IsConsistent c e v)

-- While the client runs, a lost connection with fewer than two failures keeps the routes, drops the
-- stream and the half-read frame, and starts the reconnect timer.
pub on_close_keeps_routes :
    (c : ClientCtx)
    → c.running ≡ true
    → c.failures < 2
    → ((on_close c).0.full_tunnel_active ≡ c.full_tunnel_active)
      × ((on_close c).0.duplex ≡ none)
      × ((on_close c).0.connected ≡ false)
      × ((on_close c).0.decoder.buf ≡ [])
      × ((wait : ℕ) × ((on_close c).0.reconnect_timer ≡ some wait)
          × ((on_close c).1 ≡ start_timer wait ∷ []))
unfolding on_close schedule_reconnect back_off Framing.reset
on_close_keeps_routes c h f = (
  ground arith,
  ground arith,
  ground arith,
  ground arith,
  (lesser (c.backoff_ms * 2) 30000, ground arith, ground arith),
)
