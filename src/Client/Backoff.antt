-- ===== src/Client/Backoff.antt =====
-- How the client waits and starts over.
use nospoon.Base.{
  ℕ, ◌+◌, ◌*◌, ◌%◌, ◌^◌, ◌<◌, ◌≡◌, ◌≢◌, refl, sym, subst, ◌⊎◌, inl, inr, Bool, true, false, List,
  [], ◌∷◌, none, some, arith,
}
use nospoon.Base.Int.{ℤ, is_zero}
use nospoon.Framing
use nospoon.Client.{
  Outcome, ConnectResult, ClientCtx, Effect, dht_connect, start_timer, lesser, restart_dht,
  schedule_reconnect, give_up_routes, back_off, on_connected, on_connect_result, connect_callback,
  do_connect,
}
use nospoon.Client.Run.{Event, result, closed, reconnect_due, step, run}

-- The failures of the streak and the wait that goes with them: 1000, 2000 or 4000 ms.
abbrev pub IsPaced : ClientCtx → Type 0
IsPaced c =
    ((c.failures ≡ 0) × (c.backoff_ms ≡ 1000))
    ⊎ ((c.failures ≡ 1) × (c.backoff_ms ≡ 2000) ⊎ (c.failures ≡ 2) × (c.backoff_ms ≡ 4000))

do_connect-same : (c : ClientCtx) → (do_connect c).0 ≡ c
unfolding do_connect
do_connect-same c = ground arith

restart_dht-paced :
    (c : ClientCtx)
    → c.running ≡ true
    → ((restart_dht c).0.failures ≡ 0) × ((restart_dht c).0.backoff_ms ≡ 1000)
unfolding restart_dht
restart_dht-paced c h = ground arith

give_up_routes-IsPaced : (c : ClientCtx) → c.running ≡ true → IsPaced (give_up_routes c).0
unfolding give_up_routes
give_up_routes-IsPaced c h =
    ground (arith, restart_dht-paced c, restart_dht-paced (record c { full_tunnel_active = false }))

schedule_reconnect-IsPaced : (c : ClientCtx) → IsPaced c → IsPaced (schedule_reconnect c).0
unfolding schedule_reconnect back_off
schedule_reconnect-IsPaced c p =
    ground (arith, give_up_routes-IsPaced (record c { failures = c.failures + 1 }))

on_connected-IsPaced :
    (c : ClientCtx) (r : ConnectResult) (stream : ℕ) (enabled : Bool)
    → IsPaced (on_connected c r stream enabled).0
unfolding on_connected
on_connected-IsPaced c r stream enabled = ground arith

step-IsPaced : (c : ClientCtx) (e : Event) → IsPaced c → IsPaced (step c e).0
unfolding step
step-IsPaced c (result generation error r stream enabled) p =
    ground (arith, schedule_reconnect-IsPaced c, on_connected-IsPaced c r stream enabled)
step-IsPaced c closed p = ground (
  arith,
  schedule_reconnect-IsPaced (record c { connected = false; decoder = Framing.reset c.decoder }),
)
step-IsPaced c reconnect_due p =
    ground (arith, do_connect-same (record c { reconnect_timer = none }))
step-IsPaced c _ p = ground arith

-- From a context where the count of failures is 0, 1 or 2 and the wait is 1000, 2000 or 4000 ms
-- accordingly, whatever happens to the client, its count of failures stays at most 2 and its wait is
-- 1000, 2000 or 4000 ms, according to the count.
pub run-IsPaced : (c : ClientCtx) (es : List Event) → IsPaced c → IsPaced (run c es).0
unfolding run
run-IsPaced c [] p = p
run-IsPaced c (e ∷ es) p = run-IsPaced (step c e).0 es (step-IsPaced c e p)

-- The connects among the calls, by the generation that each was made under.
abbrev pub connects : List Effect → List ℕ
connects [] = []
connects (dht_connect g ∷ es) = g ∷ connects es
connects (_ ∷ es) = connects es

-- What a restart leaves, and that it connects at once under the new generation.
pub record Restarted (c : ClientCtx) (o : Outcome) : Type 0 where
  pub generation : o.0.dht_generation ≡ (c.dht_generation + 1) % 2 ^ 64
  pub no_duplex : o.0.duplex ≡ none
  pub unconnected : o.0.connected ≡ false
  pub empty_buffer : o.0.decoder.buf ≡ []
  pub no_failures : o.0.failures ≡ 0
  pub first_wait : o.0.backoff_ms ≡ 1000
  pub still_running : o.0.running ≡ true
  pub connects_now : connects o.1 ≡ o.0.dht_generation ∷ []

restart_dht-Restarted : (c : ClientCtx) → c.running ≡ true → Restarted c (restart_dht c)
unfolding restart_dht do_connect Framing.reset
restart_dht-Restarted c h = ground arith

give_up_routes-Restarted :
    (c : ClientCtx)
    → c.running ≡ true
    → Restarted c (give_up_routes c) × ((give_up_routes c).0.full_tunnel_active ≡ false)
unfolding give_up_routes restart_dht do_connect Framing.reset
give_up_routes-Restarted c h = (ground arith, ground arith)

third_failure :
    (c : ClientCtx)
    → c.running ≡ true
    → c.failures ≡ 2
    → schedule_reconnect c ≡ give_up_routes (record c { failures = c.failures + 1 })
unfolding schedule_reconnect
third_failure c h f = ground arith

-- While the client runs, the third failure in a row takes the routes back and makes the DHT anew:
-- new generation, no stream, empty decoder, no failures, first wait, and one connect at once.
pub schedule_reconnect-Restarted :
    (c : ClientCtx)
    → c.running ≡ true
    → c.failures ≡ 2
    → Restarted c (schedule_reconnect c) × ((schedule_reconnect c).0.full_tunnel_active ≡ false)
schedule_reconnect-Restarted c h f =
    let (g, off) = give_up_routes-Restarted (record c { failures = c.failures + 1 }) h in
    subst (λ (o : Outcome). Restarted c o × (o.0.full_tunnel_active ≡ false))
      (sym (third_failure c h f))
      (
        record {
          generation = g.generation;
          no_duplex = g.no_duplex;
          unconnected = g.unconnected;
          empty_buffer = g.empty_buffer;
          no_failures = g.no_failures;
          first_wait = g.first_wait;
          still_running = g.still_running;
          connects_now = g.connects_now;
        },
        off,
      )

connect_callback-stale :
    (c : ClientCtx) (generation : ℕ) (error : ℤ) (r : ConnectResult) (stream : ℕ) (enabled : Bool)
    → generation ≢ c.dht_generation
    → connect_callback c generation error r stream enabled ≡ (c, [])
unfolding connect_callback
connect_callback-stale c generation error r stream enabled h = ground arith

fresh_generation : (g g' : ℕ) → g < 2 ^ 64 → g' ≡ (g + 1) % 2 ^ 64 → g ≢ g'
fresh_generation g g' h e = omega arith

-- While the client runs, a third failure in a row restarts the DHT, and a result that the old DHT
-- reports after it changes nothing and makes no call.
connect_callback-schedule_reconnect :
    (c : ClientCtx) (error : ℤ) (r : ConnectResult) (stream : ℕ) (enabled : Bool)
    → c.running ≡ true
    → c.failures ≡ 2
    → c.dht_generation < 2 ^ 64
    → connect_callback (schedule_reconnect c).0 c.dht_generation error r stream enabled
      ≡ ((schedule_reconnect c).0, [])
connect_callback-schedule_reconnect c error r stream enabled h f small =
    let (g, _) = schedule_reconnect-Restarted c h f in
    connect_callback-stale (schedule_reconnect c).0 c.dht_generation error r stream enabled
      (fresh_generation c.dht_generation (schedule_reconnect c).0.dht_generation small g.generation)

-- A failed connect is never the end: the client waits for its timer, or dials anew at once.
abbrev pub Retries : Outcome → Type 0
Retries (c, es) =
    ((wait : ℕ) × (c.reconnect_timer ≡ some wait) × (es ≡ start_timer wait ∷ []))
    ⊎ (connects es ≡ c.dht_generation ∷ [])

back_off-Retries : (c : ClientCtx) → Retries (back_off c)
unfolding back_off
back_off-Retries c = inl (lesser (c.backoff_ms * 2) 30000, refl, refl)

schedule_reconnect-cases :
    (c : ClientCtx)
    → c.running ≡ true
    → (schedule_reconnect c ≡ give_up_routes (record c { failures = c.failures + 1 }))
      ⊎ (schedule_reconnect c ≡ back_off (record c { failures = c.failures + 1 }))
unfolding schedule_reconnect
schedule_reconnect-cases c h = ground arith

schedule_reconnect-Retries : (c : ClientCtx) → c.running ≡ true → Retries (schedule_reconnect c)
schedule_reconnect-Retries c h = elim (schedule_reconnect-cases c h) [
  | inl e ↦
      subst Retries (sym e)
        (inr (give_up_routes-Restarted (record c { failures = c.failures + 1 }) h).0.connects_now)
  | inr e ↦ subst Retries (sym e) (back_off-Retries (record c { failures = c.failures + 1 }))
]

-- After a failed connect a running client has started its reconnect timer, or has dialled anew under
-- the current generation.
pub on_connect_result-Retries :
    (c : ClientCtx) (error : ℤ) (r : ConnectResult) (stream : ℕ) (enabled : Bool)
    → c.running ≡ true
    → is_zero error ≡ false
    → Retries (on_connect_result c error r stream enabled)
unfolding on_connect_result
on_connect_result-Retries c error r stream enabled h failed =
    rw failed (schedule_reconnect-Retries c h)
