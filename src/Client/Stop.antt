-- ===== src/Client/Stop.antt =====
-- What a signal brings about.
use nospoon.Base.{ℕ, ◌≡◌, refl, ◌∙◌, ap, Bool, false, List, [], ◌∷◌, ◌++◌, map, arith, Bytes}
use nospoon.Base.Int.{ℤ}
use nospoon.Framing
use nospoon.Client.{
  Outcome, ConnectResult, ClientCtx, Effect, tun_write, dht_connect, schedule_reconnect,
  on_connected, on_connect_result,
}
use nospoon.Client.Run.{Event, result, message, closed, reconnect_due, signal, step, run}
use nospoon.Client.Backoff.{connects}

-- The loop has been told to end, and no connect has been made.
abbrev pub IsStopped : Outcome → Type 0
IsStopped (c, es) = (c.running ≡ false) × (connects es ≡ [])

connects-tun_write : (ps : List Bytes) → connects (map tun_write ps) ≡ []
connects-tun_write [] = refl
connects-tun_write (p ∷ ps) = connects-tun_write ps

connects-append : (es fs : List Effect) → connects (es ++ fs) ≡ connects es ++ connects fs
connects-append [] fs = refl
connects-append (dht_connect g ∷ es) fs = ap (◌∷◌ g) (connects-append es fs)
connects-append (_ ∷ es) fs = connects-append es fs

schedule_reconnect-stopped : (c : ClientCtx) → c.running ≡ false → schedule_reconnect c ≡ (c, [])
unfolding schedule_reconnect
schedule_reconnect-stopped c h = rw h

on_connected-IsStopped :
    (c : ClientCtx) (r : ConnectResult) (stream : ℕ) (enabled : Bool)
    → c.running ≡ false
    → IsStopped (on_connected c r stream enabled)
unfolding on_connected
on_connected-IsStopped c r stream enabled h = ground arith

on_connect_result-IsStopped :
    (c : ClientCtx) (error : ℤ) (r : ConnectResult) (stream : ℕ) (enabled : Bool)
    → c.running ≡ false
    → IsStopped (on_connect_result c error r stream enabled)
unfolding on_connect_result
on_connect_result-IsStopped c error r stream enabled h =
    ground (arith, schedule_reconnect-stopped c h, on_connected-IsStopped c r stream enabled h)

step-IsStopped : (c : ClientCtx) (e : Event) → c.running ≡ false → IsStopped (step c e)
unfolding step
step-IsStopped c (result generation error r stream enabled) h =
    ground (arith, on_connect_result-IsStopped c error r stream enabled h)
step-IsStopped c (message chunk) h = (h, connects-tun_write (Framing.feed c.decoder chunk).frames)
step-IsStopped c closed h = ground (
  arith,
  schedule_reconnect-stopped (record c { connected = false; decoder = Framing.reset c.decoder }) h,
)
step-IsStopped c reconnect_due h = ground arith
step-IsStopped c _ h = ground arith

run-IsStopped : (c : ClientCtx) (es : List Event) → c.running ≡ false → IsStopped (run c es)
unfolding run
run-IsStopped c [] h = (h, refl)
run-IsStopped c (e ∷ es) h =
    let (h', none_now) = step-IsStopped c e h in
    let (h'', none_later) = run-IsStopped (step c e).0 es h' in
    (
      h'',
      connects-append (step c e).1 (run (step c e).0 es).1 ∙ ground (arith, none_now, none_later),
    )

signal_stops : (c : ClientCtx) → (step c signal).0.running ≡ false
unfolding step
signal_stops c = refl

-- Behind a signal the client makes no further connect and stays stopped, whatever still happens.
pub run-signal : (c : ClientCtx) (es : List Event) → IsStopped (run (step c signal).0 es)
run-signal c es = run-IsStopped (step c signal).0 es (signal_stops c)
