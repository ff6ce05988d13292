-- ===== src/Tun/Ring.antt =====
-- cpp/tun_windows.cpp: the thread that waits for packets and the callback that takes them from
-- Wintun's ring. libuv may call back once for several wakes.
use nospoon.Base.{
  ◌≡◌, refl, sym, ap, ◌∙◌, Bool, true, false, not, List, [], ◌∷◌, ◌++◌, Bytes, if◌then◌else◌,
  append-nil, append_assoc, All, subst, arith, ◌⊎◌,
}

-- What WaitForMultipleObjects returns: the read event, or the stop event or an error.
pub data Wait : Type 0 where
  readable : Wait
  ended : Wait

-- What `on_async` does with a packet of the ring.
pub data Use : Type 0 where
  hand : Bytes → Use
  give_back : Bytes → Use

unfoldable pub drain : List Bytes → List Use
drain [] = []
drain (packet ∷ ring) = hand packet ∷ give_back packet ∷ drain ring

-- The ring is what pReceive gives until it gives null.
unfoldable pub on_async : Bool → List Bytes → List Use
unfolding drain
on_async session ring = if not session then [] else drain ring

-- The state between the thread and the loop of a started device: what lies in the ring, whether a
-- callback is due, whether the thread is still there, and what was done with packets.
pub record Shared : Type 0 where
  pub ring : List Bytes
  pub due : Bool
  pub running : Bool
  pub log : List Use

pub data Event : Type 0 where
  arrive : Bytes → Event
  wake : Wait → Event
  callback : Event

-- A round of `worker_loop`.
unfoldable pub worker_round : Shared → Wait → Shared
worker_round s Wait.readable = if s.running then record s { due = true } else s
worker_round s Wait.ended = record s { running = false }

unfoldable pub step : Shared → Event → Shared
unfolding worker_round on_async
step s (arrive packet) = record s { ring = s.ring ++ (packet ∷ []) }
step s (wake w) = worker_round s w
step s callback =
    if s.due then record s { ring = []; due = false; log = s.log ++ on_async true s.ring } else s

unfoldable pub run : Shared → List Event → Shared
unfolding step
run s [] = s
run s (e ∷ later) = run (step s e) later

abbrev pub started : Shared
started = record { ring = []; due = false; running = true; log = [] }

-- The packets in the order of their arrival, of being handed up, and of being given back.
unfoldable pub arrivals : List Event → List Bytes
arrivals [] = []
arrivals (arrive p ∷ later) = p ∷ arrivals later
arrivals (wake w ∷ later) = arrivals later
arrivals (callback ∷ later) = arrivals later

unfoldable pub handed : List Use → List Bytes
handed [] = []
handed (hand p ∷ log) = p ∷ handed log
handed (give_back p ∷ log) = handed log

unfoldable pub given_back : List Use → List Bytes
given_back [] = []
given_back (give_back p ∷ log) = p ∷ given_back log
given_back (hand p ∷ log) = given_back log

handed-append : (a b : List Use) → handed (a ++ b) ≡ handed a ++ handed b
unfolding handed
handed-append [] b = refl
handed-append (hand p ∷ a) b = ap (◌∷◌ p) (handed-append a b)
handed-append (give_back p ∷ a) b = handed-append a b

given_back-append : (a b : List Use) → given_back (a ++ b) ≡ given_back a ++ given_back b
unfolding given_back
given_back-append [] b = refl
given_back-append (give_back p ∷ a) b = ap (◌∷◌ p) (given_back-append a b)
given_back-append (hand p ∷ a) b = given_back-append a b

handed-drain : (ring : List Bytes) → handed (drain ring) ≡ ring
unfolding handed drain
handed-drain [] = refl
handed-drain (p ∷ ring) = ap (◌∷◌ p) (handed-drain ring)

given_back-drain : (ring : List Bytes) → given_back (drain ring) ≡ ring
unfolding given_back drain
given_back-drain [] = refl
given_back-drain (p ∷ ring) = ap (◌∷◌ p) (given_back-drain ring)

-- What was handed up, and what was given back, is in front of the ring all that came.
abbrev Accounts : Shared → List Bytes → Type 0
Accounts s came = (handed s.log ++ s.ring ≡ came) × (given_back s.log ++ s.ring ≡ came)

step-Accounts :
    (s : Shared) (e : Event) (came : List Bytes)
    → Accounts s came
    → Accounts (step s e) (came ++ arrivals (e ∷ []))
unfolding step worker_round on_async arrivals
step-Accounts s (arrive p) came h = (
  sym (append_assoc (handed s.log) s.ring (p ∷ [])) ∙ ap (λ (l : List Bytes). l ++ (p ∷ [])) h.0,
  sym (append_assoc (given_back s.log) s.ring (p ∷ []))
      ∙ ap (λ (l : List Bytes). l ++ (p ∷ [])) h.1,
)
step-Accounts s (wake Wait.readable) came h = ground (arith, append-nil came)
step-Accounts s (wake Wait.ended) came h =
    (h.0 ∙ sym (append-nil came), h.1 ∙ sym (append-nil came))
step-Accounts s callback came h = ground (
  arith,
  append-nil came,
  handed-append s.log (drain s.ring),
  handed-drain s.ring,
  given_back-append s.log (drain s.ring),
  given_back-drain s.ring,
  append-nil (handed s.log ++ s.ring),
  append-nil (given_back s.log ++ s.ring),
)

arrivals-append : (a b : List Event) → arrivals (a ++ b) ≡ arrivals a ++ arrivals b
unfolding arrivals
arrivals-append [] b = refl
arrivals-append (arrive p ∷ a) b = ap (◌∷◌ p) (arrivals-append a b)
arrivals-append (wake w ∷ a) b = arrivals-append a b
arrivals-append (callback ∷ a) b = arrivals-append a b

run-Accounts :
    (events : List Event) (s : Shared) (came : List Bytes)
    → Accounts s came
    → Accounts (run s events) (came ++ arrivals events)
unfolding run arrivals
run-Accounts [] s came h = rw (append-nil came) h
run-Accounts (e ∷ later) s came h = rw (arrivals-append (e ∷ []) later) (
    rw (← append_assoc came (arrivals (e ∷ [])) (arrivals later))
      (run-Accounts later (step s e) (came ++ arrivals (e ∷ [])) (step-Accounts s e came h)))

-- Nothing lies in the ring, or a callback is due.
abbrev IsCovered : Shared → Type 0
IsCovered s = (s.ring ≡ []) ⊎ (s.due ≡ true)

abbrev pub IsQuiet : Event → Type 0
IsQuiet e = arrivals (e ∷ []) ≡ []

step-IsCovered : (s : Shared) (e : Event) → IsQuiet e → IsCovered s → IsCovered (step s e)
unfolding step worker_round arrivals
step-IsCovered s (arrive p) q c = absurd (cc q)
step-IsCovered s (wake Wait.readable) q c = ground arith
step-IsCovered s (wake Wait.ended) q c = c
step-IsCovered s callback q c = ground arith

run-IsCovered :
    (events : List Event) (s : Shared) → All IsQuiet events → IsCovered s → IsCovered (run s events)
unfolding run
run-IsCovered [] s q c = c
run-IsCovered (e ∷ later) s q c = run-IsCovered later (step s e) q.1 (step-IsCovered s e q.0 c)

run-append : (a b : List Event) (s : Shared) → run s (a ++ b) ≡ run (run s a) b
unfolding run
run-append [] b s = refl
run-append (e ∷ a) b s = run-append a b (step s e)

callback_empties : (s : Shared) → IsCovered s → (step s callback).ring ≡ []
unfolding step
callback_empties s c = ground arith

woken-IsCovered : (s : Shared) → s.running ≡ true → IsCovered (step s (wake Wait.readable))
unfolding step worker_round
woken-IsCovered s on = ground arith

-- What a run has done with the packets that came: each was handed up once, in the order of their
-- arrival, and each was given back.
abbrev pub IsDelivered : Shared → List Bytes → Type 0
IsDelivered s came = (handed s.log ≡ came) × (given_back s.log ≡ came) × (s.ring ≡ [])

emptied-IsDelivered :
    (s : Shared) (came : List Bytes) → Accounts s came → s.ring ≡ [] → IsDelivered s came
emptied-IsDelivered s came a none_left = (
  sym (append-nil (handed s.log))
      ∙ (ap (λ (r : List Bytes). handed s.log ++ r) (sym none_left) ∙ a.0),
  sym (append-nil (given_back s.log))
      ∙ (ap (λ (r : List Bytes). given_back s.log ++ r) (sym none_left) ∙ a.1),
  none_left,
)

wake-IsQuiet : IsQuiet (wake Wait.readable)
unfolding arrivals
wake-IsQuiet = refl

callback-IsQuiet : IsQuiet callback
unfolding arrivals
callback-IsQuiet = refl

quiet_step :
    (s : Shared) (e : Event) (came : List Bytes)
    → IsQuiet e
    → Accounts s came
    → Accounts (step s e) came
quiet_step s e came q a =
    subst (Accounts (step s e)) (ap (λ (l : List Bytes). came ++ l) q ∙ append-nil came)
      (step-Accounts s e came a)

quiet_run :
    (events : List Event) (s : Shared) (came : List Bytes)
    → All IsQuiet events
    → Accounts s came
    → Accounts (run s events) came
unfolding run
quiet_run [] s came q a = a
quiet_run (e ∷ later) s came q a = quiet_run later (step s e) came q.1 (quiet_step s e came q.0 a)

-- On Windows, after any packets, wakes and callbacks with the thread still there: once it is woken
-- behind the last packet, the next callback, whatever other wakes and callbacks come between, leaves
-- every packet that came handed up once, in order, and given back to the ring.
pub run-IsDelivered :
    (before quiet : List Event)
    → (run started before).running ≡ true
    → All IsQuiet quiet
    → IsDelivered
        (run (step (run started before) (wake Wait.readable)) (quiet ++ (callback ∷ [])))
        (arrivals before)
unfolding run handed given_back
run-IsDelivered before quiet on q =
    let s = run started before in
    let w = step s (wake Wait.readable) in
    let u = run w quiet in
    rw (run-append quiet (callback ∷ []) w) (
      emptied-IsDelivered (step u callback) (arrivals before)
        (quiet_step u callback (arrivals before) callback-IsQuiet (
          quiet_run quiet w (arrivals before) q (
            quiet_step s (wake Wait.readable) (arrivals before) wake-IsQuiet
              (run-Accounts before started [] (refl, refl)))))
        (callback_empties u (run-IsCovered quiet w q (woken-IsCovered s on))))
