-- ===== src/Commands/Check.antt =====
-- cpp/commands.cpp: the callbacks of `check` over its context, and the exit code. `no_error` is the
-- test for `ConnectError::NONE` of the DHT library.
use nospoon.Base.{
  ◌≡◌, ◌≢◌, refl, ap, sym, ◌∙◌, ◌⊎◌, All, Bool-cases, inl, inr, ℕ, Bool, true, false, not, ◌||◌,
  List, [], ◌∷◌, ◌++◌, if◌then◌else◌, arith,
}
use nospoon.Base.Int.{ℤ, pos}

pub record CheckCtx : Type 0 where
  pub bootstrapped : Bool
  pub dialed : Bool
  pub have_server : Bool
  pub connect_error : ℤ
  pub exit_code : ℕ

pub data CheckEvent : Type 0 where
  bootstrapped : CheckEvent
  dialed : ℤ → CheckEvent
  deadline : CheckEvent

-- The context before the loop runs.
abbrev pub fresh_check : Bool → CheckCtx
fresh_check have_server = record {
  bootstrapped = false;
  dialed = false;
  have_server = have_server;
  connect_error = pos 0;
  exit_code = 2;
}

module _ (no_error : ℤ → Bool) where
  -- The new context, and whether the callback stops the loop. The callback of the dial is there once
  -- the DHT has been reached and there is a server to dial.
  unfoldable pub check_step : CheckCtx → CheckEvent → CheckCtx × Bool
  check_step c bootstrapped =
      if not c.have_server
      then (record c { bootstrapped = true; exit_code = 0 }, true)
      else (record c { bootstrapped = true }, false)
  check_step c (dialed error) = if not c.bootstrapped || not c.have_server then (c, false) else (
    record c { dialed = true; connect_error = error; exit_code = if no_error error then 0 else 3 },
    true,
  )
  check_step c deadline =
      if not c.bootstrapped
      then (record c { exit_code = 2 }, true)
      else if not c.dialed
      then (record c { exit_code = 3 }, true)
      else (c, true)

  -- The callbacks of one iteration of the loop, and whether one of them has called `uv_stop`: those
  -- behind it still run.
  unfoldable pub iteration : CheckCtx → List CheckEvent → CheckCtx × Bool
  unfolding check_step
  iteration c [] = (c, false)
  iteration c (e ∷ es) =
      let r = check_step c e in let rest = iteration r.0 es in (rest.0, r.1 || rest.1)

  -- `uv_run`, up to the end of the iteration in which a callback stops it.
  unfoldable pub check_run : CheckCtx → List (List CheckEvent) → CheckCtx
  unfolding iteration
  check_run c [] = c
  check_run c (es ∷ later) =
      let r = iteration c es in let rest = check_run r.0 later in if r.1 then r.0 else rest

  -- What the exit code says: 0 for a DHT that answered, and a server that was reached if one is given;
  -- 2 for no answer; 3 for a server that was not reached.
  pub record IsVerdict (c : CheckCtx) : Type 0 where
    pub reached :
        c.exit_code ≡ 0
        → (c.bootstrapped ≡ true)
          × ((c.have_server ≡ false) ⊎ ((c.dialed ≡ true) × (no_error c.connect_error ≡ true)))
    pub unreached :
        c.exit_code ≡ 3
        → (c.bootstrapped ≡ true) × ((c.dialed ≡ false) ⊎ (no_error c.connect_error ≡ false))
    pub known : (c.exit_code ≡ 0) ⊎ ((c.exit_code ≡ 2) ⊎ (c.exit_code ≡ 3))

  step-IsVerdict : (c : CheckCtx) (e : CheckEvent) → IsVerdict c → IsVerdict (check_step c e).0
  unfolding check_step
  step-IsVerdict c bootstrapped v = record {
    reached = ground arith;
    unreached = ground arith;
    known = ground arith;
  }
  step-IsVerdict c (dialed error) v = record {
    reached = ground arith;
    unreached = ground arith;
    known = ground arith;
  }
  step-IsVerdict c deadline v = record {
    reached = ground arith;
    unreached = ground arith;
    known = ground arith;
  }

  iteration-IsVerdict :
      (c : CheckCtx) (es : List CheckEvent) → IsVerdict c → IsVerdict (iteration c es).0
  unfolding iteration
  iteration-IsVerdict c [] v = v
  iteration-IsVerdict c (e ∷ es) v =
      iteration-IsVerdict (check_step c e).0 es (step-IsVerdict c e v)

  either :
      (P : CheckCtx → Type 0) (b : Bool) {x y : CheckCtx}
      → (b ≡ true → P x)
      → (b ≡ false → P y)
      → P (if b then x else y)
  either P true p q = p refl
  either P false p q = q refl

  run-IsVerdict :
      (c : CheckCtx) (its : List (List CheckEvent)) → IsVerdict c → IsVerdict (check_run c its)
  unfolding check_run
  run-IsVerdict c [] v = v
  run-IsVerdict c (es ∷ its) v =
      let w = iteration-IsVerdict c es v in
      either IsVerdict (iteration c es).1 (λ _. w) (λ _. run-IsVerdict (iteration c es).0 its w)

  -- An answer of the DHT, not the deadline.
  abbrev pub IsAnswer : CheckEvent → Type 0
  IsAnswer bootstrapped = Unit {0}
  IsAnswer (dialed error) = Unit {0}
  IsAnswer deadline = ⊥

  -- A dial that has ended has set a code, and while the DHT is silent the code is 2.
  pub record IsSound (c : CheckCtx) : Type 0 where
    pub ended : c.dialed ≡ true → c.exit_code ≢ 2
    pub silent : c.bootstrapped ≡ false → c.exit_code ≡ 2

  step-IsSound : (c : CheckCtx) (e : CheckEvent) → IsSound c → IsSound (check_step c e).0
  unfolding check_step
  step-IsSound c bootstrapped v =
      let k = v.ended in record { ended = ground arith; silent = ground arith }
  step-IsSound c (dialed error) v =
      let k = v.silent in let l = v.ended in record { ended = ground arith; silent = ground arith }
  step-IsSound c deadline v =
      let k = v.silent in let l = v.ended in record { ended = ground arith; silent = ground arith }

  iteration-IsSound : (c : CheckCtx) (es : List CheckEvent) → IsSound c → IsSound (iteration c es).0
  unfolding iteration
  iteration-IsSound c [] v = v
  iteration-IsSound c (e ∷ es) v = iteration-IsSound (check_step c e).0 es (step-IsSound c e v)

  run-IsSound :
      (c : CheckCtx) (its : List (List CheckEvent)) → IsSound c → IsSound (check_run c its)
  unfolding check_run
  run-IsSound c [] v = v
  run-IsSound c (es ∷ its) v =
      let w = iteration-IsSound c es v in
      either IsSound (iteration c es).1 (λ _. w) (λ _. run-IsSound (iteration c es).0 its w)

  -- Behind a code that is set, answers set another one but not 2; an answer that stops the loop has
  -- set one.
  answer_kept :
      (c : CheckCtx) (e : CheckEvent)
      → IsAnswer e
      → c.exit_code ≢ 2
      → (check_step c e).0.exit_code ≢ 2
  unfolding check_step
  answer_kept c bootstrapped a h = ground arith
  answer_kept c (dialed error) a h = ground arith
  answer_kept c deadline a h = absurd a

  answer_stops :
      (c : CheckCtx) (e : CheckEvent)
      → IsAnswer e
      → (check_step c e).1 ≡ true
      → (check_step c e).0.exit_code ≢ 2
  unfolding check_step
  answer_stops c bootstrapped a h = ground arith
  answer_stops c (dialed error) a h = ground arith
  answer_stops c deadline a h = absurd a

  answers_kept :
      (c : CheckCtx) (es : List CheckEvent)
      → All IsAnswer es
      → c.exit_code ≢ 2
      → (iteration c es).0.exit_code ≢ 2
  unfolding iteration
  answers_kept c [] a h = h
  answers_kept c (e ∷ es) a h = answers_kept (check_step c e).0 es a.1 (answer_kept c e a.0 h)

  answers_stop :
      (c : CheckCtx) (es : List CheckEvent)
      → All IsAnswer es
      → (iteration c es).1 ≡ true
      → (iteration c es).0.exit_code ≢ 2
  unfolding iteration
  answers_stop c [] a h = absurd (cc)
  answers_stop c (e ∷ es) a h = elim (Bool-cases (check_step c e).1) [
    | inl s ↦ answers_kept (check_step c e).0 es a.1 (answer_stops c e a.0 s)
    | inr s ↦ answers_stop (check_step c e).0 es a.1 (ground (arith, s, h))
  ]

  late_deadline :
      (c : CheckCtx) → IsSound c → c.bootstrapped ≡ true → (check_step c deadline).0.exit_code ≢ 2
  unfolding check_step
  late_deadline c v e = let k = v.ended in ground arith

  -- An iteration with the deadline in it: code 2 tells that the DHT was silent in front of it.
  deadline_tells :
      (c : CheckCtx) (before after : List CheckEvent)
      → IsSound c
      → All IsAnswer before
      → All IsAnswer after
      → (iteration c (before ++ (deadline ∷ after))).0.exit_code ≡ 2
      → (iteration c before).0.bootstrapped ≡ false
  unfolding iteration
  deadline_tells c [] after v a b h = elim (Bool-cases c.bootstrapped) [
    | inr e ↦ e
    | inl e ↦ absurd (answers_kept (check_step c deadline).0 after b (late_deadline c v e) h)
  ]
  deadline_tells c (e ∷ before) after v a b h =
      deadline_tells (check_step c e).0 before after (step-IsSound c e v) a.1 b h

  run_last : (c : CheckCtx) (es : List CheckEvent) → check_run c (es ∷ []) ≡ (iteration c es).0
  unfolding check_run
  run_last c es =
      either (λ (d : CheckCtx). d ≡ (iteration c es).0) (iteration c es).1 (λ _. refl) (λ _. refl)

  run_on :
      (c : CheckCtx) (es : List CheckEvent) (its : List (List CheckEvent))
      → (iteration c es).1 ≡ false
      → check_run c (es ∷ its) ≡ check_run (iteration c es).0 its
  unfolding check_run
  run_on c es its h = rw h

  run_stopped :
      (c : CheckCtx) (es : List CheckEvent) (its : List (List CheckEvent))
      → (iteration c es).1 ≡ true
      → check_run c (es ∷ its) ≡ (iteration c es).0
  unfolding check_run
  run_stopped c es its h = rw h

  run_tells :
      (c : CheckCtx) (its : List (List CheckEvent)) (before after : List CheckEvent)
      → IsSound c
      → All (All IsAnswer) its
      → All IsAnswer before
      → All IsAnswer after
      → (check_run c (its ++ ((before ++ (deadline ∷ after)) ∷ []))).exit_code ≡ 2
      → (check_run c (its ++ (before ∷ []))).bootstrapped ≡ false
  run_tells c [] before after v all a b h =
      ap (λ (d : CheckCtx). d.bootstrapped) (run_last c before)
      ∙ deadline_tells c before after v a b
          (ap (λ (d : CheckCtx). d.exit_code) (sym (run_last c (before ++ (deadline ∷ after)))) ∙ h)
  run_tells c (es ∷ its) before after v all a b h = elim (Bool-cases (iteration c es).1) [
    | inl s ↦ absurd (
        answers_stop c es all.0 s
          (ap (λ (d : CheckCtx). d.exit_code) (sym (run_stopped c es _ s)) ∙ h))
    | inr s ↦
        ap (λ (d : CheckCtx). d.bootstrapped) (run_on c es (its ++ (before ∷ [])) s)
        ∙ run_tells (iteration c es).0 its before after (iteration-IsSound c es v) all.1 a b
            (ap (λ (d : CheckCtx). d.exit_code) (sym (run_on c es _ s)) ∙ h)
  ]

  -- Whatever the callbacks and their order, in whichever iterations of the loop they come, with one
  -- deadline: check ends with code 0, 2 or 3. It is 0 only if the DHT answered and, with a server,
  -- the dial ended without an error; 3 only if it answered and no dial succeeded; 2 if it did not
  -- answer, and 2 only if it had not when the deadline was due.
  pub check_run-IsVerdict :
      (have_server : Bool) (its : List (List CheckEvent)) (before after : List CheckEvent)
      → All (All IsAnswer) its
      → All IsAnswer before
      → All IsAnswer after
      → let c =
          check_run (fresh_check have_server) (its ++ ((before ++ (deadline ∷ after)) ∷ [])) in
        IsVerdict c
        × (c.bootstrapped ≡ false → c.exit_code ≡ 2)
        × (c.exit_code ≡ 2
            → (check_run (fresh_check have_server) (its ++ (before ∷ []))).bootstrapped ≡ false)
  check_run-IsVerdict have_server its before after all a b =
      let start = fresh_check have_server in
      let sound : IsSound start = record { ended = λ h. absurd (cc); silent = λ _. refl } in
      let events = its ++ ((before ++ (deadline ∷ after)) ∷ []) in
      (
        run-IsVerdict start events
            (record { reached = ground arith; unreached = ground arith; known = inr (inl refl) }),
        (run-IsSound start events sound).silent,
        run_tells start its before after sound all a b,
      )
