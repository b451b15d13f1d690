-- ===== src/Session/Order.antt =====
-- Every accepted event is settled once, in the order of acceptance.
use xstream_roll.Shared.{
  ℕ, suc, ◌≡◌, refl, sym, ap, ◌∙◌, inl, inr, String, true, false, List, [], ◌∷◌, ◌++◌, Option,
  append_assoc, append-nil, arith, if◌then◌else◌, Bool-cases, All,
}
use xstream_roll.Session.Event.{StreamEvent}
use xstream_roll.Session.{
  SessionState, dead_letter_called, draining, stopped, is_live, Pump, parked, publishing,
  backing_off, dead_lettering, Effect, processed, state_changed, running, dead_letter,
  processed_counted, publish_called, StreamSession, Call, starts, enqueues, publishes,
  fails_to_publish, settles_dead_letter, backs_off, stops, polls_stop, fails, create, emit,
  transition, to_processed, pump_loop, pump, start, enqueue, publish_ok, publish_failed,
  dead_letter_settled, backoff_elapsed, stop, stop_poll, step, run,
}
use xstream_roll.Session.Invariant.{
  IsConsistent, create-IsConsistent, step-IsConsistent, run-create-IsConsistent,
}

-- The events that were published or dead-lettered, oldest first.
unfoldable pub settled : List Effect → List StreamEvent
settled [] = []
settled (processed p ∷ es) = p.event ∷ settled es
settled (dead_letter event message ∷ es) = event ∷ settled es
settled (_ ∷ es) = settled es

settled-append : (xs ys : List Effect) → settled (xs ++ ys) ≡ settled xs ++ settled ys
unfolding settled
settled-append [] ys = refl
settled-append (processed p ∷ es) ys = ap (◌∷◌ p.event) (settled-append es ys)
settled-append (dead_letter event message ∷ es) ys = ap (◌∷◌ event) (settled-append es ys)
settled-append (_ ∷ es) ys = settled-append es ys

-- The event that the loop has in hand.
abbrev pub current : Pump → List StreamEvent
current parked = []
current (publishing p attempts) = p.event ∷ []
current (backing_off p attempts) = p.event ∷ []
current (dead_lettering p message attempts) = p.event ∷ []

-- All events that the session has accepted and not dropped, oldest first.
abbrev pub content : StreamSession → List StreamEvent
content s = settled s.effects ++ (current s.pump_at ++ s.queue)

abbrev pub IsNoFailure : Call → Type 0
IsNoFailure (fails message) = ⊥
IsNoFailure _ = Unit {0}

module _ (parse_date : String → Option ℕ) where
  -- What the call adds to the accepted events.
  unfoldable pub accepted : StreamSession → Call → List StreamEvent
  accepted s (enqueues event now) = if (enqueue parse_date s event now).0 then event ∷ [] else []
  accepted s _ = []

  unfoldable pub accepted_in : StreamSession → List Call → List StreamEvent
  accepted_in s [] = []
  accepted_in s (c ∷ cs) = accepted s c ++ accepted_in (step parse_date s c) cs

  pump_loop-content :
      (s : StreamSession) (now : ℕ) (queue : List StreamEvent)
      → s.queue ≡ queue
      → content (pump_loop parse_date s now) ≡ settled s.effects ++ queue
  unfolding pump_loop to_processed settled
  pump_loop-content s now [] e = rw (e, pump_loop) (ap (λ q. settled s.effects ++ q) e)
  pump_loop-content s now (next ∷ rest) e = elim (Bool-cases (is_live s.state)) [
    | inl live ↦
        rw (e, pump_loop)
          (rw live (
            rw (settled-append s.effects (publish_called (to_processed parse_date s next now) ∷ []))
              (simp (append-nil))))
    | inr over ↦ rw (e, pump_loop) (rw over (ap (λ q. settled s.effects ++ q) e))
  ]

  pump-content :
      (s : StreamSession) (now : ℕ)
      → s.processing ≡ false
      → content (pump parse_date s now) ≡ settled s.effects ++ s.queue
  unfolding pump
  pump-content s now off =
      rw off (pump_loop-content (record s { processing = true }) now s.queue refl)

  start-content :
      (s : StreamSession) (now : ℕ) → IsConsistent s → content (start parse_date s now) ≡ content s
  unfolding start transition settled
  start-content s now v = ground (
    arith,
    pump-content (transition running s) now,
    settled-append s.effects (state_changed running s.state ∷ []),
    append-nil (settled s.effects),
  )

  enqueue-content :
      (s : StreamSession) (event : StreamEvent) (now : ℕ)
      → IsConsistent s
      → content (enqueue parse_date s event now).1 ≡ content s ++ accepted s (enqueues event now)
  unfolding enqueue accepted
  enqueue-content s event now v = ground (
    arith,
    pump-content (record s { queue = s.queue ++ event ∷ [] }) now,
    append-nil (content s),
    append_assoc (settled s.effects) (current s.pump_at ++ s.queue) (event ∷ []),
    append_assoc (current s.pump_at) s.queue (event ∷ []),
  )

  publish_ok-content :
      (s : StreamSession) (now : ℕ) (at : Pump)
      → s.pump_at ≡ at
      → content (publish_ok parse_date s now) ≡ content s
  unfolding publish_ok settled
  publish_ok-content s now (publishing p attempts) e =
      rw (e, publish_ok)
        (pump_loop-content (emit (processed p) (emit processed_counted s)) now s.queue refl
          ∙ simp (settled-append, append_assoc))
  publish_ok-content s now at e = rw (e, publish_ok) (rw e)

  dead_letter_settled-content :
      (s : StreamSession) (now : ℕ) (at : Pump)
      → s.pump_at ≡ at
      → content (dead_letter_settled parse_date s now) ≡ content s
  unfolding dead_letter_settled settled
  dead_letter_settled-content s now (dead_lettering p message attempts) e =
      rw (e, dead_letter_settled)
        (pump_loop-content (emit (dead_letter p.event message) s) now s.queue refl
          ∙ simp (settled-append, append_assoc))
  dead_letter_settled-content s now at e = rw (e, dead_letter_settled) (rw e)

-- An effect that settles no event.
settled-silent :
    (es : List Effect) (e : Effect) → settled (e ∷ []) ≡ [] → settled (es ++ e ∷ []) ≡ settled es
settled-silent es e silent = rw (settled-append es (e ∷ []), silent) (append-nil (settled es))

publish_failed-content :
    (s : StreamSession) (message : String) (at : Pump)
    → s.pump_at ≡ at
    → content (publish_failed s message) ≡ content s
unfolding publish_failed settled
publish_failed-content s message (publishing p attempts) e =
    ground
      (arith, settled-silent s.effects (dead_letter_called p.event message (suc attempts)) refl)
publish_failed-content s message at e = rw (e, publish_failed) (rw e)

backoff_elapsed-content :
    (s : StreamSession) (at : Pump) → s.pump_at ≡ at → content (backoff_elapsed s) ≡ content s
unfolding backoff_elapsed settled
backoff_elapsed-content s (backing_off p attempts) e =
    ground (arith, settled-silent s.effects (publish_called p) refl)
backoff_elapsed-content s at e = rw (e, backoff_elapsed) (rw e)

transition-content :
    (next : SessionState) (s : StreamSession) → content (transition next s) ≡ content s
unfolding transition settled
transition-content next s =
    ground (arith, settled-silent s.effects (state_changed next s.state) refl)

module _ (parse_date : String → Option ℕ) where
  step-content :
      (s : StreamSession) (c : Call)
      → IsConsistent s
      → IsNoFailure c
      → content (step parse_date s c) ≡ content s ++ accepted parse_date s c
  unfolding step accepted stop stop_poll
  step-content s (starts now) v h = start-content parse_date s now v ∙ sym (append-nil (content s))
  step-content s (enqueues event now) v h = enqueue-content parse_date s event now v
  step-content s (publishes now) v h =
      publish_ok-content parse_date s now s.pump_at refl ∙ sym (append-nil (content s))
  step-content s (fails_to_publish message) v h =
      publish_failed-content s message s.pump_at refl ∙ sym (append-nil (content s))
  step-content s (settles_dead_letter now) v h =
      dead_letter_settled-content parse_date s now s.pump_at refl ∙ sym (append-nil (content s))
  step-content s backs_off v h =
      backoff_elapsed-content s s.pump_at refl ∙ sym (append-nil (content s))
  step-content s stops v h = ground (arith, transition-content draining s, append-nil (content s))
  step-content s polls_stop v h =
      ground (arith, transition-content stopped s, append-nil (content s))
  step-content s (fails message) v h = absurd h

  run-content :
      (s : StreamSession) (cs : List Call)
      → IsConsistent s
      → All IsNoFailure cs
      → content (run parse_date s cs) ≡ content s ++ accepted_in parse_date s cs
  unfolding run accepted_in
  run-content s [] v h = sym (append-nil (content s))
  run-content s (c ∷ cs) v h =
      run-content (step parse_date s c) cs (step-IsConsistent parse_date s c v) h.1
      ∙ (rw (step-content s c v h.0) (append_assoc (content s) _ _))

  -- From its creation on, and as long as `fail` is not called: the events published or
  -- dead-lettered so far, then the one in hand, then the queue are, in this order, exactly the
  -- events that `enqueue` has accepted, each once.
  pub run-create-content :
      (id stream worker : String) (depth retries : ℕ) (cs : List Call)
      → All IsNoFailure cs
      → let new = create id stream worker depth retries in
        let s = run parse_date new cs in
        settled s.effects ++ (current s.pump_at ++ s.queue) ≡ accepted_in parse_date new cs
  unfolding create settled
  run-create-content id stream worker depth retries cs h =
      run-content (create id stream worker depth retries) cs
        (create-IsConsistent id stream worker depth retries) h

  -- If `fail` is not called, the session is draining and its loop has come to rest, then every
  -- accepted event is settled, once and in the order of acceptance, and the next look of the waiting
  -- `stop` brings the session to `stopped`.
  pub run-create_drained :
      (id stream worker : String) (depth retries : ℕ) (cs : List Call) (s : StreamSession)
      → All IsNoFailure cs
      → run parse_date (create id stream worker depth retries) cs ≡ s
      → s.state ≡ draining
      → s.processing ≡ false
      → (settled s.effects ≡ accepted_in parse_date (create id stream worker depth retries) cs)
        × ((stop_poll s).state ≡ stopped)
  unfolding stop_poll transition
  run-create_drained id stream worker depth retries cs s h e at rest =
      let v : IsConsistent s =
        rw e at (run-create-IsConsistent parse_date id stream worker depth retries cs) in
      let all = rw e at (run-create-content id stream worker depth retries cs h) in
      (ground (arith, all, v.flag, append-nil (settled s.effects)), ground arith)
