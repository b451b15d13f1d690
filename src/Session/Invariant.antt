-- ===== src/Session/Invariant.antt =====
-- What holds of a session between any two steps.
use xstream_roll.Shared.{
  ℕ, suc, ◌≤◌, ◌<◌, String, ◌≡◌, refl, ◌≢◌, Bool, true, false, not, List, [], ◌∷◌, ◌++◌, Option,
  length, length-append, arith,
}
use xstream_roll.Session.Event.{StreamEvent}
use xstream_roll.Session.{
  idle, running, is_live, Pump, parked, publishing, backing_off, dead_lettering, Effect, processed,
  processed_counted, dead_letter, StreamSession, Call, starts, enqueues, publishes,
  fails_to_publish, settles_dead_letter, backs_off, stops, polls_stop, fails, create, emit,
  transition, pump_loop, pump, start, enqueue, publish_ok, publish_failed, dead_letter_settled,
  backoff_elapsed, stop, stop_poll, fail, step, run,
}

abbrev pub is_parked : Pump → Bool
is_parked parked = true
is_parked _ = false

-- How often the event at hand may have failed.
abbrev pub WithinBudget : ℕ → Pump → Type 0
WithinBudget retries parked = Unit {0}
WithinBudget retries (publishing p attempts) = attempts ≤ retries
WithinBudget retries (backing_off p attempts) = (0 < attempts) × (attempts ≤ retries)
WithinBudget retries (dead_lettering p message attempts) = attempts ≡ suc retries

pub record IsConsistent (s : StreamSession) : Type 0 where
  -- `processing` says whether the loop runs.
  pub flag : is_parked s.pump_at ≡ not s.processing
  -- A live session whose loop sleeps has nothing to do.
  pub quiet : s.processing ≡ false → is_live s.state ≡ true → s.queue ≡ []
  pub idle_parked : s.state ≡ idle → s.processing ≡ false
  pub idle_empty : s.state ≡ idle → s.queue ≡ []
  pub depth : length s.queue ≤ s.max_queue_depth
  pub budget : WithinBudget s.max_publish_retries s.pump_at

pub create-IsConsistent :
    (id stream worker : String) (depth retries : ℕ)
    → IsConsistent (create id stream worker depth retries)
unfolding create
create-IsConsistent id stream worker depth retries = record {
  flag = refl;
  quiet = λ _ _. refl;
  idle_parked = λ _. refl;
  idle_empty = λ _. refl;
  depth = omega arith;
  budget = tt;
}

emit-IsConsistent : (e : Effect) (s : StreamSession) → IsConsistent s → IsConsistent (emit e s)
emit-IsConsistent e s v = record {
  flag = v.flag;
  quiet = v.quiet;
  idle_parked = v.idle_parked;
  idle_empty = v.idle_empty;
  depth = v.depth;
  budget = v.budget;
}

module _ (parse_date : String → Option ℕ) where
  -- The loop takes the next event or sleeps.
  pump_loop-IsConsistent :
      (s : StreamSession) (now : ℕ)
      → s.processing ≡ true
      → s.state ≢ idle
      → length s.queue ≤ s.max_queue_depth
      → IsConsistent (pump_loop parse_date s now)
  unfolding pump_loop
  pump_loop-IsConsistent s now on awake depth = ground arith

  pump-IsConsistent :
      (s : StreamSession) (now : ℕ)
      → s.processing ≡ false
      → s.state ≢ idle
      → length s.queue ≤ s.max_queue_depth
      → IsConsistent (pump parse_date s now)
  unfolding pump
  pump-IsConsistent s now off awake depth =
      rw off (pump_loop-IsConsistent (record s { processing = true }) now refl awake depth)

  start-IsConsistent :
      (s : StreamSession) (now : ℕ) → IsConsistent s → IsConsistent (start parse_date s now)
  unfolding start transition
  start-IsConsistent s now v = ground (arith, pump-IsConsistent (transition running s) now)

  enqueue-IsConsistent :
      (s : StreamSession) (event : StreamEvent) (now : ℕ)
      → IsConsistent s
      → IsConsistent (enqueue parse_date s event now).1
  unfolding enqueue
  enqueue-IsConsistent s event now v =
      let s' = record s { queue = s.queue ++ event ∷ [] } in
      ground (arith, length-append s.queue (event ∷ []), pump-IsConsistent s' now)

  settle-IsConsistent :
      (s : StreamSession) (now : ℕ)
      → IsConsistent s
      → is_parked s.pump_at ≡ false
      → IsConsistent (pump_loop parse_date s now)
  settle-IsConsistent s now v at =
      pump_loop-IsConsistent s now (ground (arith, v.flag))
        (λ e. ground (arith, v.flag, v.idle_parked e)) v.depth

  publish_ok-IsConsistent :
      (s : StreamSession) (now : ℕ) (at : Pump)
      → s.pump_at ≡ at
      → IsConsistent s
      → IsConsistent (publish_ok parse_date s now)
  unfolding publish_ok
  publish_ok-IsConsistent s now (publishing p attempts) e v =
      rw (e, publish_ok)
        (settle-IsConsistent (emit (processed p) (emit processed_counted s)) now
          (emit-IsConsistent _ _ (emit-IsConsistent _ s v)) (rw e))
  publish_ok-IsConsistent s now at e v = rw (e, publish_ok) v

  dead_letter_settled-IsConsistent :
      (s : StreamSession) (now : ℕ) (at : Pump)
      → s.pump_at ≡ at
      → IsConsistent s
      → IsConsistent (dead_letter_settled parse_date s now)
  unfolding dead_letter_settled
  dead_letter_settled-IsConsistent s now (dead_lettering p message attempts) e v =
      rw (e, dead_letter_settled)
        (settle-IsConsistent (emit (dead_letter p.event message) s) now (emit-IsConsistent _ s v)
          (rw e))
  dead_letter_settled-IsConsistent s now at e v = rw (e, dead_letter_settled) v

publish_failed-IsConsistent :
    (s : StreamSession) (message : String)
    → IsConsistent s
    → IsConsistent (publish_failed s message)
unfolding publish_failed
publish_failed-IsConsistent s message v = ground arith

backoff_elapsed-IsConsistent :
    (s : StreamSession) → IsConsistent s → IsConsistent (backoff_elapsed s)
unfolding backoff_elapsed
backoff_elapsed-IsConsistent s v = ground arith

stop-IsConsistent : (s : StreamSession) → IsConsistent s → IsConsistent (stop s).1
unfolding stop transition
stop-IsConsistent s v = ground arith

stop_poll-IsConsistent : (s : StreamSession) → IsConsistent s → IsConsistent (stop_poll s)
unfolding stop_poll transition
stop_poll-IsConsistent s v = ground arith

fail-IsConsistent :
    (s : StreamSession) (message : String) → IsConsistent s → IsConsistent (fail s message)
unfolding fail transition
fail-IsConsistent s message v = ground arith

module _ (parse_date : String → Option ℕ) where
  pub step-IsConsistent :
      (s : StreamSession) (c : Call) → IsConsistent s → IsConsistent (step parse_date s c)
  unfolding step
  step-IsConsistent s (starts now) v = start-IsConsistent parse_date s now v
  step-IsConsistent s (enqueues event now) v = enqueue-IsConsistent parse_date s event now v
  step-IsConsistent s (publishes now) v = publish_ok-IsConsistent parse_date s now s.pump_at refl v
  step-IsConsistent s (fails_to_publish message) v = publish_failed-IsConsistent s message v
  step-IsConsistent s (settles_dead_letter now) v =
      dead_letter_settled-IsConsistent parse_date s now s.pump_at refl v
  step-IsConsistent s backs_off v = backoff_elapsed-IsConsistent s v
  step-IsConsistent s stops v = stop-IsConsistent s v
  step-IsConsistent s polls_stop v = stop_poll-IsConsistent s v
  step-IsConsistent s (fails message) v = fail-IsConsistent s message v

  pub run-IsConsistent :
      (s : StreamSession) (cs : List Call) → IsConsistent s → IsConsistent (run parse_date s cs)
  unfolding run
  run-IsConsistent s [] v = v
  run-IsConsistent s (c ∷ cs) v =
      run-IsConsistent (step parse_date s c) cs (step-IsConsistent s c v)

  -- Whatever happens to a new session: `processing` is true exactly while its loop waits for a
  -- publish, a pause or a dead letter; a running or draining session whose loop sleeps has an empty
  -- queue, so no accepted event is forgotten; an idle session has no work; the queue stays within
  -- its depth; and an event is given up on after `max_publish_retries + 1` failures, not before.
  pub run-create-IsConsistent :
      (id stream worker : String) (depth retries : ℕ) (cs : List Call)
      → IsConsistent (run parse_date (create id stream worker depth retries) cs)
  run-create-IsConsistent id stream worker depth retries cs =
      run-IsConsistent _ cs (create-IsConsistent id stream worker depth retries)
