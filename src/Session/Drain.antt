-- ===== src/Session/Drain.antt =====
-- How long the loop of a session can go on, and what `fail` leaves behind.
use xstream_roll.Shared.{
  ℕ, ◌+◌, ◌-◌, ◌*◌, ◌≤◌, ◌<◌, ◌≡◌, refl, ◌⊎◌, inl, inr, String, Bool, true, false, List, [], ◌∷◌,
  ◌++◌, Option, length, arith, Bool-cases, append_assoc,
}
use xstream_roll.Session.Event.{StreamEvent, ProcessedStreamEvent}
use xstream_roll.Session.{
  stopped, errored, rank, Pump, parked, publishing, backing_off, dead_lettering, error,
  state_changed, processed, processed_counted, dead_letter, StreamSession, Call, publishes,
  fails_to_publish, settles_dead_letter, backs_off, emit, transition, pump_loop, publish_ok,
  publish_failed, dead_letter_settled, backoff_elapsed, stop_poll, fail, step, run,
}
use xstream_roll.Session.Invariant.{IsConsistent, step-IsConsistent, run-IsConsistent}

-- How many answers the loop can still ask for, on the event in hand.
abbrev pub remaining : ℕ → Pump → ℕ
remaining retries parked = 0
remaining retries (publishing p attempts) = 2 * (retries - attempts) + 2
remaining retries (backing_off p attempts) = 2 * (retries - attempts) + 3
remaining retries (dead_lettering p message attempts) = 1

-- And on the queue too.
abbrev pub work : StreamSession → ℕ
work s =
    length s.queue * (2 * s.max_publish_retries + 3) + remaining s.max_publish_retries s.pump_at

-- The call is what the loop waits for.
abbrev pub answers : Pump → Call → Bool
answers (publishing p attempts) (publishes now) = true
answers (publishing p attempts) (fails_to_publish message) = true
answers (backing_off p attempts) backs_off = true
answers (dead_lettering p message attempts) (settles_dead_letter now) = true
answers _ _ = false

-- Each call is what the loop waits for at that point.
pub data AllAnswer (parse_date : String → Option ℕ) : StreamSession → List Call → Type 0 where
  rest : {s : StreamSession} → AllAnswer parse_date s []
  answer :
      {s : StreamSession} {c : Call} {cs : List Call}
      → answers s.pump_at c ≡ true
      → AllAnswer parse_date (step parse_date s c) cs
      → AllAnswer parse_date s (c ∷ cs)

module _ (parse_date : String → Option ℕ) where
  pump_loop-work :
      (s : StreamSession) (now : ℕ) (queue : List StreamEvent)
      → s.queue ≡ queue
      → work (pump_loop parse_date s now) ≤ length queue * (2 * s.max_publish_retries + 3)
  unfolding pump_loop
  pump_loop-work s now [] e = ground arith
  pump_loop-work s now (next ∷ later) e = ground arith

  publish_ok-work :
      (s : StreamSession) (now : ℕ) (p : ProcessedStreamEvent) (attempts : ℕ)
      → s.pump_at ≡ publishing p attempts
      → work (publish_ok parse_date s now) < work s
  unfolding publish_ok
  publish_ok-work s now p attempts e =
      let less = pump_loop-work (emit (processed p) (emit processed_counted s)) now s.queue refl in
      rw (e, publish_ok) (omega (arith, less))

  dead_letter_settled-work :
      (s : StreamSession) (now : ℕ) (p : ProcessedStreamEvent) (message : String) (attempts : ℕ)
      → s.pump_at ≡ dead_lettering p message attempts
      → work (dead_letter_settled parse_date s now) < work s
  unfolding dead_letter_settled
  dead_letter_settled-work s now p message attempts e =
      let less = pump_loop-work (emit (dead_letter p.event message) s) now s.queue refl in
      rw (e, dead_letter_settled) (omega (arith, less))

  step-work :
      (s : StreamSession) (c : Call) (at : Pump)
      → s.pump_at ≡ at
      → IsConsistent s
      → answers at c ≡ true
      → work (step parse_date s c) < work s
  unfolding step publish_failed backoff_elapsed
  step-work s (publishes now) (publishing p attempts) e v h = publish_ok-work s now p attempts e
  step-work s (fails_to_publish message) (publishing p attempts) e v h = ground (arith, v.budget)
  step-work s backs_off (backing_off p attempts) e v h = ground (arith, v.budget)
  step-work s (settles_dead_letter now) (dead_lettering p message attempts) e v h =
      dead_letter_settled-work s now p message attempts e
  step-work s c at e v h = ground arith

  run-work :
      (s : StreamSession) (cs : List Call)
      → IsConsistent s
      → AllAnswer parse_date s cs
      → length cs + work (run parse_date s cs) ≤ work s
  unfolding run
  run-work s [] v rest = omega arith
  run-work s (c ∷ cs) v (answer h more) = omega (
    arith,
    step-work s c s.pump_at refl v h,
    run-work (step parse_date s c) cs (step-IsConsistent parse_date s c v) more,
  )

  answer_exists :
      (s : StreamSession)
      → IsConsistent s
      → s.processing ≡ true
      → (c : Call) × (answers s.pump_at c ≡ true)
  answer_exists s v on = go s.pump_at refl
    where
      go : (at : Pump) → s.pump_at ≡ at → (c : Call) × (answers s.pump_at c ≡ true)
      go parked e = absurd (ground (arith, v.flag))
      go (publishing p attempts) e = (publishes 0, rw e)
      go (backing_off p attempts) e = (backs_off, rw e)
      go (dead_lettering p message attempts) e = (settles_dead_letter 0, rw e)

  -- The loop of a consistent session always comes to rest if what it waits for is answered and
  -- nothing is added meanwhile: at most `work` answers can follow one another, which is the events
  -- in the queue times twice the retry budget plus three, and what the event in hand still needs;
  -- and after any such answers the loop has come to rest or a further answer is possible.
  pub loop_comes_to_rest :
      (s : StreamSession) (cs : List Call)
      → IsConsistent s
      → AllAnswer parse_date s cs
      → (length cs ≤ work s)
        × (((run parse_date s cs).processing ≡ false)
            ⊎ ((c : Call) × (answers (run parse_date s cs).pump_at c ≡ true)))
  loop_comes_to_rest s cs v all = (
    omega (arith, run-work s cs v all),
    elim (Bool-cases (run parse_date s cs).processing) [
      | inl on ↦ inr (answer_exists _ (run-IsConsistent parse_date s cs v) on)
      | inr off ↦ inl off
    ],
  )

-- `fail` while a `stop` waits: whatever the state, once the loop has come to rest the waiting `stop`
-- takes the session from `errored` to `stopped`, and both changes are emitted, although no edge of
-- the state graph leaves `errored`.
pub fail_then_stopped :
    (s : StreamSession) (message : String)
    → s.processing ≡ false
    → rank s.state < 4
    → ((fail s message).state ≡ errored)
      × ((stop_poll (fail s message)).state ≡ stopped)
      × ((stop_poll (fail s message)).effects
          ≡ s.effects
            ++ error message ∷ state_changed errored s.state ∷ state_changed stopped errored ∷ [])
unfolding fail stop_poll transition
fail_then_stopped s message off live = (
  ground arith,
  ground arith,
  ground (
    arith,
    append_assoc s.effects (error message ∷ []) (state_changed errored s.state ∷ []),
    append_assoc s.effects (error message ∷ state_changed errored s.state ∷ [])
        (state_changed stopped errored ∷ []),
  ),
)
