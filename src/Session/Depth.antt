-- ===== src/Session/Depth.antt =====
-- What each step of a session does to the number of events that wait in its queue.
use xstream_roll.Shared.{
  ℕ, suc, ◌≤◌, ◌≡◌, refl, String, Bool, true, false, Option, [], ◌∷◌, length-append, arith,
}
use xstream_roll.Session.Event.{StreamEvent}
use xstream_roll.Session.{
  StreamSession, Call, starts, enqueues, publishes, fails_to_publish, settles_dead_letter,
  backs_off, stops, polls_stop, fails, pending_count, transition, create, pump_loop, pump, start,
  enqueue, publish_ok, dead_letter_settled, publish_failed, backoff_elapsed, stop, stop_poll, fail,
  step,
}

-- Every step but `enqueue`.
pub takes_none : Call → Bool
takes_none (enqueues event now) = false
takes_none _ = true

pub create-pending :
    (id stream_id worker_id : String) (depth retries : ℕ)
    → pending_count (create id stream_id worker_id depth retries) ≡ 0
unfolding create pending_count
create-pending id stream_id worker_id depth retries = refl

pub fail-pending : (s : StreamSession) (message : String) → pending_count (fail s message) ≤ 0
unfolding fail transition pending_count
fail-pending s message = ground arith

pub stop-pending : (s : StreamSession) → pending_count (stop s).1 ≤ pending_count s
unfolding stop transition pending_count
stop-pending s = ground arith

module _ (parse_date : String → Option ℕ) where
  pump_loop-pending :
      (s : StreamSession) (now : ℕ) → pending_count (pump_loop parse_date s now) ≤ pending_count s
  unfolding pump_loop pending_count
  pump_loop-pending s now = ground arith

  pub start-pending :
      (s : StreamSession) (now : ℕ) → pending_count (start parse_date s now) ≤ pending_count s
  unfolding start transition pump pump_loop pending_count
  start-pending s now = ground arith

  pub enqueue-pending :
      (s : StreamSession) (event : StreamEvent) (now : ℕ)
      → pending_count (enqueue parse_date s event now).1 ≤ suc (pending_count s)
  unfolding enqueue pump pump_loop pending_count
  enqueue-pending s event now = ground (arith, length-append s.queue (event ∷ []))

  publish_ok-pending :
      (s : StreamSession) (now : ℕ) → pending_count (publish_ok parse_date s now) ≤ pending_count s
  unfolding publish_ok pump_loop pending_count
  publish_ok-pending s now = ground arith

  dead_letter_settled-pending :
      (s : StreamSession) (now : ℕ)
      → pending_count (dead_letter_settled parse_date s now) ≤ pending_count s
  unfolding dead_letter_settled pump_loop pending_count
  dead_letter_settled-pending s now = ground arith

  -- No step but `enqueue` makes the queue longer.
  pub step-pending :
      (s : StreamSession) (c : Call)
      → takes_none c ≡ true
      → pending_count (step parse_date s c) ≤ pending_count s
  unfolding step takes_none publish_failed backoff_elapsed stop_poll transition pending_count
  step-pending s (starts now) q = start-pending s now
  step-pending s (enqueues event now) q = absurd (ground arith)
  step-pending s (publishes now) q = publish_ok-pending s now
  step-pending s (fails_to_publish message) q = ground arith
  step-pending s (settles_dead_letter now) q = dead_letter_settled-pending s now
  step-pending s backs_off q = ground arith
  step-pending s stops q = stop-pending s
  step-pending s polls_stop q = ground arith
  step-pending s (fails message) q = omega (arith, fail-pending s message)
