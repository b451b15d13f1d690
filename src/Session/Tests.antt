-- ===== src/Session/Tests.antt =====
-- A run of a session, and the theorems about it.
use xstream_roll.Shared.{
  ℕ, ◌≡◌, refl, ◌⊎◌, String, true, false, List, [], ◌∷◌, ◌++◌, Option, none, some, arith, length,
  ◌≤◌,
}
use xstream_roll.Session.Event.{StreamEvent}
use xstream_roll.Session.{
  draining, StreamSession, Call, starts, enqueues, publishes, fails_to_publish, settles_dead_letter,
  backs_off, stops, create, to_processed, calculate_processing_latency_ms, start, enqueue,
  publish_ok, publish_failed, dead_letter_settled, backoff_elapsed, stop, step, run,
}
use xstream_roll.Session.Invariant.{IsConsistent, run-create-IsConsistent}
use xstream_roll.Session.Order.{settled, current, accepted, accepted_in, run-create-content}
use xstream_roll.Session.Drain.{rest, answer, answers, work, loop_comes_to_rest}

abbrev no_dates : String → Option ℕ
no_dates timestamp = none

abbrev event : String → StreamEvent
event id = record { id = some id; stream_id = "s"; fields = []; timestamp = "t" }

-- "a" is published at the second attempt, "b" is dead-lettered, "c" is refused for want of room.
abbrev calls : List Call
calls =
    starts 0
    ∷ enqueues (event "a") 1
    ∷ enqueues (event "b") 2
    ∷ enqueues (event "c") 2
    ∷ fails_to_publish "down"
    ∷ stops
    ∷ backs_off
    ∷ publishes 3
    ∷ fails_to_publish "down"
    ∷ backs_off
    ∷ fails_to_publish "down"
    ∷ settles_dead_letter 4
    ∷ []

abbrev fresh : StreamSession
fresh = create "s:1" "s" "w1" 1 1

abbrev drained : StreamSession
drained = run no_dates fresh calls

drained_run :
    (settled drained.effects ≡ event "a" ∷ event "b" ∷ [])
    × (drained.state ≡ draining)
    × (drained.processing ≡ false)
    × (accepted_in no_dates fresh calls ≡ event "a" ∷ event "b" ∷ [])
unfolding run step create start enqueue publish_ok publish_failed dead_letter_settled
    backoff_elapsed stop settled accepted accepted_in to_processed calculate_processing_latency_ms
drained_run = (refl, refl, refl, refl)

run-create-IsConsistent_example : IsConsistent drained
run-create-IsConsistent_example = run-create-IsConsistent no_dates "s:1" "s" "w1" 1 1 calls

run-create-content_example :
    settled drained.effects ++ (current drained.pump_at ++ drained.queue)
    ≡ accepted_in no_dates fresh calls
run-create-content_example = run-create-content no_dates "s:1" "s" "w1" 1 1 calls (omega arith)

abbrev busy : StreamSession
busy = run no_dates fresh (starts 0 ∷ enqueues (event "a") 1 ∷ [])

busy-IsConsistent : IsConsistent busy
busy-IsConsistent = run-create-IsConsistent no_dates "s:1" "s" "w1" 1 1 _

loop_comes_to_rest_example :
    (length (publishes 2 ∷ []) ≤ work busy)
    × (((run no_dates busy (publishes 2 ∷ [])).processing ≡ false)
        ⊎ ((c : Call) × (answers (run no_dates busy (publishes 2 ∷ [])).pump_at c ≡ true)))
unfolding run step create start enqueue
loop_comes_to_rest_example =
    loop_comes_to_rest no_dates busy (publishes 2 ∷ []) busy-IsConsistent (answer refl rest)
