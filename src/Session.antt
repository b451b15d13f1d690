-- ===== src/Session.antt =====
-- `StreamSession` of xstreamroll-processing/src/session.ts. The asynchronous loop `pump` is cut at
-- its awaits: `pump_at` says which one it waits at, and a function below resumes it there. What the
-- session calls and emits goes to `effects`, oldest first. `Date.parse` is a parameter.
pub mod Event
pub mod Invariant
pub mod Order
pub mod Drain
pub mod Depth
mod Tests
use xstream_roll.Shared.{
  ℕ, suc, ◌+◌, ◌-◌, ◌*◌, ◌^◌, min, String, Bool, true, false, not, ◌&&◌, ◌||◌, Option, none, some,
  List, [], ◌∷◌, ◌++◌, length, ltb, leb, if◌then◌else◌, ◌==◌, number_key,
}
use xstream_roll.Session.Event.{StreamEvent, ProcessedStreamEvent}

pub data SessionState : Type 0 where
  idle running draining stopped errored : SessionState

abbrev pub rank : SessionState → ℕ
rank idle = 0
rank running = 1
rank draining = 2
rank stopped = 3
rank errored = 4

-- `state === "running" || state === "draining"`
abbrev pub is_live : SessionState → Bool
is_live s = rank s == 1 || rank s == 2

pub data Pump : Type 0 where
  -- the loop is not running
  parked : Pump
  -- the next three carry the attempts that have failed so far
  publishing : ProcessedStreamEvent → ℕ → Pump
  backing_off : ProcessedStreamEvent → ℕ → Pump
  dead_lettering : ProcessedStreamEvent → String → ℕ → Pump

pub data Effect : Type 0 where
  state_changed : SessionState → SessionState → Effect
  processed : ProcessedStreamEvent → Effect
  dead_letter : StreamEvent → String → Effect
  error : String → Effect
  -- calls of `handlers.publish`, `handlers.deadLetter` and `incrementProcessed`
  publish_called : ProcessedStreamEvent → Effect
  dead_letter_called : StreamEvent → String → ℕ → Effect
  processed_counted : Effect

pub record StreamSession : Type 0 where
  pub id : String
  pub stream_id : String
  pub worker_id : String
  pub max_queue_depth : ℕ
  pub max_publish_retries : ℕ
  pub state : SessionState
  pub queue : List StreamEvent
  pub processing : Bool
  pub pump_at : Pump
  pub effects : List Effect

pub create : String → String → String → ℕ → ℕ → StreamSession
create id stream_id worker_id max_queue_depth max_publish_retries = record {
  id = id;
  stream_id = stream_id;
  worker_id = worker_id;
  max_queue_depth = max_queue_depth;
  max_publish_retries = max_publish_retries;
  state = idle;
  queue = [];
  processing = false;
  pump_at = parked;
  effects = [];
}

pub pending_count : StreamSession → ℕ
pending_count s = length s.queue

abbrev pub emit : Effect → StreamSession → StreamSession
emit e s = record s { effects = s.effects ++ e ∷ [] }

unfoldable pub transition : SessionState → StreamSession → StreamSession
transition next s =
    if rank s.state == rank next
    then s
    else emit (state_changed next s.state) (record s { state = next })

-- `Math.min(100 * Math.pow(2, attempts - 1), 5_000)`
pub backoff_ms : ℕ → ℕ
backoff_ms attempts = min (100 * 2 ^ (attempts - 1)) 5000

module _ (parse_date : String → Option ℕ) where
  -- `max(0, …)` is what `-` on ℕ does.
  pub calculate_processing_latency_ms : String → ℕ → Option ℕ
  calculate_processing_latency_ms timestamp processed_at = elim (parse_date timestamp) [
    | none ↦ none
    | some started_at ↦ some (processed_at - started_at)
  ]

  pub to_processed : StreamSession → StreamEvent → ℕ → ProcessedStreamEvent
  to_processed s next now = record {
    event = next;
    processed_at = now;
    processing_latency_ms = calculate_processing_latency_ms next.timestamp now;
    worker_id = s.worker_id;
    session_id = s.id;
  }

  -- From the head of the outer loop to the first call of `publish`, or to the end of `pump`.
  pub pump_loop : StreamSession → ℕ → StreamSession
  pump_loop s now = elim s.queue [
    | [] ↦ record s { processing = false; pump_at = parked }
    | next ∷ rest ↦
        if is_live s.state
        then emit (publish_called (to_processed s next now))
            (record s { queue = rest; pump_at = publishing (to_processed s next now) 0 })
        else record s { processing = false; pump_at = parked }
  ]

  pub pump : StreamSession → ℕ → StreamSession
  unfolding pump_loop
  pump s now = if s.processing then s else pump_loop (record s { processing = true }) now

  pub start : StreamSession → ℕ → StreamSession
  unfolding transition pump
  start s now = if rank s.state == 0 then pump (transition running s) now else s

  -- The queue is looked at before the push; the loop is woken if it sleeps.
  pub enqueue : StreamSession → StreamEvent → ℕ → Bool × StreamSession
  unfolding pump
  enqueue s event now =
      if not (rank s.state == 1)
      then (false, s)
      else if leb s.max_queue_depth (length s.queue)
      then (false, s)
      else (
        true,
        if s.processing
            then record s { queue = s.queue ++ event ∷ [] }
            else pump (record s { queue = s.queue ++ event ∷ [] }) now,
      )

  -- The promise of `publish` is fulfilled.
  pub publish_ok : StreamSession → ℕ → StreamSession
  unfolding pump_loop
  publish_ok s now = elim s.pump_at [
    | publishing p attempts ↦ pump_loop (emit (processed p) (emit processed_counted s)) now
    | _ ↦ s
  ]

  -- The promise of `deadLetter` is settled; a rejection is logged and no more.
  pub dead_letter_settled : StreamSession → ℕ → StreamSession
  unfolding pump_loop
  dead_letter_settled s now = elim s.pump_at [
    | dead_lettering p message attempts ↦ pump_loop (emit (dead_letter p.event message) s) now
    | _ ↦ s
  ]

-- The promise of `publish` is rejected: a dead letter once the retries are used up, else a pause.
pub publish_failed : StreamSession → String → StreamSession
publish_failed s message = elim s.pump_at [
  | publishing p attempts ↦
      if ltb s.max_publish_retries (suc attempts)
      then emit (dead_letter_called p.event message (suc attempts))
          (record s { pump_at = dead_lettering p message (suc attempts) })
      else record s { pump_at = backing_off p (suc attempts) }
  | _ ↦ s
]

-- `sleep(backoffMs)` is over.
pub backoff_elapsed : StreamSession → StreamSession
backoff_elapsed s = elim s.pump_at [
  | backing_off p attempts ↦ emit (publish_called p) (record s { pump_at = publishing p attempts })
  | _ ↦ s
]

-- `stop` up to its first look at `processing`; false where it returns at once.
pub stop : StreamSession → Bool × StreamSession
unfolding transition
stop s =
    if rank s.state == 3 || rank s.state == 4
    then (false, s)
    else (true, if rank s.state == 1 then transition draining s else s)

-- One round of the wait in a call of `stop` that did not return at once.
pub stop_poll : StreamSession → StreamSession
unfolding transition
stop_poll s = if s.processing then s else transition stopped s

unfoldable pub fail : StreamSession → String → StreamSession
unfolding transition
fail s message = transition errored (emit (error message) (record s { queue = [] }))

-- What can happen to a session, one after another.
pub data Call : Type 0 where
  starts : ℕ → Call
  enqueues : StreamEvent → ℕ → Call
  publishes : ℕ → Call
  fails_to_publish : String → Call
  settles_dead_letter : ℕ → Call
  backs_off : Call
  stops : Call
  polls_stop : Call
  fails : String → Call

module _ (parse_date : String → Option ℕ) where
  pub step : StreamSession → Call → StreamSession
  step s (starts now) = start parse_date s now
  step s (enqueues event now) = (enqueue parse_date s event now).1
  step s (publishes now) = publish_ok parse_date s now
  step s (fails_to_publish message) = publish_failed s message
  step s (settles_dead_letter now) = dead_letter_settled parse_date s now
  step s backs_off = backoff_elapsed s
  step s stops = (stop s).1
  step s polls_stop = stop_poll s
  step s (fails message) = fail s message

  pub run : StreamSession → List Call → StreamSession
  run s [] = s
  run s (c ∷ cs) = run (step s c) cs
