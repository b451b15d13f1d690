-- ===== src/Session/Event.antt =====
-- `StreamEvent` and `ProcessedStreamEvent` of xstreamroll-processing/src/session.ts. The values of
-- `data` are of any type: those of JSON, cut down to what the worker tells apart.
use xstream_roll.Shared.{ℕ, String, Option}
use xstream_roll.Shared.Dict.{Dict}

-- A text, or any other value by its JSON form.
pub data Value : Type 0 where
  text : String → Value
  other : String → Value

pub record StreamEvent : Type 0 where
  pub id : Option String
  pub stream_id : String
  pub fields : Dict String Value
  pub timestamp : String

pub record ProcessedStreamEvent : Type 0 where
  pub event : StreamEvent
  pub processed_at : ℕ
  pub processing_latency_ms : Option ℕ
  pub worker_id : String
  pub session_id : String
