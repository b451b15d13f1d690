-- ===== src/Live.antt =====
-- `useStreamSocket` of app/hooks/useStreamSocket.ts: what the listeners that one run of its effect
-- registers do to the state of the hook. The time of an event without one is an argument, and so are
-- its texts; the URL is parsed elsewhere into the stream that is shown.
pub mod Rooms
pub mod History
mod Tests
use xstream_roll.Shared.{
  ℕ, zero, suc, ◌-◌, ◌*◌, ◌^◌, min, String, Bool, true, false, not, ◌&&◌, ◌||◌, Option, none, some,
  List, [], ◌∷◌, ◌++◌, drop, length, is_some, if◌then◌else◌, ◌==◌, string_key, number_key,
}

pub data ConnectionStatus : Type 0 where
  connecting connected disconnected errored : ConnectionStatus

pub data StreamStatus : Type 0 where
  inactive active error : StreamStatus

pub record StreamEvent : Type 0 where
  pub id : String
  pub type_ : String
  pub message : String
  pub timestamp : String

-- `streamId` is the one of the two fields that is there, the empty text if neither is.
pub record Payload : Type 0 where
  pub stream_id : Option String
  pub legacy_id : Option String
  pub started_at : Option String
  pub stopped_at : Option String
  pub occurred_at : Option String

pub data Kind : Type 0 where
  started stopped failed : Kind

pub record StreamSocket : Type 0 where
  pub status : ConnectionStatus
  pub events : List StreamEvent
  pub stream_status : Option StreamStatus
  pub attempt : ℕ
  -- The delay of the timer that is set.
  pub reconnect_timer : Option ℕ
  pub connects : ℕ

pub max_events : ℕ
max_events = 100

pub compute_backoff : ℕ → ℕ → ℕ → ℕ
compute_backoff zero initial most = 0
compute_backoff (suc n) initial most = min (initial * 2 ^ n) most

-- The hook when its effect has run for a new URL; the events stay.
pub set_up : List StreamEvent → StreamSocket
set_up events = record {
  status = connecting;
  events = events;
  stream_status = none;
  attempt = 0;
  reconnect_timer = none;
  connects = 0;
}

pub handle_connect : StreamSocket → StreamSocket
handle_connect s = record s { attempt = 0; status = connected }

pub handle_connect_error : StreamSocket → StreamSocket
handle_connect_error s = record s { status = errored }

-- `io client disconnect` and `io server disconnect` are not followed by another attempt.
pub handle_disconnect : StreamSocket → String → StreamSocket
unfolding compute_backoff
handle_disconnect s reason =
    let off = record s { status = disconnected } in
    if reason == "io client disconnect" || reason == "io server disconnect"
    then off
    else (if is_some s.reconnect_timer then off else record off {
      attempt = suc s.attempt;
      reconnect_timer = some (compute_backoff (suc s.attempt) 1000 30000);
    })

-- The timer; the socket may be connected again by then.
pub reconnect : StreamSocket → Bool → StreamSocket
reconnect s is_connected =
    let fired = record s { reconnect_timer = none } in
    if is_connected then fired else record fired { connects = suc s.connects }

abbrev pub or_else : Option String → Option String → Option String
or_else none other = other
or_else (some a) other = some a

abbrev pub or_text : Option String → String → String
or_text none text = text
or_text (some a) text = a

abbrev pub event_name : Kind → String
event_name started = "stream:started"
event_name stopped = "stream:stopped"
event_name failed = "stream:error"

abbrev pub type_of : Kind → String
type_of started = "started"
type_of stopped = "stopped"
type_of failed = "error"

abbrev pub status_of : Kind → StreamStatus
status_of started = active
status_of stopped = inactive
status_of failed = error

abbrev pub stream_of : Payload → String
stream_of p = or_text (or_else p.stream_id p.legacy_id) ""

-- `label` makes the id of the event, `message` its message.
pub record Texts : Type 0 where
  pub label : String → String → ℕ → String
  pub message : Kind → Payload → String
  pub iso : ℕ → String

pub map_payload : Texts → Kind → Payload → ℕ → StreamEvent
map_payload t kind p now = record {
  id = t.label (event_name kind) (stream_of p) now;
  type_ = type_of kind;
  message = t.message kind p;
  timestamp = or_text (or_else p.started_at (or_else p.stopped_at p.occurred_at)) (t.iso now);
}

-- No stream is shown, or this one.
pub matches_target : Option String → Payload → Bool
matches_target none p = true
matches_target (some target) p = stream_of p == target

-- `[...prev, ev].slice(-MAX_EVENTS)`
pub append_event : List StreamEvent → StreamEvent → List StreamEvent
unfolding max_events
append_event prev ev = let all = prev ++ ev ∷ [] in drop (length all - max_events) all

-- `onStarted`, `onStopped` and `onError`.
pub on_event : Texts → Option String → StreamSocket → Kind → Payload → ℕ → StreamSocket
unfolding append_event map_payload matches_target
on_event t target s kind p now = record s {
  events = append_event s.events (map_payload t kind p now);
  stream_status = if matches_target target p then some (status_of kind) else s.stream_status;
}

-- What the socket tells the hook.
pub data Signal : Type 0 where
  connects connect_fails : Signal
  disconnects : String → Signal
  timer_fires : Bool → Signal
  tells : Kind → Payload → ℕ → Signal

pub step : Texts → Option String → StreamSocket → Signal → StreamSocket
unfolding handle_connect handle_connect_error handle_disconnect reconnect on_event
step t target s connects = handle_connect s
step t target s connect_fails = handle_connect_error s
step t target s (disconnects reason) = handle_disconnect s reason
step t target s (timer_fires is_connected) = reconnect s is_connected
step t target s (tells kind p now) = on_event t target s kind p now

pub run : Texts → Option String → StreamSocket → List Signal → StreamSocket
unfolding step
run t target s [] = s
run t target s (x ∷ xs) = run t target (step t target s x) xs
