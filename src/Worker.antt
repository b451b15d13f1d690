-- ===== src/Worker.antt =====
-- `pollOnce` and `logRouteError` of xstreamroll-processing/src/worker.ts. The API is any: its answers
-- come in as the pages of a poll, in order. Nothing but `pollOnce` calls `route`, so that what
-- happens to the registry while a poll waits are its other steps. What is printed goes to `log`,
-- oldest first. The trace headers and the timer between two polls are not modelled.
pub mod Errors
pub mod Polling
mod Tests
use Prim.Native.String
use xstream_roll.Shared.{
  ℕ, suc, ◌+◌, ◌-◌, String, Bool, true, false, not, ◌&&◌, ◌||◌, Option, none, some, List, [], ◌∷◌,
  ◌++◌, length, is_some, ltb, leb, if◌then◌else◌, ◌==◌, string_key,
}
use xstream_roll.Shared.Dict
use xstream_roll.Shared.Dict.{Dict}
use xstream_roll.Session.Event.{StreamEvent}
use xstream_roll.Filters.{Configs, allow}
use xstream_roll.Registry
use xstream_roll.Registry.{
  RouteResult, enqueued, capacity, rejected, locked, Acquired, SessionRegistry, Routing, answered,
  failed, waiting, route, acquire_settled, route_resumed,
}
use xstream_roll.Registry.Depth.{total_queue_depth, capacity_of}

pub record DedupeState : Type 0 where
  pub last_logged_at_ms : ℕ
  pub suppressed_batch : ℕ

pub data Line : Type 0 where
  backed_off : ℕ → Line
  polling_failed : String → Line
  dropped_malformed : Line
  at_capacity : ℕ → ℕ → String → Line
  not_accepting owned_elsewhere : String → Line
  paused_pagination : ℕ → Line

-- A routing error that is printed, with the number of its repeats that were not.
pub record ErrorLine : Type 0 where
  pub stream_id : String
  pub message : String
  pub suppressed : ℕ

-- `routeErrorDedupe`, and the routing errors that are printed.
pub record RouteErrors : Type 0 where
  pub dedupe : Dict String DedupeState
  pub lines : List ErrorLine

abbrev pub route_error_dedupe_ms : ℕ
route_error_dedupe_ms = 30000

abbrev pub max_tracked_error_keys : ℕ
max_tracked_error_keys = 100

pub no_errors : RouteErrors
no_errors = record { dedupe = []; lines = [] }

-- The entry with the smallest `lastLoggedAtMs`, the first of several, with that time; `none` is the
-- start, at infinity.
pub oldest : Option (String × ℕ) → Dict String DedupeState → Option (String × ℕ)
oldest best [] = best
oldest best ((k, v) ∷ m) =
    let closer : Bool = elim best [ none ↦ true | some b ↦ ltb v.last_logged_at_ms b.1 ] in
    oldest (if closer then some (k, v.last_logged_at_ms) else best) m

-- A new key at the cap puts the oldest entry out.
pub evict : String → Dict String DedupeState → Dict String DedupeState
unfolding oldest
evict key m =
    if not (Dict.has key m) && leb max_tracked_error_keys (Dict.size m)
    then elim (oldest none m) [ none ↦ m | some b ↦ Dict.delete b.0 m ]
    else m

abbrev pub error_key : String → String → String
error_key stream_id message = String.◌++◌ stream_id (String.◌++◌ "::" message)

abbrev pub existing_of : String → Dict String DedupeState → DedupeState
existing_of key m = elim (Dict.get key m) [
  | none ↦ record { last_logged_at_ms = 0; suppressed_batch = 0 }
  | some v ↦ v
]

-- `logRouteError`. The entry that is set is the object that the last lines write to.
pub log_route_error : RouteErrors → String → String → ℕ → RouteErrors
unfolding evict
log_route_error e stream_id message now =
    let key = error_key stream_id message in
    let kept = evict key e.dedupe in
    let existing = existing_of key kept in
    if leb route_error_dedupe_ms (now - existing.last_logged_at_ms)
    then record {
      dedupe =
          Dict.set key (record { last_logged_at_ms = now; suppressed_batch = 0 })
            (Dict.delete key kept);
      lines =
          e.lines
          ++ record {
            stream_id = stream_id;
            message = message;
            suppressed = existing.suppressed_batch;
          }
            ∷ [];
    }
    else record e {
      dedupe =
          Dict.set key (record existing { suppressed_batch = existing.suppressed_batch + 1 })
            (Dict.delete key kept);
    }

pub record Worker : Type 0 where
  pub configs : Configs
  pub registry : SessionRegistry
  pub route_errors : RouteErrors
  -- the cursors of the requests for a page, `none` where there is no such parameter
  pub requests : List (Option String)
  pub log : List Line

-- An element of a page, `none` for one without a text as its `streamId`; what happens to the registry
-- before the loop comes to it and while it waits for the lock; what `acquire` then comes to, the
-- suffix of the id of a new session, and the time.
pub record Arrival : Type 0 where
  pub event : Option StreamEvent
  pub before : List Registry.Call
  pub during : List Registry.Call
  pub acquired : Acquired
  pub id : String
  pub now : ℕ

pub data Response : Type 0 where
  fetch_failed : String → Response
  -- `{ data, nextCursor }`
  paged : List Arrival → Option String → Response
  -- a plain array
  legacy : List Arrival → Response

-- One round of the loop: what `shuttingDown` is at its head, and the answer of the API.
pub record Page : Type 0 where
  pub shutting_down : Bool
  pub response : Response

-- `waits` is a poll that still waits for an answer of the API.
pub data Polled : Type 0 where
  skipped fetch_broke finished waits : Polled

abbrev pub print : Line → Worker → Worker
print l w = record w { log = w.log ++ l ∷ [] }

pub report : Worker → String → Routing → ℕ → Worker
unfolding log_route_error
report w stream_id (answered enqueued) now = w
report w stream_id (answered capacity) now =
    print (at_capacity (capacity_of w.registry).0 (capacity_of w.registry).1 stream_id) w
report w stream_id (answered rejected) now = print (not_accepting stream_id) w
report w stream_id (answered locked) now = print (owned_elsewhere stream_id) w
report w stream_id (failed message) now = record w {
  route_errors = log_route_error w.route_errors stream_id message now;
}
report w stream_id (waiting promise) now = w

-- `setQueueDepth(registry.totalQueueDepth())`.
pub set_queue_depth : Worker → Worker
set_queue_depth w =
    let r = w.registry in
    record w {
      registry = record r { metrics = record r.metrics { queue_depth = total_queue_depth r } };
    }

pub failure_of : Response → Option String
failure_of (fetch_failed message) = some message
failure_of _ = none

-- What a page holds, and the cursor of the next; a full plain array stands for one more page.
pub events_of : Response → List Arrival
events_of (fetch_failed message) = []
events_of (paged events next_cursor) = events
events_of (legacy events) = events

pub next_cursor_of : ℕ → Response → Option String
next_cursor_of poll_batch_size (fetch_failed message) = none
next_cursor_of poll_batch_size (paged events next_cursor) = next_cursor
next_cursor_of poll_batch_size (legacy events) =
    if ltb (length events) poll_batch_size then none else some "{}"

module _ (parse_date : String → Option ℕ) where
  -- `registry.route(event)`, with what happens while it waits.
  pub route_through : SessionRegistry → StreamEvent → Arrival → Routing × SessionRegistry
  route_through r event a =
      let (routing, r') = route parse_date r event a.now in
      elim routing [
        | waiting promise ↦
            route_resumed parse_date
              (acquire_settled (Registry.run parse_date r' a.during) event.stream_id) event
              a.acquired a.id a.now
        | other ↦ (other, r')
      ]

  -- The body of the loop over the events of a page.
  pub handle : Worker → Arrival → Worker
  unfolding route_through report
  handle w a =
      let w' = record w { registry = Registry.run parse_date w.registry a.before } in
      elim a.event [
        | none ↦ print dropped_malformed w'
        | some event ↦
            if event.stream_id == ""
            then print dropped_malformed w'
            else if not (allow w'.configs event)
            then w'
            else let (routing, r) = route_through w'.registry event a in
              report (record w' { registry = r }) event.stream_id routing a.now
      ]

  pub handle_all : Worker → List Arrival → Worker
  handle_all w [] = w
  handle_all w (a ∷ more) = handle_all (handle w a) more

  -- The constants `HIGH_WATERMARK` and `POLL_BATCH_SIZE`.
  module _ (high_watermark poll_batch_size : ℕ) where
    -- The loop over the pages, on the rounds that it goes through.
    pub poll_pages : Worker → Option String → ℕ → List Page → Polled × Worker
    unfolding handle_all set_queue_depth failure_of events_of next_cursor_of
    poll_pages w cursor total_fetched [] =
        (waits, record w { requests = w.requests ++ cursor ∷ [] })
    poll_pages w cursor total_fetched (page ∷ pages) =
        let events = events_of page.response in
        let next_cursor = next_cursor_of poll_batch_size page.response in
        let asked = record w { requests = w.requests ++ cursor ∷ [] } in
        let fetched = total_fetched + length events in
        let after = set_queue_depth (handle_all asked events) in
        let rest = poll_pages after next_cursor fetched pages in
        let full = leb high_watermark (total_queue_depth after.registry) in
        let last = not (is_some next_cursor) || ltb (length events) poll_batch_size in
        let paused =
          if full && ltb 0 fetched then print (paused_pagination fetched) after else after in
        if page.shutting_down then (finished, w) else elim (failure_of page.response) [
          | some message ↦ (fetch_broke, set_queue_depth (print (polling_failed message) asked))
          | none ↦ if last || full then (finished, paused) else rest
        ]

    -- `pollOnce`, once the registry is there.
    pub poll_once : Worker → List Page → Polled × Worker
    unfolding set_queue_depth poll_pages
    poll_once w pages =
        if leb high_watermark (total_queue_depth w.registry)
        then (skipped, print (backed_off (total_queue_depth w.registry)) (set_queue_depth w))
        else poll_pages w none 0 pages
