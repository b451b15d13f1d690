-- ===== src/Registry.antt =====
-- `SessionRegistry` of xstreamroll-processing/src/session-registry.ts. Its methods are cut at their
-- awaits. The lock manager is any: what it answers comes in as an argument, and what it is asked
-- goes to `lock_calls`, oldest first. A session object is known by the serial number that it gets
-- when it is spawned; one that has left the map is not tracked further, since its listener then
-- changes nothing.
pub mod Ownership
pub mod Capacity
pub mod Heartbeats
pub mod Depth
mod Tests
use Prim.Native.String
use xstream_roll.Shared.{
  ℕ, suc, ◌+◌, ◌/◌, max, String, Bool, true, false, not, ◌&&◌, Option, none, some, List, [], ◌∷◌,
  ◌++◌, map, leb, if◌then◌else◌, ◌==◌, number_key, string_key,
}
use xstream_roll.Shared.Dict
use xstream_roll.Shared.Dict.{Dict}
use xstream_roll.Locks.Token.{LockToken}
use xstream_roll.Metrics.{
  Metrics, increment_lock_acquisitions, increment_lock_acquisitions_denied, increment_lock_renewals,
  increment_lock_renewals_failed, increment_lock_releases, increment_lock_releases_failed,
  increment_concurrent_route_dedupes,
}
use xstream_roll.Session
use xstream_roll.Session.Event.{StreamEvent}
use xstream_roll.Session.{StreamSession, rank, is_live}

pub data RouteResult : Type 0 where
  enqueued capacity rejected locked : RouteResult

-- What the promise of `lockManager.acquire` comes to.
pub data Acquired : Type 0 where
  granted : LockToken → Acquired
  denied : Acquired
  threw : String → Acquired

pub data LockCall : Type 0 where
  acquire_called : String → LockCall
  renew_called release_called : String → LockToken → LockCall
  release_all_called : LockCall

pub record Spawned : Type 0 where
  pub serial : ℕ
  pub session : StreamSession

pub record SessionRegistry : Type 0 where
  pub worker_id : String
  pub max_concurrent_sessions : ℕ
  pub max_queue_depth : ℕ
  pub max_publish_retries : ℕ
  pub lock_ttl_ms : ℕ
  pub sessions : Dict String Spawned
  pub lock_tokens : Dict String LockToken
  -- The pending heartbeat timers, each with the UUID of the token that it was started for.
  pub heartbeats : Dict String String
  -- The acquisitions under way, by the number of their promise.
  pub inflight_acquires : Dict String ℕ
  pub next_promise : ℕ
  pub next_serial : ℕ
  pub metrics : Metrics
  pub lock_calls : List LockCall

-- A call of `route` has its answer, throws, or waits for a promise.
pub data Routing : Type 0 where
  answered : RouteResult → Routing
  failed : String → Routing
  waiting : ℕ → Routing

-- The cadence of the heartbeat, `heartbeatMs ?? Math.max(1_000, Math.floor(ttlMs / 3))`; `none`
-- where the constructor throws.
pub heartbeat_of : Option ℕ → ℕ → Option ℕ
heartbeat_of heartbeat_ms ttl_ms =
    let chosen : ℕ = elim heartbeat_ms [ none ↦ max 1000 (ttl_ms / 3) | some ms ↦ ms ] in
    if leb ttl_ms chosen then none else some chosen

-- The maps and counters of a new registry.
pub create : String → ℕ → ℕ → ℕ → ℕ → Metrics → SessionRegistry
create worker_id max_sessions max_depth max_retries ttl metrics = record {
  worker_id = worker_id;
  max_concurrent_sessions = max_sessions;
  max_queue_depth = max_depth;
  max_publish_retries = max_retries;
  lock_ttl_ms = ttl;
  sessions = [];
  lock_tokens = [];
  heartbeats = [];
  inflight_acquires = [];
  next_promise = 0;
  next_serial = 0;
  metrics = metrics;
  lock_calls = [];
}

abbrev call : LockCall → SessionRegistry → SessionRegistry
call c r = record r { lock_calls = r.lock_calls ++ c ∷ [] }

abbrev count : (Metrics → Metrics) → SessionRegistry → SessionRegistry
count f r = record r { metrics = f r.metrics }

-- `this.lockTokens.get(streamId)?.token === uuid`
pub holds_token : SessionRegistry → String → String → Bool
holds_token r stream_id uuid = elim (Dict.get stream_id r.lock_tokens) [
  | none ↦ false
  | some token ↦ token.token == uuid
]

-- The `state` listener of a session that has stopped or failed.
pub on_ended : SessionRegistry → String → ℕ → SessionRegistry
on_ended r stream_id serial = elim (Dict.get stream_id r.sessions) [
  | none ↦ r
  | some current ↦
      if not (current.serial == serial) then r else elim (Dict.get stream_id r.lock_tokens) [
        | none ↦ record r { sessions = Dict.delete stream_id r.sessions }
        | some token ↦ call (release_called stream_id token) (record r {
          sessions = Dict.delete stream_id r.sessions;
          lock_tokens = Dict.delete stream_id r.lock_tokens;
          heartbeats = Dict.delete stream_id r.heartbeats;
        })
      ]
]

-- The promise of that `release` is fulfilled, with whatever value, or rejected.
pub release_settled : SessionRegistry → Bool → SessionRegistry
release_settled r true = count increment_lock_releases r
release_settled r false = count increment_lock_releases_failed r

-- `state` was emitted, for `stopped` or `errored`.
pub has_ended : StreamSession → StreamSession → Bool
has_ended before after = leb 3 (rank after.state) && not (rank before.state == rank after.state)

-- A session of the map goes through a step; its listener runs at once if that step ends it.
pub session_step : SessionRegistry → String → (StreamSession → StreamSession) → SessionRegistry
unfolding has_ended on_ended
session_step r stream_id f = elim (Dict.get stream_id r.sessions) [
  | none ↦ r
  | some current ↦
      let after = record r {
        sessions = Dict.set stream_id (record current { session = f current.session }) r.sessions;
      } in
      if has_ended current.session (f current.session)
      then on_ended after stream_id current.serial
      else after
]

-- `scheduleNext` of `startHeartbeat`.
pub schedule_next : SessionRegistry → String → String → SessionRegistry
unfolding holds_token
schedule_next r stream_id uuid =
    if holds_token r stream_id uuid
    then record r { heartbeats = Dict.set stream_id uuid r.heartbeats }
    else r

-- A heartbeat timer fires: `tick` up to the call of `renew`; true where it goes on to wait for it.
pub tick : SessionRegistry → String → String → Bool × SessionRegistry
tick r stream_id uuid =
    let r' = record r { heartbeats = Dict.delete stream_id r.heartbeats } in
    elim (Dict.get stream_id r.lock_tokens) [
      | none ↦ (false, r')
      | some current ↦
          if current.token == uuid
          then (true, call (renew_called stream_id current) r')
          else (false, r')
    ]

pub data Renewed : Type 0 where
  still_ours lost : Renewed
  renew_threw : String → Renewed

-- `current.expiresAt = …` writes to the token object: the one in the map, if it is still there.
refresh_expiry : SessionRegistry → String → String → ℕ → SessionRegistry
refresh_expiry r stream_id uuid expires_at = elim (Dict.get stream_id r.lock_tokens) [
  | none ↦ r
  | some token ↦
      if token.token == uuid
      then record r {
        lock_tokens = Dict.set stream_id (record token { expires_at = expires_at }) r.lock_tokens;
      }
      else r
]

-- The session is failed if it is running or draining.
fail_live : String → StreamSession → StreamSession
fail_live message s = if is_live s.state then Session.fail s message else s

-- The rest of `tick`, once `renew` is settled.
pub renew_settled : SessionRegistry → String → String → Renewed → ℕ → SessionRegistry
unfolding refresh_expiry schedule_next fail_live session_step
renew_settled r stream_id uuid still_ours now =
    schedule_next
      (refresh_expiry (count increment_lock_renewals r) stream_id uuid (now + r.lock_ttl_ms))
      stream_id uuid
renew_settled r stream_id uuid lost now =
    session_step (count increment_lock_renewals_failed r) stream_id
      (fail_live (String.◌++◌ "lost lock for stream " stream_id))
renew_settled r stream_id uuid (renew_threw message) now = schedule_next r stream_id uuid

-- `spawn`, with the suffix of the session's id as an argument.
pub spawn : SessionRegistry → String → String → SessionRegistry
spawn r stream_id id = record r {
  sessions =
      Dict.set stream_id
        (record {
          serial = r.next_serial;
          session = Session.create id stream_id r.worker_id r.max_queue_depth r.max_publish_retries;
        })
        r.sessions;
  next_serial = suc r.next_serial;
}

-- The promise of `acquire` is settled: `finally`.
pub acquire_settled : SessionRegistry → String → SessionRegistry
acquire_settled r stream_id = record r {
  inflight_acquires = Dict.delete stream_id r.inflight_acquires;
}

-- `acquireDeduplicated`, with the number of the promise.
pub acquire_deduplicated : SessionRegistry → String → ℕ × SessionRegistry
acquire_deduplicated r stream_id = elim (Dict.get stream_id r.inflight_acquires) [
  | some promise ↦ (promise, r)
  | none ↦ (
    r.next_promise,
    call (acquire_called stream_id) (record r {
      inflight_acquires = Dict.set stream_id r.next_promise r.inflight_acquires;
      next_promise = suc r.next_promise;
    }),
  )
]

module _ (parse_date : String → Option ℕ) where
  -- `existing.enqueue(event) ? "enqueued" : "rejected"`. `enqueue` ends no session.
  pub enqueue_to : SessionRegistry → Spawned → StreamEvent → ℕ → Routing × SessionRegistry
  enqueue_to r current event now =
      let (ok, session) = Session.enqueue parse_date current.session event now in
      (
        answered (if ok then enqueued else rejected),
        record r {
          sessions = Dict.set event.stream_id (record current { session = session }) r.sessions;
        },
      )

  -- `route` up to its await.
  pub route : SessionRegistry → StreamEvent → ℕ → Routing × SessionRegistry
  unfolding enqueue_to acquire_deduplicated
  route r event now = elim (Dict.get event.stream_id r.sessions) [
    | some existing ↦ enqueue_to r existing event now
    | none ↦
        if leb r.max_concurrent_sessions (Dict.size r.sessions)
        then (answered capacity, r)
        else let (promise, r') = acquire_deduplicated r event.stream_id in (waiting promise, r')
  ]

  -- Another `route` has spawned the session meanwhile.
  route_raced : SessionRegistry → Spawned → StreamEvent → LockToken → ℕ → Routing × SessionRegistry
  unfolding holds_token enqueue_to
  route_raced r raced event token now =
      let counted = count increment_concurrent_route_dedupes r in
      enqueue_to
        (if holds_token r event.stream_id token.token
          then counted
          else call (release_called event.stream_id token) counted)
        raced event now

  route_spawning :
      SessionRegistry → StreamEvent → LockToken → String → ℕ → Routing × SessionRegistry
  unfolding schedule_next spawn enqueue_to
  route_spawning r event token id now =
      let owned = record (count increment_lock_acquisitions r) {
        lock_tokens = Dict.set event.stream_id token r.lock_tokens;
      } in
      let beating = schedule_next owned event.stream_id token.token in
      let started =
        Session.start parse_date
          (Session.create id event.stream_id r.worker_id r.max_queue_depth r.max_publish_retries)
          now in
      enqueue_to (spawn beating event.stream_id id)
        (record { serial = r.next_serial; session = started }) event now

  -- The rest of `route`, once the promise that it waits for is settled.
  pub route_resumed :
      SessionRegistry → StreamEvent → Acquired → String → ℕ → Routing × SessionRegistry
  unfolding route_raced route_spawning
  route_resumed r event (threw message) id now = (failed message, r)
  route_resumed r event denied id now =
      (answered locked, count increment_lock_acquisitions_denied r)
  route_resumed r event (granted token) id now = elim (Dict.get event.stream_id r.sessions) [
    | some raced ↦ route_raced r raced event token now
    | none ↦ route_spawning r event token id now
  ]

  -- A call of `route` during which nothing else happens, as in the worker's poll loop.
  pub route_alone :
      SessionRegistry → StreamEvent → Acquired → String → ℕ → Routing × SessionRegistry
  unfolding route acquire_settled route_resumed
  route_alone r event acquired id now =
      let (routing, r') = route r event now in
      elim routing [
        | waiting promise ↦ route_resumed (acquire_settled r' event.stream_id) event acquired id now
        | other ↦ (other, r')
      ]

-- `drainAll` stops every session, and clears everything once all have stopped.
pub drain_begin : SessionRegistry → SessionRegistry
drain_begin r = record r {
  sessions =
      map (λ (b : String × Spawned). (b.0, record b.1 { session = (Session.stop b.1.session).1 }))
        r.sessions;
}

pub drain_finish : SessionRegistry → SessionRegistry
drain_finish r =
    call release_all_called
      (record r { sessions = []; lock_tokens = []; inflight_acquires = []; heartbeats = [] })

-- What can happen to a registry, in any order.
pub data Call : Type 0 where
  routes : StreamEvent → ℕ → Call
  resumes : StreamEvent → Acquired → String → ℕ → Call
  acquire_settles : String → Call
  session_steps : String → Session.Call → Call
  release_settles : Bool → Call
  ticks : String → String → Call
  renew_settles : String → String → Renewed → ℕ → Call
  drain_begins drain_finishes : Call

module _ (parse_date : String → Option ℕ) where
  pub step : SessionRegistry → Call → SessionRegistry
  step r (routes event now) = (route parse_date r event now).1
  step r (resumes event acquired id now) = (route_resumed parse_date r event acquired id now).1
  step r (acquire_settles stream_id) = acquire_settled r stream_id
  step r (session_steps stream_id c) = session_step r stream_id (λ s. Session.step parse_date s c)
  step r (release_settles ok) = release_settled r ok
  step r (ticks stream_id uuid) = (tick r stream_id uuid).1
  step r (renew_settles stream_id uuid renewed now) = renew_settled r stream_id uuid renewed now
  step r drain_begins = drain_begin r
  step r drain_finishes = drain_finish r

  pub run : SessionRegistry → List Call → SessionRegistry
  run r [] = r
  run r (c ∷ cs) = run (step r c) cs
