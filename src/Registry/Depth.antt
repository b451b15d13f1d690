-- ===== src/Registry/Depth.antt =====
-- `totalQueueDepth` and `capacity` of xstreamroll-processing/src/session-registry.ts, and what each
-- step of a registry does to the depth.
use Prim.Native.String
use xstream_roll.Shared.{
  ℕ, suc, ◌+◌, ◌≤◌, ◌≡◌, refl, ap, inl, inr, ◌⊎◌, String, Bool, true, false, Option, some, List, [],
  All, ◌∷◌, map, arith, leb, Option-cases, Bool-cases, string_key,
}
use xstream_roll.Shared.Dict
use xstream_roll.Shared.Dict.{Dict}
use xstream_roll.Locks.Token.{LockToken}
use xstream_roll.Metrics.{Metrics}
use xstream_roll.Session
use xstream_roll.Session.Event.{StreamEvent}
use xstream_roll.Session.{StreamSession, pending_count}
use xstream_roll.Session.Depth.{
  takes_none, create-pending, fail-pending, stop-pending, start-pending, enqueue-pending,
  step-pending,
}
use xstream_roll.Registry.Ownership.{holds_token-set}
use xstream_roll.Registry.Capacity.{acquire_deduplicated-sessions}
use xstream_roll.Registry.{
  RouteResult, Acquired, granted, denied, threw, Spawned, SessionRegistry, create, holds_token,
  answered, waiting, Renewed, still_ours, lost, renew_threw, Call, routes, resumes, acquire_settles,
  session_steps, release_settles, ticks, renew_settles, drain_begins, drain_finishes, step, run,
  on_ended, session_step, tick, renew_settled, release_settled, refresh_expiry, schedule_next,
  fail_live, spawn, acquire_settled, acquire_deduplicated, enqueue_to, route, route_raced,
  route_spawning, route_resumed, drain_begin, drain_finish,
}

depth_of : Dict String Spawned → ℕ
depth_of [] = 0
depth_of ((stream_id, current) ∷ sessions) = pending_count current.session + depth_of sessions

pub total_queue_depth : SessionRegistry → ℕ
unfolding depth_of
total_queue_depth r = depth_of r.sessions

-- The sessions in use, and how many there can be.
pub capacity_of : SessionRegistry → ℕ × ℕ
capacity_of r = (Dict.size r.sessions, r.max_concurrent_sessions)

depth_of-set_new :
    (k : String) (x : Spawned) (m : Dict String Spawned)
    → depth_of (Dict.set k x m) ≤ pending_count x.session + depth_of m
unfolding depth_of Dict.set
depth_of-set_new k x [] = omega arith
depth_of-set_new k x ((j, y) ∷ m) = ground (arith, depth_of-set_new k x m)

depth_of-set :
    (k : String) (old x : Spawned) (m : Dict String Spawned)
    → Dict.get k m ≡ some old
    → depth_of (Dict.set k x m) + pending_count old.session ≡ depth_of m + pending_count x.session
unfolding depth_of Dict.set Dict.get
depth_of-set k old x [] h = ground arith
depth_of-set k old x ((j, y) ∷ m) h = ground (arith, depth_of-set k old x m)

depth_of-delete : (k : String) (m : Dict String Spawned) → depth_of (Dict.delete k m) ≤ depth_of m
unfolding depth_of Dict.delete
depth_of-delete k [] = omega arith
depth_of-delete k ((j, y) ∷ m) = ground (arith, depth_of-delete k m)

session_step-depth :
    (r : SessionRegistry) (stream_id : String) (f : StreamSession → StreamSession)
    → ((s : StreamSession) → pending_count (f s) ≤ pending_count s)
    → total_queue_depth (session_step r stream_id f) ≤ total_queue_depth r
unfolding session_step on_ended total_queue_depth
session_step-depth r stream_id f less = elim (Option-cases (Dict.get stream_id r.sessions)) [
  | inl e ↦ rw (e, session_step) (omega arith)
  | inr (current, e) ↦
      let x = record current { session = f current.session } in
      ground (
        arith,
        e,
        less current.session,
        depth_of-set stream_id current x r.sessions,
        depth_of-delete stream_id (Dict.set stream_id x r.sessions),
      )
]

drain-depth :
    (m : Dict String Spawned)
    → depth_of (
        map
          (λ (b : String × Spawned). (b.0, record b.1 { session = (Session.stop b.1.session).1 }))
          m)
      ≤ depth_of m
unfolding depth_of
drain-depth [] = omega arith
drain-depth ((j, y) ∷ m) = omega (arith, drain-depth m, stop-pending y.session)

-- The depth is that of the sessions.
pub total_queue_depth-same :
    (r r' : SessionRegistry) → r.sessions ≡ r'.sessions → total_queue_depth r ≡ total_queue_depth r'
unfolding total_queue_depth
total_queue_depth-same r r' e = ap (λ m. depth_of m) e

pub create-depth :
    (worker_id : String) (max_sessions max_depth max_retries ttl : ℕ) (metrics : Metrics)
    → total_queue_depth (create worker_id max_sessions max_depth max_retries ttl metrics) ≡ 0
unfolding create total_queue_depth depth_of
create-depth worker_id max_sessions max_depth max_retries ttl metrics = refl

pub acquire_settled-depth :
    (r : SessionRegistry) (stream_id : String)
    → total_queue_depth (acquire_settled r stream_id) ≡ total_queue_depth r
unfolding acquire_settled total_queue_depth
acquire_settled-depth r stream_id = refl

-- Every step of a registry but those of `route` and of an `enqueue`.
pub is_background : Call → Bool
is_background (routes event now) = false
is_background (resumes event acquired id now) = false
is_background (session_steps stream_id c) = takes_none c
is_background _ = true

module _ (parse_date : String → Option ℕ) where
  enqueue_to-depth :
      (r : SessionRegistry) (current : Spawned) (event : StreamEvent) (now : ℕ)
      → Dict.get event.stream_id r.sessions ≡ some current
      → total_queue_depth (enqueue_to parse_date r current event now).1 ≤ suc (total_queue_depth r)
  unfolding enqueue_to total_queue_depth
  enqueue_to-depth r current event now h = omega (
    arith,
    enqueue-pending parse_date current.session event now,
    depth_of-set event.stream_id current
        (record current { session = (Session.enqueue parse_date current.session event now).1 })
        r.sessions h,
  )

  route_spawning-depth :
      (r : SessionRegistry) (event : StreamEvent) (token : LockToken) (id : String) (now : ℕ)
      → total_queue_depth (route_spawning parse_date r event token id now).1
        ≤ suc (total_queue_depth r)
  unfolding route_spawning schedule_next enqueue_to spawn total_queue_depth
  route_spawning-depth r event token id now =
      let made =
        Session.create id event.stream_id r.worker_id r.max_queue_depth r.max_publish_retries in
      let started = Session.start parse_date made now in
      let old : Spawned = record { serial = r.next_serial; session = made } in
      let new : Spawned = record {
        serial = r.next_serial;
        session = (Session.enqueue parse_date started event now).1;
      } in
      rw (holds_token-set r event.stream_id token) (
        omega (
          arith,
          create-pending id event.stream_id r.worker_id r.max_queue_depth r.max_publish_retries,
          start-pending parse_date made now,
          enqueue-pending parse_date started event now,
          depth_of-set_new event.stream_id old r.sessions,
          depth_of-set event.stream_id old new (Dict.set event.stream_id old r.sessions)
              (Dict.get-set_self event.stream_id old r.sessions),
        ))

  route_raced-depth :
      (r : SessionRegistry) (raced : Spawned) (event : StreamEvent) (token : LockToken) (now : ℕ)
      → Dict.get event.stream_id r.sessions ≡ some raced
      → total_queue_depth (route_raced parse_date r raced event token now).1
        ≤ suc (total_queue_depth r)
  unfolding route_raced total_queue_depth
  route_raced-depth r raced event token now e =
      elim (Bool-cases (holds_token r event.stream_id token.token)) [
        | inl held ↦ rw (held, route_raced) (enqueue_to-depth r raced event now e)
        | inr other ↦ rw (other, route_raced) (enqueue_to-depth r raced event now e)
      ]

  pub route_resumed-depth :
      (r : SessionRegistry) (event : StreamEvent) (acquired : Acquired) (id : String) (now : ℕ)
      → total_queue_depth (route_resumed parse_date r event acquired id now).1
        ≤ suc (total_queue_depth r)
  unfolding route_resumed total_queue_depth
  route_resumed-depth r event (threw message) id now = omega arith
  route_resumed-depth r event denied id now = omega arith
  route_resumed-depth r event (granted token) id now =
      elim (Option-cases (Dict.get event.stream_id r.sessions)) [
        | inl e ↦ rw (e, route_resumed) (route_spawning-depth r event token id now)
        | inr (raced, e) ↦ rw (e, route_resumed) (route_raced-depth r raced event token now e)
      ]

  -- A call of `route` that waits has enqueued nothing yet.
  pub route-cases :
      (r : SessionRegistry) (event : StreamEvent) (now : ℕ)
      → ((promise : ℕ) × ((route parse_date r event now).0 ≡ waiting promise)
          × (total_queue_depth (route parse_date r event now).1 ≤ total_queue_depth r))
        ⊎ ((result : RouteResult) × ((route parse_date r event now).0 ≡ answered result)
            × (total_queue_depth (route parse_date r event now).1 ≤ suc (total_queue_depth r)))
  unfolding route total_queue_depth enqueue_to
  route-cases r event now = elim (Option-cases (Dict.get event.stream_id r.sessions)) [
    | inr (existing, e) ↦ rw (e, route) (inr (_, refl, enqueue_to-depth r existing event now e))
    | inl e ↦ elim (Bool-cases (leb r.max_concurrent_sessions (Dict.size r.sessions))) [
      | inl full ↦ rw (e, full, route) (inr (_, refl, omega arith))
      | inr room ↦
          let same =
            total_queue_depth-same (acquire_deduplicated r event.stream_id).1 r
              (acquire_deduplicated-sessions r event.stream_id) in
          rw (e, room, route) (inl (_, refl, omega (arith, same)))
    ]
  ]

  renew_settled-depth :
      (r : SessionRegistry) (stream_id uuid : String) (renewed : Renewed) (now : ℕ)
      → total_queue_depth (renew_settled r stream_id uuid renewed now) ≤ total_queue_depth r
  unfolding renew_settled total_queue_depth refresh_expiry schedule_next fail_live
  renew_settled-depth r stream_id uuid still_ours now = ground arith
  renew_settled-depth r stream_id uuid lost now =
      session_step-depth _ stream_id _
        (λ s. ground (arith, fail-pending s (String.◌++◌ "lost lock for stream " stream_id)))
  renew_settled-depth r stream_id uuid (renew_threw message) now = ground arith

  step-depth :
      (r : SessionRegistry) (c : Call)
      → is_background c ≡ true
      → total_queue_depth (step parse_date r c) ≤ total_queue_depth r
  unfolding step is_background total_queue_depth tick release_settled acquire_settled drain_begin
      drain_finish
  step-depth r (routes event now) q = absurd (ground arith)
  step-depth r (resumes event acquired id now) q = absurd (ground arith)
  step-depth r (acquire_settles stream_id) q = omega arith
  step-depth r (session_steps stream_id c) q =
      session_step-depth r stream_id _ (λ s. step-pending parse_date s c q)
  step-depth r (release_settles ok) q = ground arith
  step-depth r (ticks stream_id uuid) q = ground arith
  step-depth r (renew_settles stream_id uuid renewed now) q =
      renew_settled-depth r stream_id uuid renewed now
  step-depth r drain_begins q = drain-depth r.sessions
  step-depth r drain_finishes q = ground arith

  pub run-depth :
      (r : SessionRegistry) (cs : List Call)
      → All (λ c. is_background c ≡ true) cs
      → total_queue_depth (run parse_date r cs) ≤ total_queue_depth r
  unfolding run
  run-depth r [] q = omega arith
  run-depth r (c ∷ cs) q = omega (arith, run-depth (step parse_date r c) cs q.1, step-depth r c q.0)
