-- ===== src/Registry/Ownership/Histories.antt =====
-- `IsOwned` along the calls of `route` and any history of the registry.
use xstream_roll.Shared.{
  ℕ, ◌≡◌, ◌∙◌, leb, inl, inr, String, true, false, List, [], ◌∷◌, Option, some, Option-cases,
  Bool-cases, string_key, number_key,
}
use xstream_roll.Shared.Dict
use xstream_roll.Shared.Dict.{Dict}
use xstream_roll.Locks.Token.{LockToken}
use xstream_roll.Metrics.{Metrics}
use xstream_roll.Session
use xstream_roll.Session.{StreamSession}
use xstream_roll.Session.Event.{StreamEvent}
use xstream_roll.Registry.{
  Acquired, granted, denied, threw, Spawned, SessionRegistry, Call, routes, resumes,
  acquire_settles, session_steps, release_settles, ticks, renew_settles, drain_begins,
  drain_finishes, create, holds_token, release_settled, schedule_next, spawn, acquire_settled,
  enqueue_to, route, route_raced, route_spawning, route_resumed, drain_begin, drain_finish, step,
  run,
}
use xstream_roll.Registry.Ownership.{
  IsOwned, create-IsOwned, write-IsOwned, session_step-IsOwned, tick-IsOwned, renew_settled-IsOwned,
  acquire_deduplicated-IsOwned, get-map, holds_token-set, claimed-IsOwned, cleared-IsOwned,
}

module _ (parse_date : String → Option ℕ) where
  enqueue_to-IsOwned :
      (r : SessionRegistry) (existing current : Spawned) (event : StreamEvent) (now : ℕ)
      → Dict.get event.stream_id r.sessions ≡ some existing
      → IsOwned r
      → IsOwned (enqueue_to parse_date r current event now).1
  unfolding enqueue_to
  enqueue_to-IsOwned r existing current event now found v =
      write-IsOwned r event.stream_id existing _ found v

  route-IsOwned :
      (r : SessionRegistry) (event : StreamEvent) (now : ℕ)
      → IsOwned r
      → IsOwned (route parse_date r event now).1
  unfolding route
  route-IsOwned r event now v = elim (Option-cases (Dict.get event.stream_id r.sessions)) [
    | inl e ↦ elim (Bool-cases (leb r.max_concurrent_sessions (Dict.size r.sessions))) [
      | inl full ↦ rw (e, route) (rw full v)
      | inr room ↦ rw (e, route) (rw room (acquire_deduplicated-IsOwned r event.stream_id v))
    ]
    | inr (existing, e) ↦ rw (e, route) (enqueue_to-IsOwned r existing existing event now e v)
  ]

  route_raced-IsOwned :
      (r : SessionRegistry) (raced : Spawned) (event : StreamEvent) (token : LockToken) (now : ℕ)
      → Dict.get event.stream_id r.sessions ≡ some raced
      → IsOwned r
      → IsOwned (route_raced parse_date r raced event token now).1
  unfolding route_raced
  route_raced-IsOwned r raced event token now found v =
      elim (Bool-cases (holds_token r event.stream_id token.token)) [
        | inl ours ↦ rw ours (
            enqueue_to-IsOwned _ raced raced event now found
              (record { same = v.same; beating = v.beating }))
        | inr other ↦ rw other (
            enqueue_to-IsOwned _ raced raced event now found
              (record { same = v.same; beating = v.beating }))
      ]

  route_spawning-IsOwned :
      (r : SessionRegistry) (event : StreamEvent) (token : LockToken) (id : String) (now : ℕ)
      → IsOwned r
      → IsOwned (route_spawning parse_date r event token id now).1
  unfolding route_spawning enqueue_to spawn schedule_next
  route_spawning-IsOwned r event token id now v =
      rw (holds_token-set r event.stream_id token)
        (claimed-IsOwned r event.stream_id token _ _ _ _ v)

  route_resumed-IsOwned :
      (r : SessionRegistry) (event : StreamEvent) (acquired : Acquired) (id : String) (now : ℕ)
      → IsOwned r
      → IsOwned (route_resumed parse_date r event acquired id now).1
  unfolding route_resumed
  route_resumed-IsOwned r event (threw message) id now v = v
  route_resumed-IsOwned r event denied id now v = record { same = v.same; beating = v.beating }
  route_resumed-IsOwned r event (granted token) id now v =
      elim (Option-cases (Dict.get event.stream_id r.sessions)) [
        | inl e ↦ rw (e, route_resumed) (route_spawning-IsOwned r event token id now v)
        | inr (raced, e) ↦ rw (e, route_resumed) (route_raced-IsOwned r raced event token now e v)
      ]

  step-IsOwned : (r : SessionRegistry) (c : Call) → IsOwned r → IsOwned (step parse_date r c)
  unfolding step drain_begin drain_finish acquire_settled release_settled holds_token
  step-IsOwned r (routes event now) v = route-IsOwned r event now v
  step-IsOwned r (resumes event acquired id now) v = route_resumed-IsOwned r event acquired id now v
  step-IsOwned r (acquire_settles x) v = record { same = v.same; beating = v.beating }
  step-IsOwned r (session_steps x c) v = session_step-IsOwned r x _ v
  step-IsOwned r (release_settles true) v = record { same = v.same; beating = v.beating }
  step-IsOwned r (release_settles false) v = record { same = v.same; beating = v.beating }
  step-IsOwned r (ticks x uuid) v = tick-IsOwned r x uuid v
  step-IsOwned r (renew_settles x uuid renewed now) v = renew_settled-IsOwned r x uuid renewed now v
  step-IsOwned r drain_begins v = record {
    same = λ s.
        get-map (λ c. record c { session = (Session.stop c.session).1 }) s r.sessions ∙ v.same s;
    beating = v.beating;
  }
  step-IsOwned r drain_finishes v = cleared-IsOwned r

  run-IsOwned : (r : SessionRegistry) (cs : List Call) → IsOwned r → IsOwned (run parse_date r cs)
  unfolding run
  run-IsOwned r [] v = v
  run-IsOwned r (c ∷ cs) v = run-IsOwned (step parse_date r c) cs (step-IsOwned r c v)

  -- In whatever order calls of `route`, the answers of the lock manager, the steps of the sessions,
  -- heartbeats and a drain come: a stream has a session in the registry exactly when the registry
  -- holds a lock token for it, and a pending heartbeat is always that of the token held now.
  pub run-create-IsOwned :
      (worker : String) (sessions depth retries ttl : ℕ) (m : Metrics) (cs : List Call)
      → IsOwned (run parse_date (create worker sessions depth retries ttl m) cs)
  run-create-IsOwned worker sessions depth retries ttl m cs =
      run-IsOwned _ cs (create-IsOwned worker sessions depth retries ttl m)
