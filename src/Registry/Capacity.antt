-- ===== src/Registry/Capacity.antt =====
-- How many sessions the registry holds, and how many acquisitions it asks for.
use xstream_roll.Shared.{
  ℕ, suc, ◌≤◌, ◌<◌, ◌≡◌, refl, ap, ◌∙◌, ◌≢◌, inl, inr, String, true, false, Option, none, some,
  arith, leb, Option-cases, Bool-cases, string_key,
}
use xstream_roll.Shared.Dict
use xstream_roll.Shared.Dict.{Dict}
use xstream_roll.Locks.Token.{LockToken}
use xstream_roll.Session.Event.{StreamEvent}
use xstream_roll.Registry.{
  Acquired, granted, denied, threw, Spawned, answered, waiting, capacity, SessionRegistry,
  schedule_next, spawn, acquire_settled, acquire_deduplicated, enqueue_to, route, route_spawning,
  route_resumed, route_alone,
}
use xstream_roll.Registry.Ownership.{holds_token-set}

size-set_twice :
    (x : String) (a b : Spawned) (m : Dict String Spawned)
    → Dict.get x m ≡ none
    → Dict.size (Dict.set x b (Dict.set x a m)) ≡ suc (Dict.size m)
size-set_twice x a b m e =
    ground (arith, Dict.size-set x b (Dict.set x a m), Dict.size-set x a m, Dict.get-set_self x a m)

get-set_twice :
    (s x : String) (a b : Spawned) (m : Dict String Spawned)
    → x ≢ s
    → Dict.get s (Dict.set x b (Dict.set x a m)) ≡ Dict.get s m
get-set_twice s x a b m ne = Dict.get-set_ne s x b (Dict.set x a m) ne ∙ Dict.get-set_ne s x a m ne

pub acquire_deduplicated-sessions :
    (r : SessionRegistry) (x : String) → (acquire_deduplicated r x).1.sessions ≡ r.sessions
unfolding acquire_deduplicated
acquire_deduplicated-sessions r x = ground arith

acquire_deduplicated-max :
    (r : SessionRegistry) (x : String)
    → (acquire_deduplicated r x).1.max_concurrent_sessions ≡ r.max_concurrent_sessions
unfolding acquire_deduplicated
acquire_deduplicated-max r x = ground arith

acquire_deduplicated-under_way :
    (r : SessionRegistry) (x : String) (promise : ℕ)
    → Dict.get x r.inflight_acquires ≡ some promise
    → acquire_deduplicated r x ≡ (promise, r)
unfolding acquire_deduplicated
acquire_deduplicated-under_way r x promise e = rw (e, acquire_deduplicated) refl

module _ (parse_date : String → Option ℕ) where
  -- Enqueueing into a session that is there.
  enqueue_to-size :
      (r : SessionRegistry) (existing current : Spawned) (event : StreamEvent) (now : ℕ)
      → Dict.get event.stream_id r.sessions ≡ some existing
      → Dict.size (enqueue_to parse_date r current event now).1.sessions ≡ Dict.size r.sessions
  unfolding enqueue_to
  enqueue_to-size r existing current event now e = Dict.size-set event.stream_id _ r.sessions ∙ rw e

  route_spawning-size :
      (r : SessionRegistry) (event : StreamEvent) (token : LockToken) (id : String) (now : ℕ)
      → Dict.get event.stream_id r.sessions ≡ none
      → Dict.size (route_spawning parse_date r event token id now).1.sessions
        ≡ suc (Dict.size r.sessions)
  unfolding route_spawning enqueue_to spawn schedule_next
  route_spawning-size r event token id now e =
      rw (holds_token-set r event.stream_id token) (size-set_twice event.stream_id _ _ r.sessions e)

  route_spawning-get :
      (r : SessionRegistry) (event : StreamEvent) (token : LockToken) (id : String) (now : ℕ)
      (s : String)
      → event.stream_id ≢ s
      → Dict.get s (route_spawning parse_date r event token id now).1.sessions
        ≡ Dict.get s r.sessions
  unfolding route_spawning enqueue_to spawn schedule_next
  route_spawning-get r event token id now s ne =
      rw (holds_token-set r event.stream_id token)
        (get-set_twice s event.stream_id _ _ r.sessions ne)

  route_resumed-size :
      (r : SessionRegistry) (event : StreamEvent) (acquired : Acquired) (id : String) (now : ℕ)
      → Dict.get event.stream_id r.sessions ≡ none
      → Dict.size (route_resumed parse_date r event acquired id now).1.sessions
        ≤ suc (Dict.size r.sessions)
  unfolding route_resumed
  route_resumed-size r event (threw message) id now e = omega arith
  route_resumed-size r event denied id now e = omega arith
  route_resumed-size r event (granted token) id now e =
      rw (e, route_resumed) (omega (arith, route_spawning-size r event token id now e))

  -- Without a session, and with room for one, `route` waits for the lock.
  route_waiting :
      (r : SessionRegistry) (event : StreamEvent) (now : ℕ)
      → Dict.get event.stream_id r.sessions ≡ none
      → Dict.size r.sessions < r.max_concurrent_sessions
      → route parse_date r event now ≡ (
        waiting (acquire_deduplicated r event.stream_id).0,
        (acquire_deduplicated r event.stream_id).1,
      )
  unfolding route
  route_waiting r event now e room =
      let open_test : leb r.max_concurrent_sessions (Dict.size r.sessions) ≡ false = ground arith in
      rw (e, route) (rw open_test refl)

  route_existing :
      (r : SessionRegistry) (existing : Spawned) (event : StreamEvent) (now : ℕ)
      → Dict.get event.stream_id r.sessions ≡ some existing
      → route parse_date r event now ≡ enqueue_to parse_date r existing event now
  unfolding route
  route_existing r existing event now e = rw (e, route) refl

  route_full :
      (r : SessionRegistry) (event : StreamEvent) (now : ℕ)
      → Dict.get event.stream_id r.sessions ≡ none
      → leb r.max_concurrent_sessions (Dict.size r.sessions) ≡ true
      → route parse_date r event now ≡ (answered capacity, r)
  unfolding route
  route_full r event now e full = rw (e, route) (rw full refl)

  route_resumed_spawns :
      (r : SessionRegistry) (event : StreamEvent) (token : LockToken) (id : String) (now : ℕ)
      → Dict.get event.stream_id r.sessions ≡ none
      → route_resumed parse_date r event (granted token) id now
        ≡ route_spawning parse_date r event token id now
  unfolding route_resumed
  route_resumed_spawns r event token id now e = rw (e, route_resumed) refl

  -- A call of `route` during which nothing else happens keeps the number of sessions within
  -- `max_concurrent_sessions`, whatever the lock manager answers.
  pub route_alone_bounded :
      (r : SessionRegistry) (event : StreamEvent) (acquired : Acquired) (id : String) (now : ℕ)
      → Dict.size r.sessions ≤ r.max_concurrent_sessions
      → Dict.size (route_alone parse_date r event acquired id now).1.sessions
        ≤ r.max_concurrent_sessions
  unfolding route_alone acquire_settled
  route_alone_bounded r event acquired id now h =
      elim (Option-cases (Dict.get event.stream_id r.sessions)) [
        | inr (existing, e) ↦
            rw (route_existing r existing event now e, route_alone)
              (rw (route_existing r existing event now e)
                (omega (arith, enqueue_to-size r existing existing event now e)))
        | inl e ↦ elim (Bool-cases (leb r.max_concurrent_sessions (Dict.size r.sessions))) [
          | inl full ↦
              rw (route_full r event now e full, route_alone) (rw (route_full r event now e full) h)
          | inr room ↦
              let below : Dict.size r.sessions < r.max_concurrent_sessions = ground arith in
              let waits = route_waiting r event now e below in
              let same = acquire_deduplicated-sessions r event.stream_id in
              let r' = acquire_settled (acquire_deduplicated r event.stream_id).1 event.stream_id in
              rw (waits, route_alone)
                (rw waits (
                  omega (
                    arith,
                    route_resumed-size r' event acquired id now (rw same e),
                    ap (λ m. Dict.size m) same,
                  )))
        ]
      ]

  -- Two calls of `route` for two streams without sessions, of which the second begins before the
  -- first has its lock, both pass the check of the capacity where there is room for one: if both
  -- locks are granted, the registry holds one session more than `max_concurrent_sessions`.
  pub route_overshoots :
      (r : SessionRegistry) (first second : StreamEvent) (a b : LockToken) (i j : String) (now : ℕ)
      → Dict.get first.stream_id r.sessions ≡ none
      → Dict.get second.stream_id r.sessions ≡ none
      → first.stream_id ≢ second.stream_id
      → suc (Dict.size r.sessions) ≡ r.max_concurrent_sessions
      → let r₁ = (route parse_date r first now).1 in
        let r₂ = (route parse_date r₁ second now).1 in
        let r₃ = (route_resumed parse_date r₂ first (granted a) i now).1 in
        let r₄ = (route_resumed parse_date r₃ second (granted b) j now).1 in
        Dict.size r₄.sessions ≡ suc r.max_concurrent_sessions
  route_overshoots r first second a b i j now e f ne last =
      let r₁ = (acquire_deduplicated r first.stream_id).1 in
      let r₂ = (acquire_deduplicated r₁ second.stream_id).1 in
      let same₁ = acquire_deduplicated-sessions r first.stream_id in
      let same = acquire_deduplicated-sessions r₁ second.stream_id ∙ same₁ in
      let waits₁ = route_waiting r first now e (omega arith) in
      let waits₂ =
        route_waiting r₁ second now (rw same₁ f)
          (rw (same₁, acquire_deduplicated-max r first.stream_id) (omega arith)) in
      let none₁ : Dict.get first.stream_id r₂.sessions ≡ none = rw same e in
      let r₃ = (route_spawning parse_date r₂ first a i now).1 in
      let none₂ : Dict.get second.stream_id r₃.sessions ≡ none =
        route_spawning-get r₂ first a i now second.stream_id ne ∙ rw same f in
      rw waits₁ (
        rw waits₂ (
          rw (route_resumed_spawns r₂ first a i now none₁) (
            rw (route_resumed_spawns r₃ second b j now none₂) (
              omega (
                arith,
                route_spawning-size r₃ second b j now none₂,
                route_spawning-size r₂ first a i now none₁,
                ap (λ (m : Dict String Spawned). Dict.size m) same,
              )))))

  route_registers :
      (r : SessionRegistry) (event : StreamEvent) (now promise : ℕ)
      → (route parse_date r event now).0 ≡ waiting promise
      → Dict.get event.stream_id (route parse_date r event now).1.inflight_acquires ≡ some promise
  unfolding route enqueue_to acquire_deduplicated
  route_registers r event now promise h =
      ground (arith, Dict.get-set_self event.stream_id r.next_promise r.inflight_acquires)

  -- While the lock of a stream is being acquired, a second call of `route` for that stream, in a
  -- registry in which other things may have happened since but that promise is still under way, the
  -- stream has no session and there is room, waits for the same promise and changes nothing: the lock
  -- manager is asked once.
  pub route_deduplicates :
      (r later : SessionRegistry) (first second : StreamEvent) (now then_ promise : ℕ)
      → (route parse_date r first now).0 ≡ waiting promise
      → second.stream_id ≡ first.stream_id
      → Dict.get first.stream_id later.inflight_acquires
        ≡ Dict.get first.stream_id (route parse_date r first now).1.inflight_acquires
      → Dict.get first.stream_id later.sessions ≡ none
      → Dict.size later.sessions < later.max_concurrent_sessions
      → route parse_date later second then_ ≡ (waiting promise, later)
  route_deduplicates r later first second now then_ promise h same kept missing room =
      let waits = route_waiting later second then_ (rw same missing) room in
      let under_way = route_registers r first now promise h in
      waits
      ∙ rw (
          acquire_deduplicated-under_way later second.stream_id promise
            (rw same (kept ∙ under_way)))
