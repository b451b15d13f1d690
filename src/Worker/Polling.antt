-- ===== src/Worker/Polling.antt =====
-- How far a poll fills the queues.
use xstream_roll.Shared.{
  ℕ, suc, ◌+◌, ◌≤◌, ◌<◌, ◌≡◌, refl, inl, inr, String, Bool, true, false, not, ◌&&◌, ◌||◌, Option,
  none, List, [], ◌∷◌, ◌++◌, All, length, is_some, arith, ltb, leb, if◌then◌else◌, Option-cases,
  Bool-cases, ◌==◌, string_key,
}
use xstream_roll.Session.Event.{StreamEvent}
use xstream_roll.Filters.{allow}
use xstream_roll.Registry
use xstream_roll.Registry.{
  enqueued, capacity, rejected, locked, SessionRegistry, Routing, answered, failed, waiting, route,
  acquire_settled, route_resumed,
}
use xstream_roll.Registry.Depth.{
  total_queue_depth, is_background, run-depth, route-cases, route_resumed-depth,
  total_queue_depth-same, acquire_settled-depth,
}
use xstream_roll.Worker.{
  Worker, Arrival, Page, report, set_queue_depth, events_of, next_cursor_of, failure_of, print,
  Line, polling_failed, paused_pagination, route_through, handle, handle_all, poll_pages, poll_once,
}

-- What happens to the registry meanwhile is none of the poll's own doing.
abbrev pub IsQuiet : Arrival → Type 0
IsQuiet a =
    All (λ (c : Registry.Call). is_background c ≡ true) a.before
    × All (λ (c : Registry.Call). is_background c ≡ true) a.during

-- The pages of an API that keeps to the limit.
abbrev pub IsLimited : ℕ → Page → Type 0
IsLimited limit page =
    (length (events_of page.response) ≤ limit) × All IsQuiet (events_of page.response)

abbrev depth : Worker → ℕ
depth w = total_queue_depth w.registry

-- Neither the count that is exported nor what is printed is part of the depth.
set_queue_depth-depth : (w : Worker) → depth (set_queue_depth w) ≡ depth w
unfolding set_queue_depth
set_queue_depth-depth w = total_queue_depth-same (set_queue_depth w).registry w.registry refl

report-depth :
    (w : Worker) (stream_id : String) (routing : Routing) (now : ℕ)
    → depth (report w stream_id routing now) ≡ depth w
unfolding report
report-depth w stream_id (answered enqueued) now = refl
report-depth w stream_id (answered capacity) now = refl
report-depth w stream_id (answered rejected) now = refl
report-depth w stream_id (answered locked) now = refl
report-depth w stream_id (failed message) now = refl
report-depth w stream_id (waiting promise) now = refl

print_if-depth : (b : Bool) (l : Line) (w : Worker) → depth (if b then print l w else w) ≡ depth w
print_if-depth true l w = refl
print_if-depth false l w = refl

module _ (parse_date : String → Option ℕ) where
  route_through-depth :
      (r : SessionRegistry) (event : StreamEvent) (a : Arrival)
      → IsQuiet a
      → total_queue_depth (route_through parse_date r event a).1 ≤ suc (total_queue_depth r)
  unfolding route_through
  route_through-depth r event a q = elim (route-cases parse_date r event a.now) [
    | inr (result, e, h) ↦ rw (e, route_through) h
    | inl (promise, e, h) ↦
        let r₁ = (route parse_date r event a.now).1 in
        let r₂ = Registry.run parse_date r₁ a.during in
        let settled = acquire_settled r₂ event.stream_id in
        rw (e, route_through)
          (omega (
            arith,
            h,
            run-depth parse_date r₁ a.during q.1,
            acquire_settled-depth r₂ event.stream_id,
            route_resumed-depth parse_date settled event a.acquired a.id a.now,
          ))
  ]

  handle-depth :
      (w : Worker) (a : Arrival) → IsQuiet a → depth (handle parse_date w a) ≤ suc (depth w)
  unfolding handle
  handle-depth w a q =
      let r = Registry.run parse_date w.registry a.before in
      let kept = run-depth parse_date w.registry a.before q.0 in
      elim (Option-cases a.event) [
        | inl e ↦ rw (e, handle) (omega (arith, kept))
        | inr (event, e) ↦ elim (Bool-cases (event.stream_id == "")) [
          | inl malformed ↦ rw (e, malformed, handle) (omega (arith, kept))
          | inr named ↦ elim (Bool-cases (allow w.configs event)) [
            | inr refused ↦ rw (e, named, refused, handle) (omega (arith, kept))
            | inl allowed ↦
                let through = route_through parse_date r event a in
                rw (e, named, allowed, handle)
                  (omega (
                    arith,
                    kept,
                    route_through-depth r event a q,
                    report-depth (record w { registry = through.1 }) event.stream_id through.0
                        a.now,
                  ))
          ]
        ]
      ]

  handle_all-depth :
      (events : List Arrival) (w : Worker)
      → All IsQuiet events
      → depth (handle_all parse_date w events) ≤ depth w + length events
  unfolding handle_all
  handle_all-depth [] w q = omega arith
  handle_all-depth (a ∷ more) w q =
      omega (arith, handle-depth w a q.0, handle_all-depth more (handle parse_date w a) q.1)

  poll_pages-depth :
      (pages : List Page) (high batch : ℕ) (w : Worker) (cursor : Option String) (fetched : ℕ)
      → All (IsLimited batch) pages
      → depth w < high
      → depth (poll_pages parse_date high batch w cursor fetched pages).1 < high + batch
  unfolding poll_pages
  poll_pages-depth [] high batch w cursor fetched q h = omega arith
  poll_pages-depth (page ∷ pages) high batch w cursor fetched q h =
      elim (Bool-cases page.shutting_down) [
        | inl stop ↦ rw (stop, poll_pages) (omega arith)
        | inr go ↦
            let events = events_of page.response in
            let asked = record w { requests = w.requests ++ cursor ∷ [] } in
            let handled = handle_all parse_date asked events in
            let after = set_queue_depth handled in
            let next = next_cursor_of batch page.response in
            let here = set_queue_depth-depth handled in
            let most = handle_all-depth events asked q.0.1 in
            let fetched' = fetched + length events in
            let paused = λ (b : Bool). print_if-depth b (paused_pagination fetched') after in
            elim (Option-cases (failure_of page.response)) [
              | inr (message, e) ↦
                  rw (go, e, poll_pages)
                    (omega (arith, set_queue_depth-depth (print (polling_failed message) asked)))
              | inl e ↦ elim (Bool-cases (not (is_some next) || ltb (length events) batch)) [
                | inl last ↦
                    rw (go, e, last, poll_pages)
                      (omega (
                        arith,
                        here,
                        most,
                        q.0.0,
                        paused (leb high (depth after) && ltb 0 fetched'),
                      ))
                | inr more ↦ elim (Bool-cases (leb high (depth after))) [
                  | inl full ↦
                      rw (go, e, more, full, poll_pages)
                        (omega (arith, here, most, q.0.0, paused (ltb 0 fetched')))
                  | inr room ↦
                      rw (go, e, more, room, poll_pages)
                        (poll_pages-depth pages high batch after next fetched' q.1 (ground arith))
                ]
              ]
            ]
      ]

  -- A poll leaves fewer events waiting than the high-watermark and a batch together, whatever the
  -- locks, the sessions and the API do meanwhile, if there were fewer before, no page is longer than a
  -- batch, and nothing but the poll enqueues.
  pub poll_once-depth :
      (high batch : ℕ) (w : Worker) (pages : List Page)
      → All (IsLimited batch) pages
      → depth w < high + batch
      → depth (poll_once parse_date high batch w pages).1 < high + batch
  unfolding poll_once
  poll_once-depth high batch w pages q h = elim (Bool-cases (leb high (depth w))) [
    | inl full ↦ rw (full, poll_once) (omega (arith, set_queue_depth-depth w))
    | inr room ↦ rw (room, poll_once) (poll_pages-depth pages high batch w none 0 q (ground arith))
  ]
