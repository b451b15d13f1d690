-- ===== src/Worker/Errors.antt =====
-- What `logRouteError` keeps and prints.
pub mod Eviction
use xstream_roll.Shared.{
  ℕ, suc, ◌+◌, ◌≤◌, ◌<◌, ◌≡◌, refl, sym, inl, inr, ◌⊎◌, String, true, false, Option, none, some,
  List, [], ◌∷◌, ◌++◌, length, length-append, append-nil, ◌-◌, arith, ltb, leb, Bool-cases, ◌==◌,
  eq_iff, subst, ap, string_key,
}
use xstream_roll.Shared.Dict
use xstream_roll.Shared.Dict.{Dict}
use xstream_roll.Worker.{
  DedupeState, ErrorLine, RouteErrors, max_tracked_error_keys, no_errors, oldest, evict,
  route_error_dedupe_ms, error_key, existing_of, log_route_error,
}
use xstream_roll.Worker.Errors.Eviction.{
  told, untold, told-append, untold-delete, untold-set_new, oldest-found, oldest-some, oldest-none,
  evict-cases,
}

-- A call of `logRouteError`: the stream, the message and the time.
abbrev pub Failure : Type 0
Failure = String × String × ℕ

unfoldable pub run : RouteErrors → List Failure → RouteErrors
run e [] = e
run e (x ∷ xs) = run (log_route_error e x.0 x.1 x.2) xs

-- The errors that are printed or counted.
pub accounted : RouteErrors → ℕ
unfolding told untold
accounted e = length e.lines + told e.lines + untold e.dedupe

-- The map that the new state of the key is put into.
abbrev rest_of : String → Dict String DedupeState → Dict String DedupeState
rest_of key m = Dict.delete key (evict key m)

evict-Distinct :
    (key : String) (m : Dict String DedupeState) → Dict.Distinct m → Dict.Distinct (evict key m)
evict-Distinct key m d = elim (evict-cases key m) [
  | inl (same, why) ↦ subst (λ x. Dict.Distinct x) (sym same) d
  | inr (b, gone, there, missing, full) ↦
      subst (λ x. Dict.Distinct x) (sym gone) (Dict.delete-Distinct b m d)
]

-- At the cap the number of entries stays, below it no entry goes.
size-rest_of :
    (key : String) (m : Dict String DedupeState)
    → Dict.Distinct m
    → Dict.size m ≤ max_tracked_error_keys
    → (suc (Dict.size (rest_of key m)) ≤ max_tracked_error_keys)
      × ((evict key m ≡ m) ⊎ (suc (Dict.size (rest_of key m)) ≡ max_tracked_error_keys))
      × ((Dict.size m ≡ max_tracked_error_keys)
          → suc (Dict.size (rest_of key m)) ≡ max_tracked_error_keys)
size-rest_of key m d h = elim (evict-cases key m) [
  | inl (same, inl there) ↦
      let smaller = Dict.size-delete key m d there in
      rw same (omega (arith, smaller), inl refl, λ q. omega (arith, smaller, q))
  | inl (same, inr room) ↦
      rw same (omega (arith, Dict.size-delete-le key m), inl refl, λ q. absurd (omega (arith, q)))
  | inr (b, gone, there, missing, full) ↦
      let smaller = Dict.size-delete b m d there in
      let absent : Dict.get key (Dict.delete b m) ≡ none =
        ground (arith, missing, Dict.get-delete key b m) in
      rw (gone, Dict.delete-missing key (Dict.delete b m) absent)
        (omega (arith, smaller), inr (omega (arith, smaller)), λ q. omega (arith, smaller))
]

-- The key gets a new state, and at most one line is printed: the error is in one of the two, and so
-- are the repeats that the old state counted.
log_route_error-cases :
    (e : RouteErrors) (stream_id message : String) (now : ℕ)
    → let key = error_key stream_id message in
      (x : DedupeState) × (ls : List ErrorLine) × ((log_route_error e stream_id message now).dedupe
        ≡ Dict.set key x (rest_of key e.dedupe))
      × ((log_route_error e stream_id message now).lines ≡ e.lines ++ ls)
      × (length ls + told ls + x.suppressed_batch
          ≡ suc (existing_of key (evict key e.dedupe)).suppressed_batch)
unfolding log_route_error told
log_route_error-cases e stream_id message now =
    let key = error_key stream_id message in
    let existing = existing_of key (evict key e.dedupe) in
    elim (Bool-cases (leb route_error_dedupe_ms (now - existing.last_logged_at_ms))) [
      | inl due ↦ (
        record { last_logged_at_ms = now; suppressed_batch = 0 },
        record { stream_id = stream_id; message = message; suppressed = existing.suppressed_batch }
            ∷ [],
        rw due refl,
        rw due refl,
        omega arith,
      )
      | inr early ↦ (
        record existing { suppressed_batch = existing.suppressed_batch + 1 },
        [],
        rw early refl,
        rw early (sym (append-nil e.lines)),
        omega arith,
      )
    ]

-- An error is printed or counted once, and what the evicted entry counted is lost.
log_route_error-keeps :
    (e : RouteErrors) (stream_id message : String) (now : ℕ)
    → Dict.Distinct e.dedupe
    → let key = error_key stream_id message in
      let e' = log_route_error e stream_id message now in
      (Dict.size e'.dedupe ≡ suc (Dict.size (rest_of key e.dedupe)))
      × (accounted e' ≡ suc (length e.lines + told e.lines + untold (evict key e.dedupe)))
      × Dict.Distinct e'.dedupe
unfolding accounted
log_route_error-keeps e stream_id message now d =
    let key = error_key stream_id message in
    let kept = evict key e.dedupe in
    let d' = evict-Distinct key e.dedupe d in
    let (x, ls, put, printed, sum) = log_route_error-cases e stream_id message now in
    let missing = Dict.get-delete_self key kept in
    rw (put, printed)
      (
        ground (arith, missing, Dict.size-set key x (Dict.delete key kept)),
        omega (
          arith,
          sum,
          length-append e.lines ls,
          told-append e.lines ls,
          untold-delete key kept d',
          untold-set_new key x (Dict.delete key kept) missing,
        ),
        Dict.set-Distinct key x (Dict.delete key kept) (Dict.delete-Distinct key kept d'),
      )

untold-evict :
    (key : String) (m : Dict String DedupeState) → Dict.Distinct m → untold (evict key m) ≤ untold m
untold-evict key m d = elim (evict-cases key m) [
  | inl (same, why) ↦ rw same (omega arith)
  | inr (b, gone, there, missing, full) ↦ rw gone (omega (arith, untold-delete b m d))
]

-- After `n` errors.
abbrev Accounts : ℕ → RouteErrors → Type 0
Accounts n e =
    Dict.Distinct e.dedupe
    × (Dict.size e.dedupe ≤ max_tracked_error_keys)
    × (accounted e ≤ n)
    × ((accounted e ≡ n) ⊎ (Dict.size e.dedupe ≡ max_tracked_error_keys))

log_route_error-Accounts :
    (n : ℕ) (e : RouteErrors) (x : Failure)
    → Accounts n e
    → Accounts (suc n) (log_route_error e x.0 x.1 x.2)
unfolding accounted
log_route_error-Accounts n e x (d, small, most, exact) =
    let key = error_key x.0 x.1 in
    let (size', accounted', d') = log_route_error-keeps e x.0 x.1 x.2 d in
    let (small', stays, still) = size-rest_of key e.dedupe d small in
    let lost = untold-evict key e.dedupe d in
    (
      d',
      omega (arith, size', small'),
      omega (arith, accounted', lost, most),
      elim exact [
        | inr full ↦ inr (omega (arith, size', still full))
        | inl all ↦ elim stays [
          | inr full ↦ inr (omega (arith, size', full))
          | inl same ↦ inl (omega (arith, accounted', all, ap (λ m. untold m) same))
        ]
      ],
    )

run-Accounts :
    (xs : List Failure) (n : ℕ) (e : RouteErrors)
    → Accounts n e
    → Accounts (n + length xs) (run e xs)
unfolding run
run-Accounts [] n e h = subst (λ k. Accounts k e) (omega arith) h
run-Accounts (x ∷ xs) n e h =
    subst (λ k. Accounts k (run e (x ∷ xs))) (omega arith)
      (run-Accounts xs (suc n) (log_route_error e x.0 x.1 x.2) (log_route_error-Accounts n e x h))

-- However many routing errors there are, at most a hundred keys are tracked, and of the errors no more
-- are printed or counted than there were: each of them, if fewer than a hundred keys are tracked at
-- the end.
pub run-no_errors-accounts :
    (xs : List Failure)
    → (Dict.size (run no_errors xs).dedupe ≤ max_tracked_error_keys)
      × (accounted (run no_errors xs) ≤ length xs)
      × ((accounted (run no_errors xs) ≡ length xs)
          ⊎ (Dict.size (run no_errors xs).dedupe ≡ max_tracked_error_keys))
unfolding no_errors accounted
run-no_errors-accounts xs =
    let start : Accounts 0 no_errors = (tt, omega arith, omega arith, inl (omega arith)) in
    let (d, small, most, exact) =
      subst (λ k. Accounts k (run no_errors xs)) (omega arith)
        (run-Accounts xs 0 no_errors start) in
    (small, most, exact)
