-- ===== src/Webhooks/Retries.antt =====
-- Failing attempts, sweeps and overlapping attempts.
use xstream_roll.Shared.{
  ℕ, zero, suc, ◌+◌, ◌*◌, ◌<◌, ◌≤◌, ◌≡◌, refl, ap, ◌∙◌, String, Bool, true, not, none, some, List,
  [], ◌∷◌, arith, leb, length, length-take, All, take-All, sort_by-All, filter-All, filter, sort_by,
  number_key,
}
use xstream_roll.Shared.Dict
use xstream_roll.Shared.Dict.{Dict}
use xstream_roll.Webhooks.Deliveries
use xstream_roll.Webhooks.Deliveries.{
  WebhookDelivery, WebhookDeliveryStatus, pending, success, failed, RecordAttemptInput, attempted,
  is_due, is_pending, find_due_pending,
}
use xstream_roll.Webhooks.{
  WebhooksService, Answer, responded, threw, is_success, next_attempt_after, outcome,
  attempt_settled, sweep_one, sweep_over, sweep_retries, retry_delay_ms, retry_sweep_batch_size,
}

-- A failed attempt at the time that the delivery was scheduled for, and so on, `n` times.
pub fail_on_time : ℕ → WebhooksService → ℕ → String → WebhooksService
fail_on_time zero s id message = s
fail_on_time (suc n) s id message = elim (Dict.get id s.deliveries.by_id) [
  | none ↦ s
  | some d ↦ elim d.next_attempt_at [
    | none ↦ s
    | some at ↦ fail_on_time n (attempt_settled s id (threw message) at) id message
  ]
]

attempt_settled-get :
    (s : WebhooksService) (id : ℕ) (answer : Answer) (now : ℕ) (d : WebhookDelivery)
    → Dict.get id s.deliveries.by_id ≡ some d
    → Dict.get id (attempt_settled s id answer now).deliveries.by_id
      ≡ some (attempted d (outcome d.attempt_count answer now) now)
unfolding attempt_settled Deliveries.record_attempt
attempt_settled-get s id answer now d e =
    rw (e, attempt_settled)
      (rw (e, Deliveries.record_attempt) (Dict.get-set_self id _ s.deliveries.by_id))

fail_on_time-next :
    (n : ℕ) (s : WebhooksService) (id : ℕ) (message : String) (d : WebhookDelivery) (at : ℕ)
    → Dict.get id s.deliveries.by_id ≡ some d
    → d.next_attempt_at ≡ some at
    → fail_on_time (suc n) s id message
      ≡ fail_on_time n (attempt_settled s id (threw message) at) id message
unfolding fail_on_time
fail_on_time-next n s id message d at e f = rw (e, fail_on_time) (rw f refl)

-- The delivery is pending, with `attempts` attempts behind it and the next one at `at`.
pub record IsAwaiting (s : WebhooksService) (id attempts at : ℕ) : Type 0 where
  pub delivery : WebhookDelivery
  pub found : Dict.get id s.deliveries.by_id ≡ some delivery
  pub counted : delivery.attempt_count ≡ attempts
  pub next : delivery.next_attempt_at ≡ some at
  pub waits : delivery.status ≡ pending

cast-IsAwaiting :
    (s : WebhooksService) (id a a' t t' : ℕ)
    → a ≡ a'
    → t ≡ t'
    → IsAwaiting s id a t
    → IsAwaiting s id a' t'
cast-IsAwaiting s id a a' t t' e f v = record {
  delivery = v.delivery;
  found = v.found;
  counted = v.counted ∙ e;
  next = v.next ∙ ap some f;
  waits = v.waits;
}

-- The sum of `n` delays from the one after `attempts` failures on.
abbrev pub delays : ℕ → ℕ → ℕ
delays attempts zero = 0
delays attempts (suc n) = retry_delay_ms attempts + delays (suc attempts) n

attempt_settled-IsAwaiting :
    (s : WebhooksService) (id attempts at : ℕ) (message : String)
    → IsAwaiting s id attempts at
    → attempts < 5
    → IsAwaiting
        (attempt_settled s id (threw message) at)
        id
        (suc attempts)
        (at + retry_delay_ms attempts)
unfolding attempted outcome next_attempt_after
attempt_settled-IsAwaiting s id attempts at message v few = record {
  delivery = _;
  found = attempt_settled-get s id (threw message) at v.delivery v.found;
  counted = ap (λ n. suc n) v.counted;
  next = rw v.counted (ground arith);
  waits = rw v.counted (ground arith);
}

fail_on_time-IsAwaiting :
    (n : ℕ) (s : WebhooksService) (id attempts at : ℕ) (message : String)
    → IsAwaiting s id attempts at
    → attempts + n ≤ 5
    → IsAwaiting (fail_on_time n s id message) id (attempts + n) (at + delays attempts n)
unfolding fail_on_time
fail_on_time-IsAwaiting zero s id attempts at message v few =
    cast-IsAwaiting s id attempts (attempts + 0) at (at + 0) (omega arith) (omega arith) v
fail_on_time-IsAwaiting (suc n) s id attempts at message v few =
    let more =
      fail_on_time-IsAwaiting n (attempt_settled s id (threw message) at) id (suc attempts)
        (at + retry_delay_ms attempts) message
        (attempt_settled-IsAwaiting s id attempts at message v (omega arith)) (omega arith) in
    rw (fail_on_time-next n s id message v.delivery at v.found v.next) (
      cast-IsAwaiting _ id (suc attempts + n) (attempts + suc n) _ _ (omega arith) (omega arith)
        more)

-- A delivery that has not been attempted, and whose attempts all fail, each at the time that it was
-- scheduled for: after the fifth failure it is pending until exactly twenty-four hours after the
-- first attempt, and after the sixth it has failed and has no next attempt.
pub retries_span_a_day :
    (s : WebhooksService) (id t : ℕ) (message : String)
    → IsAwaiting s id 0 t
    → let s₅ = fail_on_time 5 s id message in
      IsAwaiting s₅ id 5 (t + 24 * 60 * 60000)
      × ((d : WebhookDelivery) × (Dict.get id (fail_on_time 1 s₅ id message).deliveries.by_id
            ≡ some d)
          × (d.status ≡ failed)
          × (d.next_attempt_at ≡ none)
          × (d.attempt_count ≡ 6))
unfolding fail_on_time attempted outcome next_attempt_after
retries_span_a_day s id t message v =
    let fifth = fail_on_time-IsAwaiting 5 s id 0 t message v (omega arith) in
    let sixth =
      attempt_settled-get (fail_on_time 5 s id message) id (threw message) (t + delays 0 5)
        fifth.delivery fifth.found in
    let at = t + delays 0 5 in
    let last : WebhookDelivery =
      attempted fifth.delivery (outcome fifth.delivery.attempt_count (threw message) at) at in
    (
      cast-IsAwaiting _ id (0 + 5) 5 (t + delays 0 5) (t + 24 * 60 * 60000) (omega arith)
          (omega arith) fifth,
      (
        last,
        rw
            (fail_on_time-next 0 (fail_on_time 5 s id message) id message fifth.delivery at
              fifth.found fifth.next)
            sixth,
        rw fifth.counted refl,
        rw fifth.counted refl,
        rw fifth.counted refl,
      ),
    )

-- Every delivery that a sweep looks at is pending and due, and it looks at no more than its limit.
pub find_due_pending-IsDue :
    (s : WebhooksService) (limit now : ℕ)
    → All (λ d. is_due now d ≡ true) (find_due_pending s.deliveries limit now)
      × (length (find_due_pending s.deliveries limit now) ≤ limit)
unfolding find_due_pending
find_due_pending-IsDue s limit now =
    let due : WebhookDelivery → Type 0 = λ d. is_due now d ≡ true in
    let kept = filter-All due (is_due now) (λ d h. h) (Dict.values s.deliveries.by_id) in
    (
      take-All due limit _ (sort_by-All due _ _ kept),
      omega (
        arith,
        length-take limit (
            sort_by (λ (a b : WebhookDelivery). leb a.created_at b.created_at)
              (filter (is_due now) (Dict.values s.deliveries.by_id))),
      ),
    )

-- The subscription of the delivery is gone or not active.
abbrev pub is_orphan : WebhooksService → WebhookDelivery → Bool
is_orphan s d = elim (Dict.get d.webhook_subscription_id s.subscriptions.by_id) [
  | none ↦ true
  | some subscription ↦ not subscription.active
]

sweep_over-orphans :
    (s : WebhooksService) (ds : List WebhookDelivery) (answers : ℕ → Answer × ℕ)
    → All (λ d. is_orphan s d ≡ true) ds
    → sweep_over s ds answers ≡ s
unfolding sweep_over sweep_one
sweep_over-orphans s [] answers h = refl
sweep_over-orphans s (d ∷ ds) answers h =
    let skipped : sweep_one s d (answers d.id) ≡ s = ground (arith, h.0) in
    rw skipped (sweep_over-orphans s ds answers h.1)

-- When the due deliveries that a sweep takes up, the fifty oldest, are all of subscriptions that are
-- deleted or switched off, the sweep sends nothing and leaves the service as it is, however many
-- other deliveries are due.
pub sweep_starves :
    (s : WebhooksService) (now : ℕ) (answers : ℕ → Answer × ℕ)
    → All (λ d. is_orphan s d ≡ true) (find_due_pending s.deliveries retry_sweep_batch_size now)
    → sweep_retries s now answers ≡ s
unfolding sweep_retries
sweep_starves s now answers h =
    sweep_over-orphans s (find_due_pending s.deliveries retry_sweep_batch_size now) answers h

-- Two attempts at one delivery overlap: the receiver accepts the first, and the second fails. If the
-- delivery had been attempted at most three times before, the failure makes the delivery pending
-- again, due after the delay, although it has its time of delivery.
pub late_failure_reopens :
    (s : WebhooksService) (id status now later : ℕ) (body message : String) (d : WebhookDelivery)
    → Dict.get id s.deliveries.by_id ≡ some d
    → d.attempt_count < 4
    → is_success status ≡ true
    → let s' =
        attempt_settled
          (attempt_settled s id (responded status body) now)
          id
          (threw message)
          later in
      (d' : WebhookDelivery) × (Dict.get id s'.deliveries.by_id ≡ some d')
      × (d'.delivered_at ≡ some now)
      × (is_due (later + retry_delay_ms (suc d.attempt_count)) d' ≡ true)
unfolding attempted outcome next_attempt_after is_due is_pending
late_failure_reopens s id status now later body message d e few ok =
    let first = attempt_settled-get s id (responded status body) now d e in
    let second = attempt_settled-get _ id (threw message) later _ first in
    (_, second, rw ok (ground arith), ground arith)
