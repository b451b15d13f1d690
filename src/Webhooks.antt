-- ===== src/Webhooks.antt =====
-- `WebhooksService` of api/src/webhooks/webhooks.service.ts over its in-memory repositories, which
-- hand out the stored objects themselves, so that an attempt that settles reads the count of
-- attempts as it then is. `fetch` is called where a request is logged; what it answers, and when,
-- comes in as an argument. The secret that a subscription gets is an argument too, and the signature
-- and the body of a request, which only the receiver reads, are left out.
pub mod Subscriptions
pub mod Deliveries
pub mod Schedule
pub mod Retries
mod Tests
use Prim.Native.String.{slice}
use xstream_roll.Shared.{
  ℕ, zero, suc, ◌+◌, ◌-◌, ◌*◌, String, Bool, true, false, not, ◌&&◌, ◌||◌, Option, none, some, List,
  [], ◌∷◌, ◌++◌, ltb, leb, ◌==◌, number_key, if◌then◌else◌,
}
use xstream_roll.Shared.Dict
use xstream_roll.Webhooks.Subscriptions
use xstream_roll.Webhooks.Subscriptions.{WebhookSubscription, WebhookSubscriptionsRepository}
use xstream_roll.Webhooks.Deliveries
use xstream_roll.Webhooks.Deliveries.{
  WebhookDelivery, WebhookDeliveriesRepository, RecordAttemptInput, success,
}

abbrev pub max_retries : ℕ
max_retries = 5

-- `RETRY_DELAYS_MS`; there is no sixth.
abbrev pub retry_delay_ms : ℕ → ℕ
retry_delay_ms zero = 60000
retry_delay_ms (suc zero) = 5 * 60000
retry_delay_ms (suc (suc zero)) = 30 * 60000
retry_delay_ms (suc (suc (suc zero))) = 3 * 60 * 60000
retry_delay_ms (suc (suc (suc (suc zero)))) = 20 * 60 * 60000 + 24 * 60000
retry_delay_ms _ = 0

-- The count is one or more.
pub next_attempt_after : ℕ → ℕ → Option ℕ
next_attempt_after attempts now =
    if leb max_retries (attempts - 1) then none else some (now + retry_delay_ms (attempts - 1))

-- What `fetch` and the reading of its body come to.
pub data Answer : Type 0 where
  responded : ℕ → String → Answer
  threw : String → Answer

pub record WebhooksService : Type 0 where
  pub subscriptions : WebhookSubscriptionsRepository
  pub deliveries : WebhookDeliveriesRepository
  -- The requests sent so far, oldest first: subscription and delivery.
  pub requests : List (ℕ × ℕ)

pub create : WebhooksService
create = record {
  subscriptions = record { by_id = []; next_id = 1 };
  deliveries = record { by_id = []; next_id = 1 };
  requests = [];
}

abbrev pub is_success : ℕ → Bool
is_success status = leb 200 status && ltb status 300

-- What is recorded for an answer, with the count of attempts before it.
pub outcome : ℕ → Answer → ℕ → RecordAttemptInput
unfolding next_attempt_after
outcome attempts (responded status body) now = record {
  status_code = some status;
  response_body = some (slice body 0 4000);
  error = none;
  succeeded = is_success status;
  next_attempt_at = if is_success status then none else next_attempt_after (suc attempts) now;
}
outcome attempts (threw message) now = record {
  status_code = none;
  response_body = none;
  error = some message;
  succeeded = false;
  next_attempt_at = next_attempt_after (suc attempts) now;
}

-- `attemptDelivery` up to its await.
pub attempt_begin : WebhooksService → WebhookSubscription → ℕ → WebhooksService
attempt_begin s subscription delivery_id = record s {
  requests = s.requests ++ (subscription.id, delivery_id) ∷ [];
}

-- `attemptDelivery` once `fetch` has answered.
pub attempt_settled : WebhooksService → ℕ → Answer → ℕ → WebhooksService
unfolding outcome
attempt_settled s delivery_id answer now = elim (Dict.get delivery_id s.deliveries.by_id) [
  | none ↦ s
  | some d ↦ record s {
    deliveries =
        (Deliveries.record_attempt s.deliveries delivery_id (outcome d.attempt_count answer now)
          now).1;
  }
]

pub register : WebhooksService → ℕ → ℕ → String → List String → String → ℕ → WebhooksService
register s user_id stream_id url events secret now = record s {
  subscriptions = (Subscriptions.create s.subscriptions user_id stream_id url events secret now).1;
}

-- `none` is the 404.
pub update :
    WebhooksService
    → ℕ
    → Option String
    → Option (List String)
    → Option Bool
    → Option WebhookSubscription × WebhooksService
update s id url events active =
    let (updated, subscriptions) = Subscriptions.update s.subscriptions id url events active in
    (updated, record s { subscriptions = subscriptions })

-- False is the 404.
pub delete : WebhooksService → ℕ → Bool × WebhooksService
delete s id =
    let (deleted, subscriptions) = Subscriptions.delete s.subscriptions id in
    (deleted, record s { subscriptions = subscriptions })

-- `none` is the 404.
pub list_deliveries : WebhooksService → ℕ → ℕ → ℕ → Option (List WebhookDelivery × ℕ)
list_deliveries s webhook_id page limit =
    if Dict.has webhook_id s.subscriptions.by_id
    then some (Deliveries.list_by_subscription_paginated s.deliveries webhook_id page limit)
    else none

pub data Retry : Type 0 where
  not_found conflict : Retry
  requeued : WebhookDelivery → Retry

abbrev is_delivered : WebhookDelivery → Bool
is_delivered d = elim d.status [ success ↦ true | _ ↦ false ]

pub retry_delivery : WebhooksService → ℕ → ℕ → ℕ → Retry × WebhooksService
retry_delivery s webhook_id delivery_id now =
    if not (Dict.has webhook_id s.subscriptions.by_id)
    then (not_found, s)
    else elim (Dict.get delivery_id s.deliveries.by_id) [
      | none ↦ (not_found, s)
      | some d ↦
          if not (d.webhook_subscription_id == webhook_id)
          then (not_found, s)
          else if is_delivered d
          then (conflict, s)
          else let (again, deliveries) = Deliveries.requeue s.deliveries delivery_id now in
            (
              elim again [ none ↦ not_found | some d' ↦ requeued d' ],
              record s { deliveries = deliveries },
            )
    ]

-- The loop of `dispatchStreamEvent`; each attempt runs on to its own await.
dispatch_to : WebhooksService → List WebhookSubscription → String → String → ℕ → WebhooksService
unfolding attempt_begin
dispatch_to s [] event payload now = s
dispatch_to s (subscription ∷ more) event payload now =
    let (delivery, deliveries) = Deliveries.create s.deliveries subscription.id event payload now in
    dispatch_to (attempt_begin (record s { deliveries = deliveries }) subscription delivery.id) more
      event payload now

pub dispatch_stream_event : WebhooksService → ℕ → String → String → ℕ → WebhooksService
unfolding dispatch_to
dispatch_stream_event s stream_id event payload now =
    dispatch_to s (Subscriptions.find_active_by_stream_and_event s.subscriptions stream_id event)
      event payload now

-- One round of the loop of `sweepRetries`, which waits for the attempt, with the answer and its time.
sweep_one : WebhooksService → WebhookDelivery → Answer × ℕ → WebhooksService
unfolding attempt_begin attempt_settled
sweep_one s d (answer, later) = elim (Dict.get d.webhook_subscription_id s.subscriptions.by_id) [
  | none ↦ s
  | some subscription ↦
      if not subscription.active
      then s
      else attempt_settled (attempt_begin s subscription d.id) d.id answer later
]

sweep_over : WebhooksService → List WebhookDelivery → (ℕ → Answer × ℕ) → WebhooksService
unfolding sweep_one
sweep_over s [] answers = s
sweep_over s (d ∷ ds) answers = sweep_over (sweep_one s d (answers d.id)) ds answers

abbrev pub retry_sweep_batch_size : ℕ
retry_sweep_batch_size = 50

pub sweep_retries : WebhooksService → ℕ → (ℕ → Answer × ℕ) → WebhooksService
unfolding sweep_over
sweep_retries s now answers =
    sweep_over s (Deliveries.find_due_pending s.deliveries retry_sweep_batch_size now) answers

-- What can happen to the service, in any order.
pub data Call : Type 0 where
  registers : ℕ → ℕ → String → List String → String → ℕ → Call
  updates : ℕ → Option String → Option (List String) → Option Bool → Call
  deletes : ℕ → Call
  dispatches : ℕ → String → String → ℕ → Call
  settles : ℕ → Answer → ℕ → Call
  retries : ℕ → ℕ → ℕ → Call
  sweeps : ℕ → (ℕ → Answer × ℕ) → Call

pub step : WebhooksService → Call → WebhooksService
step s (registers user stream url events secret now) = register s user stream url events secret now
step s (updates id url events active) = (update s id url events active).1
step s (deletes id) = (delete s id).1
step s (dispatches stream event payload now) = dispatch_stream_event s stream event payload now
step s (settles delivery answer now) = attempt_settled s delivery answer now
step s (retries webhook delivery now) = (retry_delivery s webhook delivery now).1
step s (sweeps now answers) = sweep_retries s now answers

pub run : WebhooksService → List Call → WebhooksService
run s [] = s
run s (c ∷ cs) = run (step s c) cs
