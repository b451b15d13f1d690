-- ===== src/Webhooks/Deliveries.antt =====
-- The in-memory repository of api/src/webhooks/repository/webhook-deliveries.repository.ts. The
-- payload is kept as the text of its JSON form.
use xstream_roll.Shared.{
  ℕ, suc, ◌-◌, ◌*◌, String, Bool, true, false, ◌&&◌, Option, none, some, List, leb, filter, take,
  drop, length, sort_by, ◌==◌, number_key, if◌then◌else◌, is_some,
}
use xstream_roll.Shared.Dict
use xstream_roll.Shared.Dict.{Dict}

pub data WebhookDeliveryStatus : Type 0 where
  pending success failed : WebhookDeliveryStatus

pub record WebhookDelivery : Type 0 where
  pub id : ℕ
  pub webhook_subscription_id : ℕ
  pub event : String
  pub payload : String
  pub status : WebhookDeliveryStatus
  pub attempt_count : ℕ
  pub last_status_code : Option ℕ
  pub last_response_body : Option String
  pub last_error : Option String
  pub next_attempt_at : Option ℕ
  pub delivered_at : Option ℕ
  pub created_at : ℕ

pub record RecordAttemptInput : Type 0 where
  pub status_code : Option ℕ
  pub response_body : Option String
  pub error : Option String
  pub succeeded : Bool
  pub next_attempt_at : Option ℕ

pub record WebhookDeliveriesRepository : Type 0 where
  pub by_id : Dict ℕ WebhookDelivery
  pub next_id : ℕ

abbrev pub Deliveries : Type 0
Deliveries = WebhookDeliveriesRepository

unfoldable pub create : Deliveries → ℕ → String → String → ℕ → WebhookDelivery × Deliveries
create repo webhook_subscription_id event payload now =
    let delivery : WebhookDelivery = record {
      id = repo.next_id;
      webhook_subscription_id = webhook_subscription_id;
      event = event;
      payload = payload;
      status = pending;
      attempt_count = 0;
      last_status_code = none;
      last_response_body = none;
      last_error = none;
      next_attempt_at = some now;
      delivered_at = none;
      created_at = now;
    } in
    (
      delivery,
      record { by_id = Dict.set repo.next_id delivery repo.by_id; next_id = suc repo.next_id },
    )

unfoldable pub list_by_subscription_paginated : Deliveries → ℕ → ℕ → ℕ → List WebhookDelivery × ℕ
list_by_subscription_paginated repo webhook_subscription_id page limit =
    let matching =
      sort_by (λ a b. leb b.created_at a.created_at)
        (filter (λ d. d.webhook_subscription_id == webhook_subscription_id)
          (Dict.values repo.by_id)) in
    (take limit (drop ((page - 1) * limit) matching), length matching)

unfoldable pub is_pending : WebhookDelivery → Bool
is_pending d = elim d.status [ pending ↦ true | _ ↦ false ]

unfoldable pub is_due : ℕ → WebhookDelivery → Bool
unfolding is_pending
is_due now d = is_pending d && elim d.next_attempt_at [ none ↦ false | some at ↦ leb at now ]

unfoldable pub find_due_pending : Deliveries → ℕ → ℕ → List WebhookDelivery
unfolding is_due
find_due_pending repo limit now =
    take limit (
      sort_by (λ a b. leb a.created_at b.created_at) (filter (is_due now) (Dict.values repo.by_id)))

-- What an attempt makes of the delivery. `deliveredAt` stays what it was on a failure.
unfoldable pub attempted : WebhookDelivery → RecordAttemptInput → ℕ → WebhookDelivery
attempted d result now = record d {
  attempt_count = suc d.attempt_count;
  last_status_code = result.status_code;
  last_response_body = result.response_body;
  last_error = result.error;
  next_attempt_at = result.next_attempt_at;
  status =
      if result.succeeded
      then success
      else if is_some result.next_attempt_at
      then pending
      else failed;
  delivered_at = if result.succeeded then some now else d.delivered_at;
}

unfoldable pub record_attempt :
    Deliveries → ℕ → RecordAttemptInput → ℕ → Option WebhookDelivery × Deliveries
unfolding attempted
record_attempt repo id result now = elim (Dict.get id repo.by_id) [
  | none ↦ (none, repo)
  | some d ↦ (
    some (attempted d result now),
    record repo { by_id = Dict.set id (attempted d result now) repo.by_id },
  )
]

unfoldable pub requeue : Deliveries → ℕ → ℕ → Option WebhookDelivery × Deliveries
requeue repo id now = elim (Dict.get id repo.by_id) [
  | none ↦ (none, repo)
  | some d ↦
      let d' = record d { status = pending; next_attempt_at = some now } in
      (some d', record repo { by_id = Dict.set id d' repo.by_id })
]
