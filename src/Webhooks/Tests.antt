-- ===== src/Webhooks/Tests.antt =====
-- A delivery that fails and is swept, and the theorems about it.
use xstream_roll.Shared.{
  ℕ, ◌+◌, ◌*◌, ◌≡◌, refl, true, false, none, some, List, [], ◌∷◌, arith, All, number_key,
  string_key,
}
use xstream_roll.Shared.Dict
use xstream_roll.Webhooks.Subscriptions
use xstream_roll.Webhooks.Deliveries
use xstream_roll.Webhooks.Deliveries.{WebhookDelivery, pending, failed, is_due, find_due_pending}
use xstream_roll.Webhooks.{
  WebhooksService, Answer, responded, threw, Call, registers, updates, dispatches, create, register,
  update, attempt_begin, attempt_settled, dispatch_to, dispatch_stream_event, retry_delay_ms,
  retry_sweep_batch_size, step, run,
}
use xstream_roll.Webhooks.Schedule.{is_scheduled, run-create-scheduled}
use xstream_roll.Webhooks.Retries.{
  IsAwaiting, fail_on_time, retries_span_a_day, is_orphan, late_failure_reopens,
}

abbrev calls : List Call
calls =
    registers 7 3 "https://x" ("stream:started" ∷ []) "secret" 0
    ∷ dispatches 3 "stream:started" "{}" 1000
    ∷ []

abbrev sent : WebhooksService
sent = run create calls

abbrev first : WebhookDelivery
first = record {
  id = 1;
  webhook_subscription_id = 1;
  event = "stream:started";
  payload = "{}";
  status = pending;
  attempt_count = 0;
  last_status_code = none;
  last_response_body = none;
  last_error = none;
  next_attempt_at = some 1000;
  delivered_at = none;
  created_at = 1000;
}

sent_run : (Dict.get 1 sent.deliveries.by_id ≡ some first) × (sent.requests ≡ (1, 1) ∷ [])
unfolding run step create register dispatch_stream_event dispatch_to attempt_begin
    Subscriptions.create Subscriptions.find_active_by_stream_and_event Subscriptions.includes
    Deliveries.create Dict.get Dict.set
sent_run = (refl, refl)

run-create-scheduled_example : is_scheduled first ≡ true
run-create-scheduled_example = run-create-scheduled calls 1 first sent_run.0

sent-IsAwaiting : IsAwaiting sent 1 0 1000
sent-IsAwaiting = record {
  delivery = first;
  found = sent_run.0;
  counted = refl;
  next = refl;
  waits = refl;
}

retries_span_a_day_example :
    IsAwaiting (fail_on_time 5 sent 1 "down") 1 5 (1000 + 24 * 60 * 60000)
    × ((d : WebhookDelivery) × (Dict.get 1
            (fail_on_time 1 (fail_on_time 5 sent 1 "down") 1 "down").deliveries.by_id
          ≡ some d)
        × (d.status ≡ failed)
        × (d.next_attempt_at ≡ none)
        × (d.attempt_count ≡ 6))
retries_span_a_day_example = retries_span_a_day sent 1 1000 "down" sent-IsAwaiting

-- The subscription is switched off after the event.
abbrev switched_off : WebhooksService
switched_off = run create (
    registers 7 3 "https://x" ("stream:started" ∷ []) "secret" 0
    ∷ dispatches 3 "stream:started" "{}" 1000
    ∷ updates 1 none none (some false)
    ∷ [])

abbrev no_answers : ℕ → Answer × ℕ
no_answers id = (threw "down", 0)

batch_skipped :
    All
      (λ d. is_orphan switched_off d ≡ true)
      (find_due_pending switched_off.deliveries retry_sweep_batch_size 61000)
unfolding run step create register update dispatch_stream_event dispatch_to attempt_begin
    Subscriptions.create Subscriptions.update Subscriptions.find_active_by_stream_and_event
    Subscriptions.includes Deliveries.create Deliveries.find_due_pending Deliveries.is_due Dict.get
    Dict.set
batch_skipped = (refl, tt)

late_failure_reopens_example :
    (d' : WebhookDelivery) × (Dict.get 1
        (attempt_settled
          (attempt_settled sent 1 (responded 200 "ok") 1500)
          1
          (threw "down")
          1600).deliveries.by_id
      ≡ some d')
    × (d'.delivered_at ≡ some 1500)
    × (is_due (1600 + retry_delay_ms 1) d' ≡ true)
late_failure_reopens_example =
    late_failure_reopens sent 1 200 1500 1600 "ok" "down" first sent_run.0 (omega arith) refl
