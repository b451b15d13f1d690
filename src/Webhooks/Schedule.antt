-- ===== src/Webhooks/Schedule.antt =====
-- What is stored of a delivery agrees with its status.
use xstream_roll.Shared.{
  ℕ, ◌≡◌, refl, subst, inl, inr, String, Bool, true, not, ◌&&◌, some, List, [], ◌∷◌, arith, leb,
  is_some, Bool-cases, Option-cases, number_key,
}
use xstream_roll.Shared.Dict
use xstream_roll.Shared.Dict.{Dict}
use xstream_roll.Webhooks.Subscriptions.{WebhookSubscription, find_active_by_stream_and_event}
use xstream_roll.Webhooks.Deliveries
use xstream_roll.Webhooks.Deliveries.{
  WebhookDelivery, WebhookDeliveryStatus, pending, success, failed, RecordAttemptInput, attempted,
  is_due, is_pending, find_due_pending,
}
use xstream_roll.Webhooks.{
  WebhooksService, Answer, responded, threw, Call, registers, updates, deletes, dispatches, settles,
  retries, sweeps, create, next_attempt_after, outcome, attempt_begin, attempt_settled, register,
  update, delete, retry_delivery, dispatch_to, dispatch_stream_event, sweep_one, sweep_over,
  sweep_retries, retry_sweep_batch_size, is_delivered, step, run,
}

-- A pending delivery has a time for its next attempt, one that has succeeded has a time of delivery
-- and no next attempt, and one that has failed has no next attempt and six or more behind it.
abbrev pub is_scheduled : WebhookDelivery → Bool
is_scheduled d = elim d.status [
  | pending ↦ is_some d.next_attempt_at
  | success ↦ not (is_some d.next_attempt_at) && is_some d.delivered_at
  | failed ↦ not (is_some d.next_attempt_at) && leb 6 d.attempt_count
]

abbrev IsScheduled : WebhooksService → Type 0
IsScheduled s =
    (id : ℕ) (d : WebhookDelivery) → Dict.get id s.deliveries.by_id ≡ some d → is_scheduled d ≡ true

-- Storing a delivery that is scheduled.
set-IsScheduled :
    (k : ℕ) (d : WebhookDelivery) (m : Dict ℕ WebhookDelivery)
    → ((id : ℕ) (e : WebhookDelivery) → Dict.get id m ≡ some e → is_scheduled e ≡ true)
    → is_scheduled d ≡ true
    → (id : ℕ) (e : WebhookDelivery) → Dict.get id (Dict.set k d m) ≡ some e
    → is_scheduled e ≡ true
set-IsScheduled k d m v good id e h = elim (Bool-cases (number_key.same_key k id)) [
  | inl hit ↦
      let same : d ≡ e = ground (arith, Dict.get-set id k d m) in
      subst (λ x. is_scheduled x ≡ true) same good
  | inr miss ↦ v id e (ground (arith, Dict.get-set id k d m))
]

attempted-is_scheduled :
    (d : WebhookDelivery) (answer : Answer) (now : ℕ)
    → is_scheduled (attempted d (outcome d.attempt_count answer now) now) ≡ true
unfolding attempted outcome next_attempt_after
attempted-is_scheduled d (responded status body) now = ground arith
attempted-is_scheduled d (threw message) now = ground arith

attempt_settled-IsScheduled :
    (s : WebhooksService) (id : ℕ) (answer : Answer) (now : ℕ)
    → IsScheduled s
    → IsScheduled (attempt_settled s id answer now)
unfolding attempt_settled Deliveries.record_attempt
attempt_settled-IsScheduled s id answer now v =
    elim (Option-cases (Dict.get id s.deliveries.by_id)) [
      | inl e ↦ rw (e, attempt_settled) v
      | inr (d, e) ↦
          rw (e, attempt_settled)
            (rw (e, Deliveries.record_attempt)
              (set-IsScheduled id _ _ v (attempted-is_scheduled d answer now)))
    ]

dispatch_to-IsScheduled :
    (subs : List WebhookSubscription) (s : WebhooksService) (event payload : String) (now : ℕ)
    → IsScheduled s
    → IsScheduled (dispatch_to s subs event payload now)
unfolding dispatch_to attempt_begin Deliveries.create
dispatch_to-IsScheduled [] s event payload now v = v
dispatch_to-IsScheduled (x ∷ xs) s event payload now v =
    dispatch_to-IsScheduled xs _ event payload now (set-IsScheduled s.deliveries.next_id _ _ v refl)

sweep_one-IsScheduled :
    (s : WebhooksService) (d : WebhookDelivery) (a : Answer × ℕ)
    → IsScheduled s
    → IsScheduled (sweep_one s d a)
unfolding sweep_one attempt_begin
sweep_one-IsScheduled s d (answer, later) v =
    elim (Option-cases (Dict.get d.webhook_subscription_id s.subscriptions.by_id)) [
      | inl e ↦ rw (e, sweep_one) v
      | inr (x, e) ↦ elim (Bool-cases x.active) [
        | inl on ↦
            rw (e, sweep_one)
              (rw on (attempt_settled-IsScheduled (attempt_begin s x d.id) d.id answer later v))
        | inr off ↦ rw (e, sweep_one) (rw off v)
      ]
    ]

sweep_over-IsScheduled :
    (ds : List WebhookDelivery) (s : WebhooksService) (answers : ℕ → Answer × ℕ)
    → IsScheduled s
    → IsScheduled (sweep_over s ds answers)
unfolding sweep_over
sweep_over-IsScheduled [] s answers v = v
sweep_over-IsScheduled (d ∷ ds) s answers v =
    sweep_over-IsScheduled ds _ answers (sweep_one-IsScheduled s d (answers d.id) v)

retry_delivery-IsScheduled :
    (s : WebhooksService) (webhook id now : ℕ)
    → IsScheduled s
    → IsScheduled (retry_delivery s webhook id now).1
unfolding retry_delivery Deliveries.requeue
retry_delivery-IsScheduled s webhook id now v =
    elim (Bool-cases (not (Dict.has webhook s.subscriptions.by_id))) [
      | inl missing ↦ rw (missing, retry_delivery) v
      | inr known ↦ elim (Option-cases (Dict.get id s.deliveries.by_id)) [
        | inl e ↦ rw (known, retry_delivery) (rw e v)
        | inr (d, e) ↦
            elim (Bool-cases (not (number_key.same_key d.webhook_subscription_id webhook))) [
              | inl other ↦ rw (known, retry_delivery) (rw e (rw other v))
              | inr own ↦ elim (Bool-cases (is_delivered d)) [
                | inl done ↦ rw (known, retry_delivery) (rw e (rw own (rw done v)))
                | inr open_ ↦
                    rw (known, retry_delivery)
                      (rw e (
                        rw own
                          (rw open_ (rw (e, Deliveries.requeue) (set-IsScheduled id _ _ v refl)))))
              ]
            ]
      ]
    ]

step-IsScheduled : (s : WebhooksService) (c : Call) → IsScheduled s → IsScheduled (step s c)
unfolding step register update delete dispatch_stream_event sweep_retries
step-IsScheduled s (registers user stream url events secret now) v = v
step-IsScheduled s (updates id url events active) v = v
step-IsScheduled s (deletes id) v = v
step-IsScheduled s (dispatches stream event payload now) v =
    dispatch_to-IsScheduled (find_active_by_stream_and_event s.subscriptions stream event) s event
      payload now v
step-IsScheduled s (settles id answer now) v = attempt_settled-IsScheduled s id answer now v
step-IsScheduled s (retries webhook id now) v = retry_delivery-IsScheduled s webhook id now v
step-IsScheduled s (sweeps now answers) v =
    sweep_over-IsScheduled (find_due_pending s.deliveries retry_sweep_batch_size now) s answers v

run-IsScheduled : (s : WebhooksService) (cs : List Call) → IsScheduled s → IsScheduled (run s cs)
unfolding run
run-IsScheduled s [] v = v
run-IsScheduled s (c ∷ cs) v = run-IsScheduled (step s c) cs (step-IsScheduled s c v)

-- In any history of a new service, with attempts that settle in any order and overlap: a delivery
-- that is stored as pending has a time for its next attempt, one that has succeeded has a time of
-- delivery and no next attempt, and one that has failed has had six attempts or more and has no next
-- one.
pub run-create-scheduled :
    (cs : List Call) (id : ℕ) (d : WebhookDelivery)
    → Dict.get id (run create cs).deliveries.by_id ≡ some d
    → is_scheduled d ≡ true
unfolding create Dict.get
run-create-scheduled cs id d h = run-IsScheduled create cs (λ i e none_is. cc) id d h
