-- ===== src/Webhooks/Subscriptions.antt =====
-- The in-memory repository of api/src/webhooks/repository/webhook-subscriptions.repository.ts.
use xstream_roll.Shared.{
  ℕ, suc, ◌-◌, ◌*◌, String, Bool, true, false, ◌&&◌, Option, none, some, List, [], ◌∷◌, leb, filter,
  take, drop, length, sort_by, ◌==◌, number_key, string_key, if◌then◌else◌,
}
use xstream_roll.Shared.Dict
use xstream_roll.Shared.Dict.{Dict}

pub record WebhookSubscription : Type 0 where
  pub id : ℕ
  pub user_id : ℕ
  pub stream_id : ℕ
  pub url : String
  pub events : List String
  pub secret : String
  pub active : Bool
  pub created_at : ℕ

pub record WebhookSubscriptionsRepository : Type 0 where
  pub by_id : Dict ℕ WebhookSubscription
  pub next_id : ℕ

abbrev pub Subscriptions : Type 0
Subscriptions = WebhookSubscriptionsRepository

unfoldable pub create :
    Subscriptions → ℕ → ℕ → String → List String → String → ℕ → WebhookSubscription × Subscriptions
create repo user_id stream_id url events secret now =
    let subscription : WebhookSubscription = record {
      id = repo.next_id;
      user_id = user_id;
      stream_id = stream_id;
      url = url;
      events = events;
      secret = secret;
      active = true;
      created_at = now;
    } in
    (
      subscription,
      record { by_id = Dict.set repo.next_id subscription repo.by_id; next_id = suc repo.next_id },
    )

unfoldable pub includes : List String → String → Bool
includes [] event = false
includes (e ∷ es) event = if e == event then true else includes es event

unfoldable pub find_active_by_stream_and_event :
    Subscriptions → ℕ → String → List WebhookSubscription
unfolding includes
find_active_by_stream_and_event repo stream_id event =
    filter (λ s. s.stream_id == stream_id && s.active && includes s.events event)
      (Dict.values repo.by_id)

-- The page and the total.
unfoldable pub list_by_user : Subscriptions → ℕ → ℕ → ℕ → Option ℕ → List WebhookSubscription × ℕ
list_by_user repo user_id page limit stream_id =
    let own = filter (λ s. s.user_id == user_id) (Dict.values repo.by_id) in
    let narrowed : List WebhookSubscription = elim stream_id [
      | none ↦ own
      | some x ↦ filter (λ s. s.stream_id == x) own
    ] in
    let matching = sort_by (λ a b. leb b.created_at a.created_at) narrowed in
    (take limit (drop ((page - 1) * limit) matching), length matching)

-- Each change is absent or a value.
unfoldable pub update :
    Subscriptions
    → ℕ
    → Option String
    → Option (List String)
    → Option Bool
    → Option WebhookSubscription × Subscriptions
update repo id url events active = elim (Dict.get id repo.by_id) [
  | none ↦ (none, repo)
  | some s ↦
      let s' : WebhookSubscription = record s {
        url = elim url [ none ↦ s.url | some u ↦ u ];
        events = elim events [ none ↦ s.events | some e ↦ e ];
        active = elim active [ none ↦ s.active | some a ↦ a ];
      } in
      (some s', record repo { by_id = Dict.set id s' repo.by_id })
]

unfoldable pub delete : Subscriptions → ℕ → Bool × Subscriptions
delete repo id = (Dict.has id repo.by_id, record repo { by_id = Dict.delete id repo.by_id })
