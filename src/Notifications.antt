-- ===== src/Notifications.antt =====
-- `NotificationsService` of api/src/notifications/notifications.service.ts over the in-memory
-- `NotificationsRepository` of repository/notifications.repository.ts beside it. A payload is its JSON
-- form. `byId` has each notification under its own id. What goes to the gateway is in `pushed`,
-- oldest first.
pub mod Unread
pub mod Sweep
mod Tests
use xstream_roll.Shared.{
  ℕ, zero, suc, ◌+◌, ◌-◌, ◌*◌, String, Bool, true, false, not, ◌&&◌, Option, none, some, List, [],
  ◌∷◌, ◌++◌, length, take, drop, filter, sort_by, is_some, ltb, leb, if◌then◌else◌, ◌==◌,
  number_key,
}
use xstream_roll.Shared.Dict
use xstream_roll.Shared.Dict.{Dict}

pub record Notification : Type 0 where
  pub id : ℕ
  pub user_id : ℕ
  pub type : String
  pub payload : String
  pub read_at : Option ℕ
  pub created_at : ℕ
  pub expires_at : ℕ

pub record NotificationsRepository : Type 0 where
  pub by_id : Dict ℕ Notification
  pub next_id : ℕ

pub record NotificationsService : Type 0 where
  pub notifications : NotificationsRepository
  pub has_gateway : Bool
  pub pushed : List Notification

-- Thirty days.
abbrev pub notification_retention_ms : ℕ
notification_retention_ms = 2592000000

abbrev pub expiry_sweep_batch_size : ℕ
expiry_sweep_batch_size = 500

unfoldable pub empty : NotificationsRepository
empty = record { by_id = []; next_id = 1 }

-- `NotificationsRepository.create`.
unfoldable pub create :
    NotificationsRepository → ℕ → String → String → ℕ → Notification × NotificationsRepository
create r user_id type payload now =
    let n : Notification = record {
      id = r.next_id;
      user_id = user_id;
      type = type;
      payload = payload;
      read_at = none;
      created_at = now;
      expires_at = now + notification_retention_ms;
    } in
    (n, record { by_id = Dict.set r.next_id n r.by_id; next_id = suc r.next_id })

-- `NotificationsService.create`.
pub notify : NotificationsService → ℕ → String → String → ℕ → Notification × NotificationsService
notify s user_id type payload now =
    let (n, r) = create s.notifications user_id type payload now in
    (
      n,
      record s {
        notifications = r;
        pushed = if s.has_gateway then s.pushed ++ n ∷ [] else s.pushed;
      },
    )

abbrev pub is_unread : ℕ → Notification → Bool
is_unread user_id n = n.user_id == user_id && not (is_some n.read_at)

-- Newest first.
abbrev pub newest : Notification → Notification → Bool
newest a b = leb b.created_at a.created_at

abbrev pub unread : NotificationsRepository → ℕ → List Notification
unread r user_id = sort_by newest (filter (is_unread user_id) (Dict.values r.by_id))

-- `PagedNotifications`, of which `total` is also the `unreadCount`.
pub record PagedNotifications : Type 0 where
  pub items : List Notification
  pub page : ℕ
  pub limit : ℕ
  pub total : ℕ

-- `listUnread` with `listUnreadPaginated`.
pub list_unread : NotificationsRepository → ℕ → ℕ → ℕ → PagedNotifications
list_unread r user_id page limit = record {
  items = take limit (drop ((page - 1) * limit) (unread r user_id));
  page = page;
  limit = limit;
  total = length (unread r user_id);
}

-- `markRead`; `none` stands for the `NotFoundException`.
pub mark_read : NotificationsRepository → ℕ → ℕ → ℕ → Option Notification × NotificationsRepository
mark_read r user_id id now = elim (Dict.get id r.by_id) [
  | none ↦ (none, r)
  | some n ↦
      if not (n.user_id == user_id)
      then (none, r)
      else let n' : Notification =
          if is_some n.read_at then n else record n { read_at = some now } in
        (some n', record r { by_id = Dict.set id n' r.by_id })
]

read_all : Dict ℕ Notification → ℕ → ℕ → ℕ × Dict ℕ Notification
read_all [] user_id now = (0, [])
read_all ((id, n) ∷ m) user_id now =
    let (count, m') = read_all m user_id now in
    if is_unread user_id n
    then (suc count, (id, record n { read_at = some now }) ∷ m')
    else (count, (id, n) ∷ m')

-- `markAllRead`, with the number of those that it marks.
pub mark_all_read : NotificationsRepository → ℕ → ℕ → ℕ × NotificationsRepository
unfolding read_all
mark_all_read r user_id now =
    let (count, m) = read_all r.by_id user_id now in (count, record r { by_id = m })

-- `delete`, false where it throws a `NotFoundException`.
pub delete_by_id : NotificationsRepository → ℕ → ℕ → Bool × NotificationsRepository
delete_by_id r user_id id = elim (Dict.get id r.by_id) [
  | none ↦ (false, r)
  | some n ↦
      if not (n.user_id == user_id)
      then (false, r)
      else (true, record r { by_id = Dict.delete id r.by_id })
]

-- `deleteExpiredBatch`: the loop over the entries, with the number that may still be deleted.
pub delete_expired_batch : ℕ → ℕ → Dict ℕ Notification → ℕ × Dict ℕ Notification
delete_expired_batch limit now [] = (0, [])
delete_expired_batch zero now (b ∷ m) = (0, b ∷ m)
delete_expired_batch (suc limit) now ((id, n) ∷ m) =
    let deleting = delete_expired_batch limit now m in
    let keeping = delete_expired_batch (suc limit) now m in
    if ltb n.expires_at now then (suc deleting.0, deleting.1) else (keeping.0, (id, n) ∷ keeping.1)

-- The loop of `sweepExpired` on fuel, with the number of rounds so far, of which each looks at the
-- clock, and of those deleted so far.
pub sweep_loop : ℕ → (ℕ → ℕ) → ℕ → ℕ → Dict ℕ Notification → Option (ℕ × Dict ℕ Notification)
unfolding delete_expired_batch
sweep_loop zero clock round total_deleted m = none
sweep_loop (suc fuel) clock round total_deleted m =
    let (deleted, m') = delete_expired_batch expiry_sweep_batch_size (clock round) m in
    let rest = sweep_loop fuel clock (suc round) (total_deleted + deleted) m' in
    if deleted == expiry_sweep_batch_size then rest else some (total_deleted + deleted, m')

-- `sweepExpired`, with the number that it logs. Each round but the last deletes some.
pub sweep_expired : NotificationsRepository → (ℕ → ℕ) → Option (ℕ × NotificationsRepository)
unfolding sweep_loop
sweep_expired r clock = elim (sweep_loop (suc (Dict.size r.by_id)) clock 0 0 r.by_id) [
  | none ↦ none
  | some swept ↦ some (swept.0, record r { by_id = swept.1 })
]
