-- ===== src/Notifications/Tests.antt =====
-- Two users' notifications, one of them past its time, and the theorems about them.
use xstream_roll.Shared.{ℕ, ◌+◌, ◌≡◌, refl, some, arith, number_key}
use xstream_roll.Shared.Dict
use xstream_roll.Notifications.{
  NotificationsRepository, empty, create, sweep_loop, delete_expired_batch, sweep_expired,
}
use xstream_roll.Notifications.Sweep.{alive, sweep_expired-alive}

abbrev one : NotificationsRepository
one = (create empty 7 "alert" "{}" 10).1

abbrev two : NotificationsRepository
two = (create one 8 "alert" "{}" 900).1

-- After the first is past its time, before the second is.
abbrev then_ : ℕ
then_ = 2592000500

swept_first : sweep_loop 3 (λ i. then_) 0 0 two.by_id ≡ some (1, alive then_ two.by_id)
unfolding sweep_loop delete_expired_batch create empty Dict.set
swept_first = refl

sweep_expired-alive_example :
    (last deleted : ℕ) × (sweep_expired two (λ i. then_)
      ≡ some (deleted, record two { by_id = alive then_ two.by_id }))
    × (deleted + Dict.size (alive then_ two.by_id) ≡ Dict.size two.by_id)
sweep_expired-alive_example = sweep_expired-alive two (λ i. then_) (λ i. omega arith)
