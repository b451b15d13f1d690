-- ===== src/Notifications/Unread.antt =====
-- The unread notifications of a user, and marking all of them.
use xstream_roll.Shared.{
  ℕ, ◌≡◌, ◌≢◌, refl, List, [], ◌∷◌, length, filter, length-sort_by, arith, same_number_iff,
  number_key,
}
use xstream_roll.Shared.Dict
use xstream_roll.Shared.Dict.{Dict}
use xstream_roll.Notifications.{
  Notification, NotificationsRepository, is_unread, newest, list_unread, mark_all_read, read_all,
}

abbrev unread_of : ℕ → Dict ℕ Notification → List Notification
unread_of user_id m = filter (is_unread user_id) (Dict.values m)

read_all-none :
    (m : Dict ℕ Notification) (user_id now : ℕ) → unread_of user_id (read_all m user_id now).1 ≡ []
unfolding read_all
read_all-none [] user_id now = refl
read_all-none (b ∷ m) user_id now = ground (arith, read_all-none m user_id now)

read_all-count :
    (m : Dict ℕ Notification) (user_id now : ℕ)
    → (read_all m user_id now).0 ≡ length (unread_of user_id m)
unfolding read_all
read_all-count [] user_id now = refl
read_all-count (b ∷ m) user_id now = ground (arith, read_all-count m user_id now)

read_all-others :
    (m : Dict ℕ Notification) (user_id other now : ℕ)
    → user_id ≢ other
    → unread_of other (read_all m user_id now).1 ≡ unread_of other m
unfolding read_all
read_all-others [] user_id other now ne = refl
read_all-others (b ∷ m) user_id other now ne = ground (
  arith,
  read_all-others m user_id other now ne,
  same_number_iff b.1.user_id user_id,
  same_number_iff b.1.user_id other,
)

-- Marking all of a user's notifications answers with as many as the user had unread, leaves no page
-- with any, and changes no page of anybody else.
pub mark_all_read-unread :
    (r : NotificationsRepository) (user_id other now page limit : ℕ)
    → user_id ≢ other
    → let (count, r') = mark_all_read r user_id now in
      (count ≡ (list_unread r user_id page limit).total)
      × ((list_unread r' user_id page limit).total ≡ 0)
      × (list_unread r' other page limit ≡ list_unread r other page limit)
unfolding mark_all_read list_unread
mark_all_read-unread r user_id other now page limit ne =
    let emptied = read_all-none r.by_id user_id now in
    let kept = read_all-others r.by_id user_id other now ne in
    (
      omega (
        arith,
        read_all-count r.by_id user_id now,
        length-sort_by newest (unread_of user_id r.by_id),
      ),
      rw emptied refl,
      rw kept refl,
    )
