-- ===== src/Gateway/Rooms/Permits.antt =====
-- Who may be in which room.
use xstream_roll.Shared.{
  ℕ, ◌≡◌, subst, ap, inl, inr, String, Bool, true, false, not, ◌&&◌, ◌||◌, Option, none, some, List,
  [], ◌∷◌, All, filter, arith, Bool-cases, eq_iff, same_number_iff, ◌==◌, number_key, string_key,
}
use xstream_roll.Shared.Dict
use xstream_roll.Shared.Dict.{Dict}
use xstream_roll.Streams.{Stream, public, private_}
use xstream_roll.Gateway.{
  grants, can_subscribe, Room, stream_room, user_room, Client, Delivery, StreamsGateway, same_room,
  has_room, join, leave, receivers, Call, connects, settles, subscribes, unsubscribes, disconnects,
  emits,
}

pub same_room-eq : (a b : Room) → same_room a b ≡ true → a ≡ b
same_room-eq (stream_room a) (stream_room b) h = ap (λ x. stream_room x) ((eq_iff a b).0 h)
same_room-eq (stream_room a) (user_room b) h = absurd (ground arith)
same_room-eq (user_room a) (stream_room b) h = absurd (ground arith)
same_room-eq (user_room a) (user_room b) h = ap (λ x. user_room x) ((same_number_iff a b).0 h)

pub has_room-filter :
    (rooms : List Room) (gone room : Room)
    → has_room room (filter (λ r. not (same_room r gone)) rooms) ≡ true
    → has_room room rooms ≡ true
unfolding has_room
has_room-filter [] gone room h = h
has_room-filter (r ∷ rooms) gone room h = ground (arith, h, has_room-filter rooms gone room)

module _ (number : String → Option ℕ) where
  -- The text is the id of a stream that belongs to the user or is public.
  pub may_watch : Dict ℕ Stream → ℕ → String → Bool
  may_watch streams user_id text = elim (number text) [
    | none ↦ false
    | some id ↦ elim (Dict.get id streams) [
      | none ↦ false
      | some stream ↦ elim stream.visibility [
        | public ↦ true
        | private_ ↦ user_id == stream.user_id
      ]
    ]
  ]

  pub grants-may_watch :
      (streams : Dict ℕ Stream) (user_id : ℕ) (text : String)
      → grants number streams user_id text ≡ true
      → may_watch streams user_id text ≡ true
  unfolding grants may_watch can_subscribe
  grants-may_watch streams user_id text h = ground (arith, λ (a b : ℕ). same_number_iff a b)

  -- Some call of the past subscribed this socket to this stream, which its user might watch then.
  unfoldable pub was_granted : List Call → String → ℕ → String → Bool
  unfolding may_watch
  was_granted [] id user_id text = false
  was_granted (subscribes i (some t) streams ∷ past) id user_id text =
      (i == id && (t == text && may_watch streams user_id text)) || was_granted past id user_id text
  was_granted (_ ∷ past) id user_id text = was_granted past id user_id text

  -- Why the socket of this user may be in this room.
  unfoldable pub permits : List Call → String → Option ℕ → Room → Bool
  unfolding was_granted
  permits past id none room = false
  permits past id (some user_id) (user_room v) = user_id == v
  permits past id (some user_id) (stream_room text) = was_granted past id user_id text

  pub was_granted-more :
      (past : List Call) (c : Call) (id : String) (user_id : ℕ) (text : String)
      → was_granted past id user_id text ≡ true
      → was_granted (c ∷ past) id user_id text ≡ true
  unfolding was_granted
  was_granted-more past (subscribes i (some t) streams) id user_id text h = ground (arith, h)
  was_granted-more past (subscribes i none streams) id user_id text h = h
  was_granted-more past (connects i token) id user_id text h = h
  was_granted-more past (settles i answer) id user_id text h = h
  was_granted-more past (unsubscribes i stream_id) id user_id text h = h
  was_granted-more past (disconnects i) id user_id text h = h
  was_granted-more past (emits room) id user_id text h = h

  pub permits-more :
      (past : List Call) (c : Call) (id : String) (user : Option ℕ) (room : Room)
      → permits past id user room ≡ true
      → permits (c ∷ past) id user room ≡ true
  unfolding permits
  permits-more past c id none room h = h
  permits-more past c id (some user_id) (user_room v) h = h
  permits-more past c id (some user_id) (stream_room text) h =
      was_granted-more past c id user_id text h

  -- A socket is only in rooms that it may be in.
  abbrev pub IsAllowed : List Call → String × Client → Type 0
  IsAllowed past b =
      (room : Room) → has_room room b.1.rooms ≡ true → permits past b.0 b.1.user_id room ≡ true

  abbrev pub IsSound : List Call → StreamsGateway → Type 0
  IsSound past g =
      All (IsAllowed past) g.clients
      × All (λ (d : Delivery). permits past d.client d.user_id d.room ≡ true) g.deliveries

  pub All-more :
      (past : List Call) (c : Call) (m : Dict String Client)
      → All (IsAllowed past) m
      → All (IsAllowed (c ∷ past)) m
  All-more past c [] h = tt
  All-more past c ((id, client) ∷ m) h =
      (λ room r. permits-more past c id client.user_id room (h.0 room r), All-more past c m h.1)

  pub deliveries-more :
      (past : List Call) (c : Call) (ds : List Delivery)
      → All (λ (d : Delivery). permits past d.client d.user_id d.room ≡ true) ds
      → All (λ (d : Delivery). permits (c ∷ past) d.client d.user_id d.room ≡ true) ds
  deliveries-more past c [] h = tt
  deliveries-more past c (d ∷ ds) h =
      (permits-more past c d.client d.user_id d.room h.0, deliveries-more past c ds h.1)

  pub join-IsAllowed :
      (past : List Call) (id : String) (client : Client) (room : Room)
      → IsAllowed past (id, client)
      → permits past id client.user_id room ≡ true
      → IsAllowed past (id, join room client)
  unfolding join has_room
  join-IsAllowed past id client room h p = elim (Bool-cases (has_room room client.rooms)) [
    | inl there ↦ rw (there, join) h
    | inr fresh ↦
        rw (fresh, join)
          (λ r q. elim (Bool-cases (same_room room r)) [
            | inl same ↦
                subst (λ x. permits past id client.user_id x ≡ true) (same_room-eq room r same) p
            | inr other ↦ h r (ground (arith, q, other))
          ])
  ]

  pub leave-IsAllowed :
      (past : List Call) (id : String) (client : Client) (room : Room)
      → IsAllowed past (id, client)
      → IsAllowed past (id, leave room client)
  unfolding leave
  leave-IsAllowed past id client room h r q = h r (has_room-filter client.rooms room r q)

  pub receivers-permitted :
      (past : List Call) (room : Room) (m : Dict String Client)
      → All (IsAllowed past) m
      → All (λ (d : Delivery). permits past d.client d.user_id d.room ≡ true) (receivers room m)
  unfolding receivers
  receivers-permitted past room [] h = tt
  receivers-permitted past room ((id, c) ∷ m) h = elim (Bool-cases (has_room room c.rooms)) [
    | inl there ↦ rw there (h.0 room there, receivers-permitted past room m h.1)
    | inr absent ↦ rw absent (receivers-permitted past room m h.1)
  ]
