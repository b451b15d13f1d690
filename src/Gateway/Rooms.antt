-- ===== src/Gateway/Rooms.antt =====
-- Who is in which room, and what is sent to whom.
pub mod Permits
use xstream_roll.Shared.{
  ℕ, zero, suc, ◌≡◌, refl, subst, sym, ap, inl, inr, String, Bool, true, false, not, ◌&&◌, ◌||◌,
  Option, none, some, List, [], ◌∷◌, ◌++◌, All, filter, arith, Option-cases, Bool-cases, eq_iff,
  same_number_iff, ◌==◌, number_key, string_key,
}
use xstream_roll.Shared.Dict
use xstream_roll.Shared.Dict.{Dict}
use xstream_roll.Auth.{Answer, done, refused, Identity}
use xstream_roll.Streams.{Stream}
use xstream_roll.Gateway.{
  Room, stream_room, user_room, Client, Delivery, StreamsGateway, same_room, has_room, join, leave,
  rejected, disconnect_with_error, handle_disconnect, handle_connection, authenticated, grants,
  subscribe_as, unsubscribe_as, handle_subscribe, handle_unsubscribe, receivers, emit, Call,
  connects, settles, subscribes, unsubscribes, disconnects, emits, step, after,
}
use xstream_roll.Gateway.Rooms.Permits.{
  grants-may_watch, same_room-eq, has_room-filter, was_granted, permits, was_granted-more,
  permits-more, IsAllowed, IsSound, All-more, deliveries-more, join-IsAllowed, leave-IsAllowed,
  receivers-permitted,
}

module _ (number : String → Option ℕ) where
  handle_disconnect-IsSound :
      (past : List Call) (g : StreamsGateway) (id : String)
      → IsSound number past g
      → IsSound number past (handle_disconnect g id)
  unfolding handle_disconnect
  handle_disconnect-IsSound past g id h =
      (Dict.delete-All (IsAllowed number past) id g.clients h.0, h.1)

  disconnect_with_error-IsSound :
      (past : List Call) (g : StreamsGateway) (id : String)
      → IsSound number past g
      → IsSound number past (disconnect_with_error g id)
  unfolding disconnect_with_error
  disconnect_with_error-IsSound past g id h =
      handle_disconnect-IsSound past (record g { notices = g.notices ++ rejected id ∷ [] }) id h

  handle_connection-IsSound :
      (past : List Call) (g : StreamsGateway) (id : String) (token : Option String)
      → IsSound number past g
      → IsSound number past (handle_connection g id token)
  unfolding handle_connection has_room
  handle_connection-IsSound past g id token h =
      let client : Client = record { user_id = none; rooms = [] } in
      let connected = record g { clients = Dict.set id client g.clients } in
      let sound : IsSound number past connected = (
        Dict.set-All (IsAllowed number past) id client g.clients
            (λ room q. absurd (ground (arith, q))) h.0,
        h.1,
      ) in
      elim (Option-cases token) [
        | inl e ↦ rw (e, handle_connection) (disconnect_with_error-IsSound past connected id sound)
        | inr (t, e) ↦ rw (e, handle_connection) sound
      ]

  settled-IsSound :
      (past : List Call) (g : StreamsGateway) (id : String) (client : Client)
      (answer : Answer Identity)
      → IsSound number past g
      → Dict.get id g.clients ≡ some client
      → client.user_id ≡ none
      → IsSound number past (authenticated g id answer)
  unfolding authenticated permits
  settled-IsSound past g id client (refused message) h e unknown =
      rw (e, unknown, authenticated) (disconnect_with_error-IsSound past g id h)
  settled-IsSound past g id client (done identity) h e unknown =
      let known : Client = record client { user_id = some identity.user_id } in
      let room = user_room identity.user_id in
      let before = Dict.get-All (IsAllowed number past) id client g.clients h.0 e in
      let kept : IsAllowed number past (id, known) = λ r q.
        let never : permits number past id none r ≡ true =
          subst (λ u. permits number past id u r ≡ true) unknown (before r q) in
        absurd (ground (arith, never)) in
      let joins =
        join-IsAllowed number past id known room kept
          ((same_number_iff identity.user_id identity.user_id).1 refl) in
      rw (e, unknown, authenticated)
        (Dict.set-All (IsAllowed number past) id (join room known) g.clients joins h.0, h.1)

  left-IsSound :
      (past : List Call) (g : StreamsGateway) (id : String) (answer : Answer Identity)
      → IsSound number past g
      → Dict.get id g.clients ≡ none
      → IsSound number past (authenticated g id answer)
  unfolding authenticated
  left-IsSound past g id (refused message) h e = rw (e, authenticated) h
  left-IsSound past g id (done identity) h e = rw (e, authenticated) h

  authenticated-IsSound :
      (past : List Call) (g : StreamsGateway) (id : String) (answer : Answer Identity)
      → IsSound number past g
      → IsSound number past (authenticated g id answer)
  unfolding authenticated
  authenticated-IsSound past g id answer h = elim (Option-cases (Dict.get id g.clients)) [
    | inl e ↦ left-IsSound past g id answer h e
    | inr (client, e) ↦ elim (Option-cases client.user_id) [
      | inr (user, u) ↦ rw (e, u, authenticated) h
      | inl unknown ↦ settled-IsSound past g id client answer h e unknown
    ]
  ]

  IsSound-more :
      (past : List Call) (c : Call) (g : StreamsGateway)
      → IsSound number past g
      → IsSound number (c ∷ past) g
  IsSound-more past c g h =
      (All-more number past c g.clients h.0, deliveries-more number past c g.deliveries h.1)

  was_granted-now :
      (past : List Call) (id text : String) (user_id : ℕ) (streams : Dict ℕ Stream)
      → grants number streams user_id text ≡ true
      → was_granted number (subscribes id (some text) streams ∷ past) id user_id text ≡ true
  unfolding was_granted
  was_granted-now past id text user_id streams allowed =
      let watched = grants-may_watch number streams user_id text allowed in
      rw ((eq_iff id id).1 refl, (eq_iff text text).1 refl, watched) refl

  subscribe_as-IsSound :
      (past : List Call) (g : StreamsGateway) (id : String) (client : Client) (user : Option ℕ)
      (stream_id : Option String) (streams : Dict ℕ Stream)
      → IsSound number past g
      → Dict.get id g.clients ≡ some client
      → client.user_id ≡ user
      → IsSound number
          (subscribes id stream_id streams ∷ past)
          (subscribe_as number g id client user stream_id streams).1
  unfolding subscribe_as permits
  subscribe_as-IsSound past g id client none stream_id streams h e u =
      IsSound-more past (subscribes id stream_id streams) g h
  subscribe_as-IsSound past g id client (some zero) stream_id streams h e u =
      IsSound-more past (subscribes id stream_id streams) g h
  subscribe_as-IsSound past g id client (some (suc n)) none streams h e u =
      IsSound-more past (subscribes id none streams) g h
  subscribe_as-IsSound past g id client (some (suc n)) (some text) streams h e u =
      let past' = subscribes id (some text) streams ∷ past in
      let same = IsSound-more past (subscribes id (some text) streams) g h in
      elim (Bool-cases (grants number streams (suc n) text)) [
        | inr denied ↦ rw (denied, subscribe_as) same
        | inl allowed ↦
            let room = stream_room text in
            let permitted : permits number past' id client.user_id room ≡ true =
              subst (λ x. permits number past' id x room ≡ true) (sym u)
                (was_granted-now past id text (suc n) streams allowed) in
            let joins =
              join-IsAllowed number past' id client room
                (Dict.get-All (IsAllowed number past') id client g.clients same.0 e) permitted in
            rw (allowed, subscribe_as)
              (
                Dict.set-All (IsAllowed number past') id (join room client) g.clients joins same.0,
                same.1,
              )
      ]

  subscribe-IsSound :
      (past : List Call) (g : StreamsGateway) (id : String) (stream_id : Option String)
      (streams : Dict ℕ Stream)
      → IsSound number past g
      → IsSound number
          (subscribes id stream_id streams ∷ past)
          (handle_subscribe number g id stream_id streams).1
  unfolding handle_subscribe
  subscribe-IsSound past g id stream_id streams h = elim (Option-cases (Dict.get id g.clients)) [
    | inl e ↦ rw (e, handle_subscribe) (IsSound-more past (subscribes id stream_id streams) g h)
    | inr (client, e) ↦
        rw (e, handle_subscribe)
          (subscribe_as-IsSound past g id client client.user_id stream_id streams h e refl)
  ]

  unsubscribe_as-IsSound :
      (past : List Call) (g : StreamsGateway) (id : String) (client : Client) (user : Option ℕ)
      (stream_id : Option String)
      → IsSound number past g
      → Dict.get id g.clients ≡ some client
      → IsSound number past (unsubscribe_as g id client user stream_id).1
  unfolding unsubscribe_as
  unsubscribe_as-IsSound past g id client none stream_id h e = h
  unsubscribe_as-IsSound past g id client (some zero) stream_id h e = h
  unsubscribe_as-IsSound past g id client (some (suc n)) none h e = h
  unsubscribe_as-IsSound past g id client (some (suc n)) (some text) h e =
      let leaves =
        leave-IsAllowed number past id client (stream_room text)
          (Dict.get-All (IsAllowed number past) id client g.clients h.0 e) in
      (
        Dict.set-All (IsAllowed number past) id (leave (stream_room text) client) g.clients leaves
            h.0,
        h.1,
      )

  unsubscribe-IsSound :
      (past : List Call) (g : StreamsGateway) (id : String) (stream_id : Option String)
      → IsSound number past g
      → IsSound number past (handle_unsubscribe g id stream_id).1
  unfolding handle_unsubscribe
  unsubscribe-IsSound past g id stream_id h = elim (Option-cases (Dict.get id g.clients)) [
    | inl e ↦ rw (e, handle_unsubscribe) h
    | inr (client, e) ↦
        rw (e, handle_unsubscribe)
          (unsubscribe_as-IsSound past g id client client.user_id stream_id h e)
  ]

  append-permitted :
      (past : List Call) (xs ys : List Delivery)
      → All (λ (d : Delivery). permits number past d.client d.user_id d.room ≡ true) xs
      → All (λ (d : Delivery). permits number past d.client d.user_id d.room ≡ true) ys
      → All (λ (d : Delivery). permits number past d.client d.user_id d.room ≡ true) (xs ++ ys)
  append-permitted past [] ys h k = k
  append-permitted past (x ∷ xs) ys h k = (h.0, append-permitted past xs ys h.1 k)

  step-IsSound :
      (past : List Call) (c : Call) (g : StreamsGateway)
      → IsSound number past g
      → IsSound number (c ∷ past) (step number g c)
  unfolding step emit
  step-IsSound past (connects id token) g h =
      IsSound-more past (connects id token) (handle_connection g id token)
        (handle_connection-IsSound past g id token h)
  step-IsSound past (settles id answer) g h =
      IsSound-more past (settles id answer) (authenticated g id answer)
        (authenticated-IsSound past g id answer h)
  step-IsSound past (subscribes id stream_id streams) g h =
      subscribe-IsSound past g id stream_id streams h
  step-IsSound past (unsubscribes id stream_id) g h =
      IsSound-more past (unsubscribes id stream_id) (handle_unsubscribe g id stream_id).1
        (unsubscribe-IsSound past g id stream_id h)
  step-IsSound past (disconnects id) g h =
      IsSound-more past (disconnects id) (handle_disconnect g id)
        (handle_disconnect-IsSound past g id h)
  step-IsSound past (emits room) g h = IsSound-more past (emits room) (emit g room) (
    h.0,
    append-permitted past g.deliveries (receivers room g.clients) h.1
        (receivers-permitted number past room g.clients h.0),
  )

  after-IsSound : (past : List Call) → IsSound number past (after number past)
  unfolding after
  after-IsSound [] = (tt, tt)
  after-IsSound (c ∷ past) = step-IsSound past c (after number past) (after-IsSound past)

  -- Whatever has been called, what a socket was sent on the room of a stream went to a user who, when
  -- that socket subscribed to it, owned the stream or found it public; what it was sent on the room of a
  -- user went to that user; and a socket without a user was sent nothing on any room.
  pub after-permitted :
      (past : List Call)
      → All
          (λ (d : Delivery). permits number past d.client d.user_id d.room ≡ true)
          (after number past).deliveries
  after-permitted past = (after-IsSound past).1
