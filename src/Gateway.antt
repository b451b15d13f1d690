-- ===== src/Gateway.antt =====
-- `StreamsGateway` of api/src/gateways/streams.gateway.ts with `canSubscribe` of
-- api/src/common/guards/stream-ownership.service.ts. A socket is known by its id. `number` is `Number`
-- on the texts that stand for an integer. `handleConnection` is cut at its await, which the pipeline of
-- the API's guards answers. `handleSubscribe` is a step at the answer of the table of the streams: what it
-- checks before its await, the user of the socket and the payload, does not change while it waits, and
-- a socket that has left by then is sent nothing. What the server sends to a room is logged for each
-- socket in it, and apart from that what it sends to one socket itself, oldest first. The text of the
-- messages and the origins that are allowed are not modelled.
pub mod Rooms
mod Tests
use xstream_roll.Shared.{
  ℕ, zero, suc, String, Bool, true, false, not, ◌&&◌, ◌||◌, Option, none, some, List, [], ◌∷◌, ◌++◌,
  filter, if◌then◌else◌, ◌==◌, number_key, string_key,
}
use xstream_roll.Shared.Dict
use xstream_roll.Shared.Dict.{Dict}
use xstream_roll.Metrics.{ℤ, pos, inc, dec}
use xstream_roll.Auth.{Answer, done, refused, Identity, present}
use xstream_roll.Streams.{Stream, is_public}

-- The room of a stream has the id as the client wrote it.
pub data Room : Type 0 where
  stream_room : String → Room
  user_room : ℕ → Room

-- A connected socket: `data.userId`, once it is known, and the rooms that it is in.
pub record Client : Type 0 where
  pub user_id : Option ℕ
  pub rooms : List Room

-- What a socket was sent on a room, and who it belonged to.
pub record Delivery : Type 0 where
  pub client : String
  pub user_id : Option ℕ
  pub room : Room

-- What a socket was sent by itself: `connected`, or the `stream:error` before it is disconnected.
pub data Notice : Type 0 where
  greeted rejected : String → Notice

pub record StreamsGateway : Type 0 where
  pub clients : Dict String Client
  pub connections_total : ℕ
  pub active_connections : ℤ
  pub deliveries : List Delivery
  pub notices : List Notice

-- The acknowledgement of a subscription: the room, or the error.
pub data Ack : Type 0 where
  joined : Room → Ack
  error : String → Ack

abbrev pub same_room : Room → Room → Bool
same_room (stream_room a) (stream_room b) = a == b
same_room (user_room a) (user_room b) = a == b
same_room _ _ = false

pub has_room : Room → List Room → Bool
has_room room [] = false
has_room room (r ∷ rs) = same_room r room || has_room room rs

-- `client.join`: a set of rooms.
pub join : Room → Client → Client
unfolding has_room
join room c = if has_room room c.rooms then c else record c { rooms = room ∷ c.rooms }

pub leave : Room → Client → Client
leave room c = record c { rooms = filter (λ r. not (same_room r room)) c.rooms }

-- `canSubscribe`, on the table of the streams.
pub can_subscribe : Dict ℕ Stream → ℕ → ℕ → Bool
can_subscribe streams user_id stream_id = elim (Dict.get stream_id streams) [
  | none ↦ false
  | some stream ↦ stream.user_id == user_id || is_public stream.visibility
]

-- `extractToken`: the token of the handshake, else that of the header.
pub extract_token : Option String → Option String → Option String
extract_token auth_token bearer = elim (present auth_token) [
  | none ↦ present bearer
  | some token ↦ some token
]

abbrev pub start : StreamsGateway
start = record {
  clients = [];
  connections_total = 0;
  active_connections = pos 0;
  deliveries = [];
  notices = [];
}

-- `handleDisconnect`; socket.io takes the socket out of its rooms.
pub handle_disconnect : StreamsGateway → String → StreamsGateway
handle_disconnect g id = record g {
  clients = Dict.delete id g.clients;
  active_connections = dec g.active_connections;
}

pub disconnect_with_error : StreamsGateway → String → StreamsGateway
unfolding handle_disconnect
disconnect_with_error g id =
    handle_disconnect (record g { notices = g.notices ++ rejected id ∷ [] }) id

-- `handleConnection` up to its await: a socket without a token is disconnected at once.
pub handle_connection : StreamsGateway → String → Option String → StreamsGateway
unfolding disconnect_with_error
handle_connection g id token =
    let connected = record g {
      clients = Dict.set id (record { user_id = none; rooms = [] }) g.clients;
    } in
    elim token [ none ↦ disconnect_with_error connected id | some t ↦ connected ]

-- The rest of `handleConnection`, once `authenticate` is settled, which it is once for a socket; one that
-- has left meanwhile is still counted.
pub authenticated : StreamsGateway → String → Answer Identity → StreamsGateway
unfolding disconnect_with_error join
authenticated g id answer = elim (Dict.get id g.clients) [
  | none ↦ elim answer [
    | refused message ↦ g
    | done identity ↦ record g {
      connections_total = suc g.connections_total;
      active_connections = inc g.active_connections;
    }
  ]
  | some client ↦ elim client.user_id [
    | some known ↦ g
    | none ↦ elim answer [
      | refused message ↦ disconnect_with_error g id
      | done identity ↦ record g {
        clients =
            Dict.set id
              (join (user_room identity.user_id)
                (record client { user_id = some identity.user_id }))
              g.clients;
        connections_total = suc g.connections_total;
        active_connections = inc g.active_connections;
        notices = g.notices ++ greeted id ∷ [];
      }
    ]
  ]
]

module _ (number : String → Option ℕ) where
  -- Whether `handleSubscribe` lets this user into the room of this stream.
  pub grants : Dict ℕ Stream → ℕ → String → Bool
  unfolding can_subscribe
  grants streams user_id stream_id = elim (number stream_id) [
    | none ↦ false
    | some n ↦ can_subscribe streams user_id n
  ]

  -- `handleSubscribe` of a socket, with its `userId`. A user id of 0 does not count.
  pub subscribe_as :
      StreamsGateway
      → String
      → Client
      → Option ℕ
      → Option String
      → Dict ℕ Stream
      → Ack × StreamsGateway
  unfolding grants join
  subscribe_as g id client none stream_id streams = (error "unauthenticated", g)
  subscribe_as g id client (some zero) stream_id streams = (error "unauthenticated", g)
  subscribe_as g id client (some (suc n)) none streams = (error "streamId required", g)
  subscribe_as g id client (some (suc n)) (some text) streams =
      if grants streams (suc n) text
      then (
        joined (stream_room text),
        record g { clients = Dict.set id (join (stream_room text) client) g.clients },
      )
      else (error "forbidden", g)

  -- `handleSubscribe`, with the table of the streams as `canSubscribe` finds it.
  pub handle_subscribe :
      StreamsGateway → String → Option String → Dict ℕ Stream → Ack × StreamsGateway
  unfolding subscribe_as
  handle_subscribe g id stream_id streams = elim (Dict.get id g.clients) [
    | none ↦ (error "unauthenticated", g)
    | some client ↦ subscribe_as g id client client.user_id stream_id streams
  ]

-- `handleUnsubscribe` of a socket, with its `userId`.
pub unsubscribe_as :
    StreamsGateway → String → Client → Option ℕ → Option String → Ack × StreamsGateway
unfolding leave
unsubscribe_as g id client none stream_id = (error "unauthenticated", g)
unsubscribe_as g id client (some zero) stream_id = (error "unauthenticated", g)
unsubscribe_as g id client (some (suc n)) none = (error "streamId required", g)
unsubscribe_as g id client (some (suc n)) (some text) = (
  joined (stream_room text),
  record g { clients = Dict.set id (leave (stream_room text) client) g.clients },
)

pub handle_unsubscribe : StreamsGateway → String → Option String → Ack × StreamsGateway
unfolding unsubscribe_as
handle_unsubscribe g id stream_id = elim (Dict.get id g.clients) [
  | none ↦ (error "unauthenticated", g)
  | some client ↦ unsubscribe_as g id client client.user_id stream_id
]

pub receivers : Room → Dict String Client → List Delivery
unfolding has_room
receivers room [] = []
receivers room ((id, c) ∷ clients) =
    let rest = receivers room clients in
    if has_room room c.rooms
    then record { client = id; user_id = c.user_id; room = room } ∷ rest
    else rest

-- `emitStarted`, `emitStopped`, `emitError` and `emitNotification`: to the room of the stream, or of the
-- user.
pub emit : StreamsGateway → Room → StreamsGateway
unfolding receivers
emit g room = record g { deliveries = g.deliveries ++ receivers room g.clients }

pub data Call : Type 0 where
  connects : String → Option String → Call
  settles : String → Answer Identity → Call
  subscribes : String → Option String → Dict ℕ Stream → Call
  unsubscribes : String → Option String → Call
  disconnects : String → Call
  emits : Room → Call

module _ (number : String → Option ℕ) where
  pub step : StreamsGateway → Call → StreamsGateway
  step g (connects id token) = handle_connection g id token
  step g (settles id answer) = authenticated g id answer
  step g (subscribes id stream_id streams) = (handle_subscribe number g id stream_id streams).1
  step g (unsubscribes id stream_id) = (handle_unsubscribe g id stream_id).1
  step g (disconnects id) = handle_disconnect g id
  step g (emits room) = emit g room

  -- The gateway after the calls, of which the last stands first.
  pub after : List Call → StreamsGateway
  after [] = start
  after (c ∷ past) = step (after past) c
