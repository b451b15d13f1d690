-- ===== src/Gateway/Tests.antt =====
-- Two sockets and a private stream, and the theorem about what they were sent.
use xstream_roll.Shared.{
  ℕ, ◌≡◌, refl, String, true, false, Option, none, some, List, [], ◌∷◌, All, ◌==◌, string_key,
  if◌then◌else◌, number_key,
}
use xstream_roll.Shared.Dict
use xstream_roll.Shared.Dict.{Dict}
use xstream_roll.Auth.{done}
use xstream_roll.Streams.{Stream, inactive, private_}
use xstream_roll.Gateway.{
  Delivery, Call, connects, settles, subscribes, emits, stream_room, after, step, handle_connection,
  authenticated, grants, can_subscribe, subscribe_as, handle_subscribe, receivers, emit, join,
  has_room,
}
use xstream_roll.Gateway.Rooms.{after-permitted}
use xstream_roll.Gateway.Rooms.Permits.{permits}

abbrev number : String → Option ℕ
number t = if t == "1" then some 1 else none

abbrev stream : Stream
stream = record {
  id = 1;
  user_id = 7;
  name = "first";
  description = none;
  status = inactive;
  visibility = private_;
  created_at = 10;
  updated_at = 10;
}

abbrev streams : Dict ℕ Stream
streams = (1, stream) ∷ []

-- The owner and another user ask for the stream, of which an event is then sent. The last stands first.
abbrev past : List Call
past =
    emits (stream_room "1")
    ∷ subscribes "b" (some "1") streams
    ∷ subscribes "a" (some "1") streams
    ∷ settles "b" (done (record { user_id = 8; is_admin = false }))
    ∷ settles "a" (done (record { user_id = 7; is_admin = false }))
    ∷ connects "b" (some "tb")
    ∷ connects "a" (some "ta")
    ∷ []

owner_only :
    (after number past).deliveries
    ≡ record { client = "a"; user_id = some 7; room = stream_room "1" } ∷ []
unfolding after step handle_connection authenticated subscribe_as handle_subscribe grants
    can_subscribe emit join has_room receivers Dict.get Dict.set
owner_only = refl

after-permitted_example :
    All
      (λ (d : Delivery). permits number past d.client d.user_id d.room ≡ true)
      (after number past).deliveries
after-permitted_example = after-permitted number past
