-- ===== src/Streams/Tests.antt =====
-- Two streams, one of them public, and the theorems about them.
use xstream_roll.Shared.{
  ◌≡◌, arith, refl, String, true, false, none, some, [], ◌∷◌, ◌++◌, number_key,
}
use xstream_roll.Shared.Dict
use xstream_roll.Streams.{
  inactive, active, private_, Stream, StreamUpdateChanges, StreamListPredicate, webhook, broadcast,
  StreamsService, create_service, create, trimmed, update, validate_status_transition,
  list_filtered, narrow,
}
use xstream_roll.Streams.Status.{update_in_place_silent, update_notifies}
use xstream_roll.Pagination
use xstream_roll.Pagination.{to_array, collected}
use xstream_roll.Streams.Client.{list_fetcher, to_array-list_page}

abbrev as_is : String → String
as_is t = t

abbrev stream : Stream
stream = record {
  id = 1;
  user_id = 7;
  name = "first";
  description = none;
  status = inactive;
  visibility = private_;
  created_at = 10;
  updated_at = 10;
}

abbrev service : StreamsService
service = (create as_is create_service 7 "first" none none 10).1

stored : Dict.get 1 service.streams_by_id ≡ some stream
unfolding create create_service trimmed Dict.get Dict.set
stored = refl

abbrev to_active : StreamUpdateChanges
to_active = record { name = none; description = none; status = some active; visibility = none }

abbrev to_inactive : StreamUpdateChanges
to_inactive = record to_active { status = some inactive }

update_in_place_silent_example :
    (update as_is false service 1 to_active 20).1.effects ≡ service.effects
update_in_place_silent_example = update_in_place_silent as_is service 1 to_active 20

update_notifies_example :
    ((update as_is true service 1 to_active 20).1.effects
      ≡ service.effects ++ webhook 1 active ∷ broadcast 1 active ∷ [])
    × ((t : Stream) × (Dict.get 1 (update as_is true service 1 to_active 20).1.streams_by_id
          ≡ some t)
        × (t.status ≡ active))
unfolding validate_status_transition
update_notifies_example =
    update_notifies as_is service 1 to_active 20 stream active stored refl refl

abbrev everything : StreamListPredicate
everything = record { status = none; visibility = none; owner_only = false; q = none; tag = none }

to_array-list_page_example :
    to_array 2 (list_fetcher service 7 everything) (Pagination.create none none none)
    ≡ collected (list_filtered service 7 everything)
unfolding Pagination.create list_filtered narrow create create_service trimmed Dict.get Dict.set
to_array-list_page_example =
    to_array-list_page service 7 2 everything none none (omega arith) (omega arith) (omega arith)
      (omega arith)
