-- ===== src/Live/Tests.antt =====
-- A page with a stream, and the theorems about it.
use xstream_roll.Shared.{arith, false, ◌≡◌, ◌≤◌, none, some, List, [], ◌∷◌, length, ltb}
use xstream_roll.Live.{
  Payload, Signal, connects, disconnects, tells, started, stopped, Texts, set_up, run,
}
use xstream_roll.Live.History.{told, last_status, last_of, run-set_up}
use xstream_roll.Live.Rooms.{
  Use, mounts, unmounts, reconnects, use_room, create, count_of, is_joined, use_rooms, holders,
}
use xstream_roll.Live.Rooms.Counted.{use_rooms-create, reconnects_left}

abbrev texts : Texts
texts = record {
  label = λ name stream now. name;
  message = λ kind p. "message";
  iso = λ now. "1970-01-01T00:00:00.000Z";
}

abbrev of_seven : Payload
of_seven = record {
  stream_id = some "7";
  legacy_id = none;
  started_at = none;
  stopped_at = none;
  occurred_at = none;
}

abbrev signals : List Signal
signals =
    connects
    ∷ tells started of_seven 1
    ∷ disconnects "transport close"
    ∷ tells stopped of_seven 2
    ∷ []

run-set_up_example :
    ((run texts (some "7") (set_up []) signals).events ≡ last_of 100 (told texts signals))
    × (length (run texts (some "7") (set_up []) signals).events ≤ 100)
    × ((run texts (some "7") (set_up []) signals).stream_status
        ≡ last_status (some "7") none signals)
run-set_up_example = run-set_up texts (some "7") signals

abbrev uses : List Use
uses = mounts "7" ∷ mounts "8" ∷ mounts "7" ∷ unmounts "7" ∷ []

use_rooms-create_example :
    (count_of (use_rooms create uses) "7" ≡ holders "7" uses 0)
    × (is_joined (use_rooms create uses) "7" ≡ ltb 0 (holders "7" uses 0))
use_rooms-create_example = use_rooms-create "7" uses (tt, (tt, (tt, (tt, tt))))

abbrev one_use : List Use
one_use = mounts "7" ∷ []

reconnects_left_example :
    let r = use_room (use_rooms create one_use) reconnects in
    (count_of r "7" ≡ holders "7" one_use 0)
    × (is_joined r "7" ≡ false)
    × (is_joined (use_room r (mounts "7")) "7" ≡ false)
unfolding holders
reconnects_left_example = reconnects_left "7" one_use (tt, tt) (omega arith)
