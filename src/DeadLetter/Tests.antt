-- ===== src/DeadLetter/Tests.antt =====
-- Three recordings, of which the second is of the same event as the first and the third is refused, and the theorem about them.
use xstream_roll.Shared.{
  if◌then◌else◌, ◌≡◌, refl, String, true, false, none, some, List, [], ◌∷◌, sort_by, string_key,
  Option,
}
use xstream_roll.Shared.Dict
use xstream_roll.Session.Event.{StreamEvent}
use xstream_roll.DeadLetter.{
  FileDeadLetterStore, open_store, Records, Recording, earlier, read_records, list, run,
}
use xstream_roll.DeadLetter.Stored.{last_taken, track, run-tracks}

abbrev event : String → StreamEvent
event id = record { id = some id; stream_id = "s"; fields = []; timestamp = "t" }

abbrev recordings : List Recording
recordings =
    record { event = event "1"; error = "down"; attempts = 4; now = 10; writable = true }
    ∷ record { event = event "1"; error = "gone"; attempts = 5; now = 30; writable = true }
    ∷ record { event = event "2"; error = "down"; attempts = 4; now = 20; writable = false }
    ∷ []

-- The records are their own text.
abbrev stringify : Records → Records
stringify records = records

abbrev parse : Records → Option Records
parse records = some records

abbrev digest : StreamEvent → String
digest event = "d"

abbrev stored : FileDeadLetterStore Records
stored = run stringify parse digest (open_store stringify parse digest none) recordings

run-tracks_example :
    (records : Records) × (read_records stringify parse digest stored.file ≡ some records)
    × (list stringify parse digest stored ≡ (
        if last_taken stringify parse digest true recordings
        then some (sort_by earlier (Dict.values records))
        else none))
    × (Dict.get "s:1" records ≡ track stringify parse digest "s:1" none recordings)
run-tracks_example = run-tracks stringify parse digest recordings "s:1" (λ m. refl)
