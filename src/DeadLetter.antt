-- ===== src/DeadLetter.antt =====
-- `FileDeadLetterStore` of xstreamroll-processing/src/dead-letter-store.ts. The file is its text, of
-- whatever type, or is not there; `JSON.stringify` and `JSON.parse` of the records, and the hash of an event without an id,
-- are parameters. The writes follow one another in `pendingWrite`, so that each is a step. A write that
-- the file system refuses leaves the file as it is.
pub mod Stored
mod Tests
use Prim.Native.String
use xstream_roll.Shared.{
  ℕ, String, Bool, true, false, Option, none, some, List, [], ◌∷◌, leb, sort_by, if◌then◌else◌,
  ◌==◌, string_key,
}
use xstream_roll.Shared.Dict
use xstream_roll.Shared.Dict.{Dict}
use xstream_roll.Session.Event.{StreamEvent}

pub record DeadLetterRecord : Type 0 where
  pub key : String
  pub stream_id : String
  pub event : StreamEvent
  pub error : String
  pub attempt_count : ℕ
  pub timestamp : ℕ

abbrev pub Records : Type 0
Records = Dict String DeadLetterRecord

-- A call of `record`: the event, the error's message, the attempts, the time, and whether the file
-- system takes the write.
pub record Recording : Type 0 where
  pub event : StreamEvent
  pub error : String
  pub attempts : ℕ
  pub now : ℕ
  pub writable : Bool

-- An id that is missing or empty does not count.
pub event_key : (StreamEvent → String) → StreamEvent → String
event_key digest event = elim event.id [
  | none ↦ digest event
  | some id ↦ if id == "" then digest event else String.◌++◌ event.stream_id (String.◌++◌ ":" id)
]

-- The record of a key is made once, and then brought up to date.
pub upsert : String → Recording → Records → Records
upsert key r records = elim (Dict.get key records) [
  | some existing ↦
      Dict.set key
        (record existing { error = r.error; attempt_count = r.attempts; timestamp = r.now }) records
  | none ↦
      Dict.set key
        (record {
          key = key;
          stream_id = r.event.stream_id;
          event = r.event;
          error = r.error;
          attempt_count = r.attempts;
          timestamp = r.now;
        })
        records
]

abbrev pub earlier : DeadLetterRecord → DeadLetterRecord → Bool
earlier a b = leb a.timestamp b.timestamp

-- How `pendingWrite` was settled, and the file.
pub record FileDeadLetterStore (Text : Type 0) : Type 0 where
  pub written : Bool
  pub file : Option Text

module _ {Text : Type 0} (stringify : Records → Text) (parse : Text → Option Records)
    (digest : StreamEvent → String) where
  -- The store of a file that is there, or is not.
  abbrev pub open_store : Option Text → FileDeadLetterStore Text
  open_store file = record { written = true; file = file }

  -- `readRecords`; `none` where it throws.
  pub read_records : Option Text → Option Records
  read_records none = some []
  read_records (some raw) = parse raw

  -- `record`, which is settled as `pendingWrite` is.
  pub record_event : FileDeadLetterStore Text → Recording → FileDeadLetterStore Text
  unfolding read_records event_key upsert
  record_event s r = elim (read_records s.file) [
    | none ↦ record s { written = false }
    | some records ↦
        if r.writable
        then record {
          written = true;
          file = some (stringify (upsert (event_key digest r.event) r records));
        }
        else record s { written = false }
  ]

  -- `list`, which rejects if the last write did.
  pub list : FileDeadLetterStore Text → Option (List DeadLetterRecord)
  unfolding read_records
  list s =
      if s.written
      then elim (read_records s.file) [
        | none ↦ none
        | some records ↦ some (sort_by earlier (Dict.values records))
      ]
      else none

  pub run : FileDeadLetterStore Text → List Recording → FileDeadLetterStore Text
  unfolding record_event
  run s [] = s
  run s (r ∷ rs) = run (record_event s r) rs
