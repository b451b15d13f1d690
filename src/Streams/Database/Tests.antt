-- ===== src/Streams/Database/Tests.antt =====
-- A table with a stream and two pending events, and the theorems about it.
use mathlib.Core.List.{Memᴰ}
use xstream_roll.Shared.{ℕ, ◌≡◌, refl, none, some, List, [], ◌∷◌, All, arith, number_key}
use xstream_roll.Streams.{Stream, StreamUpdateChanges, active, public}
use xstream_roll.Streams.Database.{StreamData, StreamTables}
use xstream_roll.Streams.Database.Order.{IsIncreasing}
use xstream_roll.Streams.Database.Ingest.{Arrival}
use xstream_roll.Streams.Database.Pending.{walk, walk_complete}
use xstream_roll.Streams.Database.Swap.{Call, creates, finds, updates, deletes}

abbrev row : ℕ → ℕ → StreamData
row id timestamp = record { id = id; stream_id = 1; payload = "{}"; timestamp = timestamp }

abbrev stream : Stream
stream = record {
  id = 1;
  user_id = 7;
  name = "first";
  description = none;
  status = active;
  visibility = public;
  created_at = 10;
  updated_at = 10;
}

abbrev tables : StreamTables
tables = record {
  users = 7 ∷ [];
  stream_events = [];
  streams = stream ∷ [];
  next_id = 2;
  stream_data = row 1 5 ∷ row 2 3 ∷ [];
  next_data_id = 3;
}

abbrev empty : StreamTables
empty = record {
  users = 7 ∷ [];
  stream_events = [];
  streams = [];
  next_id = 1;
  stream_data = [];
  next_data_id = 1;
}

abbrev late : List (List Arrival)
late = [] ∷ (record { stream_id = 1; payload = "{}"; timestamp = 4 } ∷ []) ∷ [] ∷ [] ∷ [] ∷ []

-- The text of a cursor is the cursor.
walk_complete_example :
    (rows : List StreamData) × (walk (λ c. c) (λ c. some c) 1 tables none late ≡ some rows)
    × IsIncreasing rows
    × All (λ r. Memᴰ r rows) tables.stream_data
walk_complete_example =
    walk_complete (λ c. c) (λ c. some c) (λ c. refl) 1 late tables (omega arith)
      (((ground arith, tt), (tt, tt)), (omega arith, (omega arith, tt))) (omega arith)

abbrev renamed : StreamUpdateChanges
renamed = record { name = some "other"; description = none; status = none; visibility = none }

abbrev calls : List Call
calls = creates 7 "first" none none 10 ∷ updates 1 renamed 20 ∷ finds 1 ∷ deletes 1 ∷ deletes 1 ∷ []
