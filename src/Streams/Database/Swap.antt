-- ===== src/Streams/Database/Swap.antt =====
-- The repository in memory, api/src/streams/repository/streams.repository.ts, in the place of the
-- Postgres repository: the same calls get the same answers, as they are at the moment they are given.
pub mod Mirror
pub mod Calls
pub mod Listing
use xstream_roll.Shared.{
  ℕ, suc, ◌<◌, String, ◌≡◌, ◌≢◌, refl, sym, ap, ◌∙◌, subst, Bool, true, false, not, Option, none,
  some, List, [], ◌∷◌, ◌++◌, map, filter, is_some, All, All-map, append-All, kept-All, Bool-cases,
  Option-cases, inl, inr, arith, if◌then◌else◌, ◌==◌, number_key, same_number_iff,
}
use xstream_roll.Shared.Dict
use xstream_roll.Shared.Dict.{Dict}
use xstream_roll.Streams
use xstream_roll.Streams.{
  Stream, StreamVisibility, StreamUpdateChanges, StreamsService, create_service, changed,
}
use xstream_roll.Streams.Database
use xstream_roll.Streams.Database.{
  StreamTables, DbResult, ok, missing, failed, unavailable, first, find_by_id, any_change,
  set_columns,
}

pub data Call : Type 0 where
  creates : ℕ → String → Option String → Option StreamVisibility → ℕ → Call
  finds : ℕ → Call
  updates : ℕ → StreamUpdateChanges → ℕ → Call
  deletes : ℕ → Call

pub data Answer : Type 0 where
  stream : DbResult Stream → Answer
  found : DbResult (Option Stream) → Answer
  deleted : DbResult Bool → Answer

pub database_call : StreamTables → Call → Answer × StreamTables
database_call db (creates user_id name description visibility now) =
    let r = Database.create true db user_id name description visibility now in (stream r.0, r.1)
database_call db (finds id) = (found (find_by_id true db id), db)
database_call db (updates id changes now) =
    let r = Database.update true db id changes now in (stream r.0, r.1)
database_call db (deletes id) = let r = Database.delete true db id in (deleted r.0, r.1)

-- `update` of the repository in memory, which throws a `TypeError` on a stream that is not there: the
-- framework answers that with the 500 too. What is given is the stream as it is at that moment.
pub memory_update : StreamsService → ℕ → StreamUpdateChanges → ℕ → DbResult Stream × StreamsService
unfolding changed
memory_update s id changes now = elim (Dict.get id s.streams_by_id) [
  | none ↦ (failed, s)
  | some old ↦
      let new = changed old changes now in
      (ok new, record s { streams_by_id = Dict.set id new s.streams_by_id })
]

pub memory_call : StreamsService → Call → Answer × StreamsService
memory_call s (creates user_id name description visibility now) =
    let r = Streams.create (λ text. text) s user_id name description visibility now in
    (stream (ok r.0), r.1)
memory_call s (finds id) = (found (ok (Dict.get id s.streams_by_id)), s)
memory_call s (updates id changes now) = let r = memory_update s id changes now in (stream r.0, r.1)
memory_call s (deletes id) = let r = Streams.delete s id in (deleted (ok r.0), r.1)

pub database_run : StreamTables → List Call → List Answer
database_run db [] = []
database_run db (c ∷ cs) = let r = database_call db c in r.0 ∷ database_run r.1 cs

pub memory_run : StreamsService → List Call → List Answer
memory_run s [] = []
memory_run s (c ∷ cs) = let r = memory_call s c in r.0 ∷ memory_run r.1 cs
