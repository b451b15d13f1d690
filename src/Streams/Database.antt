-- ===== src/Streams/Database.antt =====
-- `StreamsDbRepository` of api/src/streams/repository/streams-db.repository.ts over the tables
-- `streams` and `stream_data` of database/schema.sql, with the ids that the foreign keys of `streams` and
-- `stream_events` look at. A statement is a function on the rows, which
-- stand in the order they were inserted in; where SQL leaves the order open, that is the order. `up`
-- says whether the database answers; every error of it but the broken reference becomes a 503. The
-- data of an event is its text, a time is in milliseconds, and the tests for the search and for the
-- tag of a listing come with its predicate.
pub mod Order
pub mod Ingest
pub mod Paging
pub mod Pending
pub mod Search
pub mod Swap
mod Tests
use xstream_roll.Shared.{
  ℕ, suc, ◌-◌, ◌*◌, String, Bool, true, false, not, ◌&&◌, ◌||◌, Option, none, some, List, [], ◌∷◌,
  ◌++◌, map, ltb, leb, filter, take, drop, length, sort_by, is_some, ◌==◌, number_key,
  if◌then◌else◌,
}
use xstream_roll.Streams.{
  Stream, StreamStatus, StreamVisibility, StreamUpdateChanges, StreamListPredicate, inactive,
  private_, is_public, same_status, same_visibility, changed,
}

pub record StreamData : Type 0 where
  pub id : ℕ
  pub stream_id : ℕ
  pub payload : String
  pub timestamp : ℕ

pub record StreamTables : Type 0 where
  -- the ids of the rows of `users`, and the `stream_id` of those of `stream_events`
  pub users : List ℕ
  pub stream_events : List ℕ
  pub streams : List Stream
  pub next_id : ℕ
  pub stream_data : List StreamData
  pub next_data_id : ℕ

-- What a method gives: a value, the 404, the 500, or the 503 of `handleDbError`.
pub data DbResult (A : Type 0) : Type 0 where
  ok : A → DbResult A
  missing failed unavailable : DbResult A

abbrev pub first : {A : Type 0} → List A → Option A
first [] = none
first (x ∷ xs) = some x

abbrev pub last : {A : Type 0} → List A → Option A
last [] = none
last (x ∷ []) = some x
last (x ∷ y ∷ xs) = last (y ∷ xs)

pub has_id : ℕ → List ℕ → Bool
has_id id [] = false
has_id id (x ∷ xs) = x == id || has_id id xs

pub find_by_id : Bool → StreamTables → ℕ → DbResult (Option Stream)
find_by_id up db id =
    if up then ok (first (filter (λ row. row.id == id) db.streams)) else unavailable

-- The conditions of the listing, all of which a row meets.
pub meets : List (Stream → Bool) → Stream → Bool
meets [] row = true
meets (c ∷ cs) row = c row && meets cs row

condition : {A : Type 0} → Option A → (A → Stream → Bool) → List (Stream → Bool)
condition none test = []
condition (some a) test = test a ∷ []

pub conditions : ℕ → StreamListPredicate → List (Stream → Bool)
unfolding condition
conditions viewer p =
    (if p.owner_only then (λ row. row.user_id == viewer) else λ row.
    is_public row.visibility || row.user_id == viewer)
    ∷ (condition p.status (λ x row. same_status row.status x)
        ++ (condition p.visibility (λ v row. same_visibility row.visibility v)
            ++ (condition p.q (λ test row. test row) ++ condition p.tag (λ test row. test row))))

pub record StreamsPage : Type 0 where
  pub items : List Stream
  pub total : ℕ

-- The count and the rows are those of the same conditions. Postgres refuses a negative offset.
pub list_paginated : Bool → StreamTables → ℕ → ℕ → ℕ → StreamListPredicate → DbResult StreamsPage
unfolding meets conditions
list_paginated up db page limit viewer p =
    let rows = filter (meets (conditions viewer p)) db.streams in
    let offset = (page - 1) * limit in
    let answer : StreamsPage = record {
      items = take limit (drop offset (sort_by (λ a b. leb b.created_at a.created_at) rows));
      total = length rows;
    } in
    if up && not (page == 0 && ltb 0 limit) then ok answer else unavailable

-- The user is one of the table.
pub create :
    Bool
    → StreamTables
    → ℕ
    → String
    → Option String
    → Option StreamVisibility
    → ℕ
    → DbResult Stream × StreamTables
unfolding has_id
create up db user_id name description visibility now =
    let row : Stream = record {
      id = db.next_id;
      user_id = user_id;
      name = name;
      description = description;
      status = inactive;
      visibility = elim visibility [ none ↦ private_ | some v ↦ v ];
      created_at = now;
      updated_at = now;
    } in
    if up && has_id user_id db.users
    then (ok row, record db { streams = db.streams ++ row ∷ []; next_id = suc db.next_id })
    else (unavailable, db)

-- Some column is set.
abbrev pub any_change : StreamUpdateChanges → Bool
any_change c = is_some c.name || is_some c.description || is_some c.status || is_some c.visibility

-- `UPDATE streams SET … WHERE id = …`.
pub set_columns : ℕ → StreamUpdateChanges → ℕ → List Stream → List Stream
set_columns id changes now [] = []
set_columns id changes now (row ∷ rows) =
    (if row.id == id then changed row changes now else row) ∷ set_columns id changes now rows

abbrev found_or_failed : Option Stream → DbResult Stream
found_or_failed none = failed
found_or_failed (some row) = ok row

-- Without a column to set, the row is read and left as it is.
pub update : Bool → StreamTables → ℕ → StreamUpdateChanges → ℕ → DbResult Stream × StreamTables
unfolding set_columns
update up db id changes now =
    if not up
    then (unavailable, db)
    else (if not (any_change changes)
        then (found_or_failed (first (filter (λ row. row.id == id) db.streams)), db)
        else (let rows = set_columns id changes now db.streams in
            (
              found_or_failed (first (filter (λ row. row.id == id) rows)),
              record db { streams = rows },
            )))

-- The rows of `stream_data` and of `stream_events` refer to their stream: one that has any is not deleted.
pub delete : Bool → StreamTables → ℕ → DbResult Bool × StreamTables
unfolding has_id
delete up db id =
    let kept = filter (λ row. not (row.id == id)) db.streams in
    let gone = is_some (first (filter (λ row. row.id == id) db.streams)) in
    let referred =
      is_some (first (filter (λ e. e.stream_id == id) db.stream_data))
      || has_id id db.stream_events in
    if not up || gone && referred
    then (unavailable, db)
    else (ok gone, record db { streams = kept })

-- A stream that is not there is a broken reference, which is the 404.
pub insert_pending_event : Bool → StreamTables → ℕ → String → ℕ → DbResult StreamData × StreamTables
insert_pending_event up db stream_id payload timestamp =
    let row : StreamData = record {
      id = db.next_data_id;
      stream_id = stream_id;
      payload = payload;
      timestamp = timestamp;
    } in
    let present = is_some (first (filter (λ t. t.id == stream_id) db.streams)) in
    let taken = record db { next_data_id = suc db.next_data_id } in
    if not up
    then (unavailable, db)
    else (if present
        then (ok row, record taken { stream_data = db.stream_data ++ row ∷ [] })
        else (missing, taken))

pub record Cursor : Type 0 where
  pub timestamp : ℕ
  pub id : ℕ

abbrev pub cursor_of : StreamData → Cursor
cursor_of row = record { timestamp = row.timestamp; id = row.id }

-- `(timestamp, id) > (…, …)`.
abbrev pub is_after : Cursor → StreamData → Bool
is_after c row = ltb c.timestamp row.timestamp || c.timestamp == row.timestamp && ltb c.id row.id

abbrev pub row_le : StreamData → StreamData → Bool
row_le a b = ltb a.timestamp b.timestamp || a.timestamp == b.timestamp && leb a.id b.id

-- `afterClause`.
abbrev pub is_wanted : Option Cursor → StreamData → Bool
is_wanted none row = true
is_wanted (some c) row = is_after c row

pub record PendingPage (Text : Type 0) : Type 0 where
  pub rows : List StreamData
  pub next_cursor : Option Text

module _ {Text : Type 0} (print : Cursor → Text) (parse : Text → Option Cursor) where
  -- The page after a cursor. A full page that is empty, as with the limit 0, has no last row to read.
  pub page_after : StreamTables → ℕ → Option Cursor → DbResult (PendingPage Text)
  page_after db limit after =
      let rows = take limit (sort_by row_le (filter (is_wanted after) db.stream_data)) in
      let page : Option Text → PendingPage Text =
        λ next. record { rows = rows; next_cursor = next } in
      if ltb (length rows) limit then ok (page none) else elim (last rows) [
        | none ↦ unavailable
        | some row ↦ ok (page (some (print (cursor_of row))))
      ]

  -- A cursor that cannot be parsed is an error inside the `try`.
  pub get_pending_events : Bool → StreamTables → ℕ → Option Text → DbResult (PendingPage Text)
  unfolding page_after
  get_pending_events up db limit none = if up then page_after db limit none else unavailable
  get_pending_events up db limit (some text) = elim (parse text) [
    | none ↦ unavailable
    | some c ↦ if up then page_after db limit (some c) else unavailable
  ]
