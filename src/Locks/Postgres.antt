-- ===== src/Locks/Postgres.antt =====
-- `PostgresLockManager`. The table is a map from `stream_id`, its primary key, to the other columns;
-- each statement of the source is a function on it, since the database runs one statement on a row
-- at a time. `now` is the worker's clock, `Date.now()`, and `db_now` the database's, `NOW()`.
pub mod Exclusive
mod Tests
use xstream_roll.Shared.{
  ℕ, ◌+◌, String, Bool, true, false, not, ◌&&◌, ◌||◌, Option, none, some, List, [], ◌∷◌, ltb, leb,
  if◌then◌else◌, ◌==◌, string_key,
}
use xstream_roll.Shared.Dict
use xstream_roll.Shared.Dict.{Dict}
use xstream_roll.Locks.Token.{LockToken}

pub record Row : Type 0 where
  pub owner_id : String
  pub owner_token : String
  pub expires_at : ℕ

abbrev pub Table : Type 0
Table = Dict String Row

-- The options of one worker's manager.
pub record Worker : Type 0 where
  pub worker_id : String
  pub ttl_ms : ℕ

-- `INSERT … ON CONFLICT (stream_id) DO UPDATE … WHERE … RETURNING`.
upsert : Table → String → Row → ℕ → Option Row × Table
upsert table stream_id excluded db_now = elim (Dict.get stream_id table) [
  | none ↦ (some excluded, Dict.set stream_id excluded table)
  | some row ↦
      if leb row.expires_at db_now || row.owner_id == excluded.owner_id
      then (some excluded, Dict.set stream_id excluded table)
      else (none, table)
]

-- What `acquire` makes of the rows that came back.
claimed : Worker → String → ℕ → Option Row → Option LockToken
claimed w stream_id now none = none
claimed w stream_id now (some row) =
    if not (row.owner_id == w.worker_id)
    then none
    else some (record {
      stream_id = stream_id;
      worker_id = w.worker_id;
      token = row.owner_token;
      expires_at = row.expires_at;
      acquired_at = now;
    })

pub acquire : Worker → Table → String → String → ℕ → ℕ → Option LockToken × Table
unfolding upsert claimed
acquire w table stream_id new_token now db_now =
    let (rows, table') =
      upsert table stream_id
        (record { owner_id = w.worker_id; owner_token = new_token; expires_at = now + w.ttl_ms })
        db_now in
    (claimed w stream_id now rows, table')

-- `WHERE stream_id = … AND owner_id = … AND owner_token = …`.
is_owner : Worker → LockToken → Row → Bool
is_owner w token row = row.owner_id == w.worker_id && row.owner_token == token.token

pub renew : Worker → Table → String → LockToken → ℕ → ℕ → Bool × Table
unfolding is_owner
renew w table stream_id token now db_now = elim (Dict.get stream_id table) [
  | none ↦ (false, table)
  | some row ↦
      if is_owner w token row && ltb db_now row.expires_at
      then (true, Dict.set stream_id (record row { expires_at = now + w.ttl_ms }) table)
      else (false, table)
]

pub release : Worker → Table → String → LockToken → Bool × Table
unfolding is_owner
release w table stream_id token = elim (Dict.get stream_id table) [
  | none ↦ (false, table)
  | some row ↦ if is_owner w token row then (true, Dict.delete stream_id table) else (false, table)
]

pub release_all : Worker → Table → Table
release_all w table = Dict.keep (λ row. not (row.owner_id == w.worker_id)) table

pub data Call : Type 0 where
  -- stream, new UUID, worker's clock, database's clock
  acquires : String → String → ℕ → ℕ → Call
  renews : String → LockToken → ℕ → ℕ → Call
  releases : String → LockToken → Call
  releases_all : Call

-- The workers' calls on the shared table, in the order in which the database runs them.
pub step : Table → Worker × Call → Table
step table (w, acquires s uuid now db_now) = (acquire w table s uuid now db_now).1
step table (w, renews s token now db_now) = (renew w table s token now db_now).1
step table (w, releases s token) = (release w table s token).1
step table (w, releases_all) = release_all w table

pub run : Table → List (Worker × Call) → Table
run table [] = table
run table (c ∷ cs) = run (step table c) cs
