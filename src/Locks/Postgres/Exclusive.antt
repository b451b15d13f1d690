-- ===== src/Locks/Postgres/Exclusive.antt =====
-- The lock table keeps a stream with one worker.
use xstream_roll.Shared.{
  ℕ, ◌+◌, ◌≤◌, ◌<◌, String, ◌≡◌, ◌≢◌, inl, inr, true, false, List, [], ◌∷◌, some, none, arith, ◌==◌,
  Option-cases, Bool-cases, string_key, eq_iff, All,
}
use xstream_roll.Shared.Dict
use xstream_roll.Locks.Token.{LockToken}
use xstream_roll.Locks.Postgres.{
  Row, Table, Worker, Call, acquires, renews, releases, releases_all, upsert, claimed, acquire,
  is_owner, renew, release, release_all, step, run,
}

-- The call is another worker's, and a call that asks for the time comes before `deadline`.
abbrev pub IsRival : String → ℕ → Worker × Call → Type 0
IsRival owner deadline (w, acquires s uuid now db_now) = (w.worker_id ≢ owner) × (db_now < deadline)
IsRival owner deadline (w, _) = w.worker_id ≢ owner

module _ (table : Table) (s : String) (row : Row) (found : Dict.get s table ≡ some row) where
  acquire-rival :
      (w : Worker) (j uuid : String) (now db_now : ℕ)
      → w.worker_id ≢ row.owner_id
      → db_now < row.expires_at
      → Dict.get s (acquire w table j uuid now db_now).1 ≡ some row
  unfolding acquire upsert
  acquire-rival w j uuid now db_now ne live = elim (Bool-cases (j == s)) [
    | inl same ↦ ground (arith, eq_iff j s, eq_iff row.owner_id w.worker_id)
    | inr other ↦
        let kept =
          Dict.get-set s j
            (record { owner_id = w.worker_id; owner_token = uuid; expires_at = now + w.ttl_ms })
            table in
        ground (arith, kept)
  ]

  renew-rival :
      (w : Worker) (j : String) (token : LockToken) (now db_now : ℕ)
      → w.worker_id ≢ row.owner_id
      → Dict.get s (renew w table j token now db_now).1 ≡ some row
  unfolding renew
  renew-rival w j token now db_now ne = elim (Option-cases (Dict.get j table)) [
    | inl e ↦ rw (e, renew) found
    | inr (other, e) ↦ ground (
      arith,
      Dict.get-set s j (record other { expires_at = now + w.ttl_ms }) table,
      eq_iff j s,
      eq_iff row.owner_id w.worker_id,
    )
  ]

  release-rival :
      (w : Worker) (j : String) (token : LockToken)
      → w.worker_id ≢ row.owner_id
      → Dict.get s (release w table j token).1 ≡ some row
  unfolding release
  release-rival w j token ne = elim (Option-cases (Dict.get j table)) [
    | inl e ↦ rw (e, release) found
    | inr (other, e) ↦
        ground (arith, Dict.get-delete s j table, eq_iff j s, eq_iff row.owner_id w.worker_id)
  ]

  release_all-rival :
      (w : Worker) → w.worker_id ≢ row.owner_id → Dict.get s (release_all w table) ≡ some row
  unfolding release_all
  release_all-rival w ne =
      Dict.get-keep s _ table row found (ground (arith, eq_iff row.owner_id w.worker_id))

  step-rival :
      (c : Worker × Call)
      → IsRival row.owner_id row.expires_at c
      → Dict.get s (step table c) ≡ some row
  unfolding step
  step-rival (w, acquires j uuid now db_now) (ne, live) = acquire-rival w j uuid now db_now ne live
  step-rival (w, renews j token now db_now) ne = renew-rival w j token now db_now ne
  step-rival (w, releases j token) ne = release-rival w j token ne
  step-rival (w, releases_all) ne = release_all-rival w ne

run-rival :
    (table : Table) (s : String) (row : Row) (cs : List (Worker × Call))
    → Dict.get s table ≡ some row
    → All (IsRival row.owner_id row.expires_at) cs
    → Dict.get s (run table cs) ≡ some row
unfolding run
run-rival table s row [] found h = found
run-rival table s row (c ∷ cs) found h =
    run-rival (step table c) s row cs (step-rival table s row found c h.0) h.1

acquire_row :
    (w : Worker) (table table' : Table) (s uuid : String) (now db_now : ℕ) (token : LockToken)
    → acquire w table s uuid now db_now ≡ (some token, table')
    → (Dict.get s table'
        ≡ some (record { owner_id = w.worker_id; owner_token = uuid; expires_at = now + w.ttl_ms }))
      × (token.token ≡ uuid)
      × (token.expires_at ≡ now + w.ttl_ms)
unfolding acquire upsert claimed
acquire_row w table table' s uuid now db_now token h =
    let row : Row = record {
      owner_id = w.worker_id;
      owner_token = uuid;
      expires_at = now + w.ttl_ms;
    } in
    let at = Dict.get-set_self s row table in
    let same = eq_iff w.worker_id w.worker_id in
    (ground (arith, at, same), ground (arith, same), ground (arith, same))

-- Whoever has claimed a stream keeps it: whatever other workers call meanwhile, on this stream and
-- on others, as long as the database's clock has not reached the expiry at their claims, the
-- owner's row stands, a claim by another worker before the expiry is refused, and the owner can
-- renew before the expiry and release at any time.
pub acquire_exclusive :
    (w rival : Worker) (table table' : Table) (s uuid uuid' : String) (now db_now : ℕ)
    (later db_later : ℕ) (token : LockToken) (cs : List (Worker × Call))
    → acquire w table s uuid now db_now ≡ (some token, table')
    → All (IsRival w.worker_id token.expires_at) cs
    → rival.worker_id ≢ w.worker_id
    → db_later < token.expires_at
    → (acquire rival (run table' cs) s uuid' later db_later ≡ (none, run table' cs))
      × ((renew w (run table' cs) s token later db_later).0 ≡ true)
      × ((release w (run table' cs) s token).0 ≡ true)
unfolding acquire upsert claimed renew release is_owner
acquire_exclusive w rival table table' s uuid uuid' now db_now later db_later token cs h calls ne
      live =
    let row : Row = record {
      owner_id = w.worker_id;
      owner_token = uuid;
      expires_at = now + w.ttl_ms;
    } in
    let (here, drawn, expiry) = acquire_row w table table' s uuid now db_now token h in
    let kept = run-rival table' s row cs here (rw (← expiry) calls) in
    let hit = eq_iff token.token token.token in
    (
      ground (arith, kept, eq_iff w.worker_id rival.worker_id),
      ground (arith, kept, eq_iff w.worker_id w.worker_id, eq_iff uuid token.token),
      ground (arith, kept, eq_iff w.worker_id w.worker_id, eq_iff uuid token.token),
    )

-- Once the expiry of a lock has come on the database's clock, the next claim takes the stream over, by
-- whichever worker, the former owner included. As long as the new row stands, whatever other workers
-- call on it before its expiry, the old token, which is not the new one's, neither renews nor releases
-- the lock, at any time, and leaves the table as it is.
pub acquire_takeover :
    (w rival : Worker) (table : Table) (s uuid : String) (now db_now later db_later : ℕ) (row : Row)
    (old : LockToken) (cs : List (Worker × Call))
    → Dict.get s table ≡ some row
    → row.expires_at ≤ db_now
    → old.token ≢ uuid
    → All (IsRival rival.worker_id (now + rival.ttl_ms)) cs
    → let (token, table') = acquire rival table s uuid now db_now in
      (token
        ≡ some (record {
          stream_id = s;
          worker_id = rival.worker_id;
          token = uuid;
          expires_at = now + rival.ttl_ms;
          acquired_at = now;
        }))
      × (renew w (run table' cs) s old later db_later ≡ (false, run table' cs))
      × (release w (run table' cs) s old ≡ (false, run table' cs))
unfolding acquire upsert claimed renew release is_owner
acquire_takeover w rival table s uuid now db_now later db_later row old cs found over ne calls =
    let fresh : Row = record {
      owner_id = rival.worker_id;
      owner_token = uuid;
      expires_at = now + rival.ttl_ms;
    } in
    let (token, table') = acquire rival table s uuid now db_now in
    let here : Dict.get s table' ≡ some fresh = ground (arith, Dict.get-set_self s fresh table) in
    let kept = run-rival table' s fresh cs here calls in
    let own = eq_iff rival.worker_id rival.worker_id in
    let other = eq_iff uuid old.token in
    (ground (arith, own), ground (arith, kept, other), ground (arith, kept, other))
