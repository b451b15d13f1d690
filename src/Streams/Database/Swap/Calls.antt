-- ===== src/Streams/Database/Swap/Calls.antt =====
-- Runs of calls on the two repositories.
use xstream_roll.Shared.{
  ℕ, suc, ◌<◌, String, ◌≡◌, refl, sym, ap, ◌∙◌, ◌&&◌, Bool, true, false, not, Option, none, some,
  List, [], ◌∷◌, filter, is_some, All, All-map, append-All, kept-All, Bool-cases, Option-cases, inl,
  inr, arith, ◌==◌, number_key,
}
use xstream_roll.Shared.Dict
use xstream_roll.Shared.Dict.{Dict}
use xstream_roll.Streams
use xstream_roll.Streams.{
  Stream, StreamVisibility, StreamUpdateChanges, StreamsService, create_service, changed,
}
use xstream_roll.Streams.Database
use xstream_roll.Streams.Database.{
  StreamTables, has_id, DbResult, ok, missing, failed, unavailable, first, find_by_id, any_change,
  set_columns,
}
use xstream_roll.Streams.Database.Swap.{
  Call, creates, finds, updates, deletes, stream, found, database_call, memory_update, memory_call,
}
use xstream_roll.Streams.Database.Swap.Mirror.{
  keyed, IsUnique, get-keyed, set-keyed_new, set_columns-absent, set-keyed_old, delete-keyed,
  filter-IsUnique, append-IsUnique, set_columns-All, set_columns-IsUnique, first-set_columns,
}

-- The map is the table by its ids.
abbrev pub IsMirror : StreamTables → StreamsService → Type 0
IsMirror db s =
    (s.streams_by_id ≡ keyed db.streams)
    × (s.next_id ≡ db.next_id)
    × (db.stream_data ≡ [])
    × (db.stream_events ≡ [])
    × IsUnique db.streams
    × All (λ t. t.id < db.next_id) db.streams

-- A stream is created by one of the users, and an update sets something.
abbrev pub IsPlain : List ℕ → Call → Type 0
IsPlain users (creates user_id name description visibility now) = has_id user_id users ≡ true
IsPlain users (finds id) = Unit
IsPlain users (updates id changes now) = any_change changes ≡ true
IsPlain users (deletes id) = Unit

IsStepped : StreamTables → StreamsService → Call → Type 0
IsStepped db s c =
    ((database_call db c).0 ≡ (memory_call s c).0)
    × IsMirror (database_call db c).1 (memory_call s c).1

trimmed-id :
    (description : Option String) → Streams.trimmed (λ text. text) description ≡ description
unfolding Streams.trimmed
trimmed-id none = refl
trimmed-id (some text) = refl

first-none :
    (id : ℕ) (rows : List Stream)
    → first (filter (λ r. r.id == id) rows) ≡ none
    → All (λ r. (r.id == id) ≡ false) rows
first-none id [] h = tt
first-none id (x ∷ xs) h = elim (Bool-cases (x.id == id)) [
  | inl e ↦ absurd (ground (arith, h, e))
  | inr e ↦ (e, first-none id xs (ground (arith, h, e)))
]

and_false : (b : Bool) → (b && false) ≡ false
and_false true = refl
and_false false = refl

got :
    (db : StreamTables) (s : StreamsService) (id : ℕ)
    → IsMirror db s
    → Dict.get id s.streams_by_id ≡ first (filter (λ r. r.id == id) db.streams)
got db s id m = ap (λ d. Dict.get id d) m.0 ∙ get-keyed id db.streams

memory_update-none :
    (s : StreamsService) (id : ℕ) (changes : StreamUpdateChanges) (now : ℕ)
    → Dict.get id s.streams_by_id ≡ none
    → memory_update s id changes now ≡ (failed, s)
unfolding memory_update
memory_update-none s id changes now h = rw (memory_update, h) refl

memory_update-some :
    (s : StreamsService) (id : ℕ) (changes : StreamUpdateChanges) (now : ℕ) (old : Stream)
    → Dict.get id s.streams_by_id ≡ some old
    → memory_update s id changes now ≡ (
      ok (changed old changes now),
      record s { streams_by_id = Dict.set id (changed old changes now) s.streams_by_id },
    )
unfolding memory_update
memory_update-some s id changes now old h = rw (memory_update, h) refl

update-set :
    (db : StreamTables) (id : ℕ) (changes : StreamUpdateChanges) (now : ℕ)
    → any_change changes ≡ true
    → Database.update true db id changes now ≡ (
      Database.found_or_failed
          (first (filter (λ r. r.id == id) (set_columns id changes now db.streams))),
      record db { streams = set_columns id changes now db.streams },
    )
unfolding Database.update
update-set db id changes now plain = rw plain refl

-- What the two make of an update.
IsUpdated : DbResult Stream × StreamTables → DbResult Stream × StreamsService → Type 0
IsUpdated r q = (stream r.0 ≡ stream q.0) × IsMirror r.1 q.1

step-updates :
    (db : StreamTables) (s : StreamsService) (id : ℕ) (changes : StreamUpdateChanges) (now : ℕ)
    → any_change changes ≡ true
    → IsMirror db s
    → IsUpdated (Database.update true db id changes now) (memory_update s id changes now)
unfolding IsUpdated
step-updates db s id changes now plain m =
    elim (Option-cases (first (filter (λ r. r.id == id) db.streams))) [
      | inl gone ↦
          let same = set_columns-absent id changes now db.streams (first-none id db.streams gone) in
          rw
            (
              update-set db id changes now plain,
              memory_update-none s id changes now (got db s id m ∙ gone),
              same,
              gone,
            )
            (refl, m)
      | inr (old, there) ↦
          rw
            (
              update-set db id changes now plain,
              memory_update-some s id changes now old (got db s id m ∙ there),
              first-set_columns id changes now db.streams old there,
            )
            (
              refl,
              (
                ap (λ d. Dict.set id (changed old changes now) d) m.0
                    ∙ set-keyed_old id changes now db.streams old m.4 there,
                m.1,
                m.2,
                m.3,
                set_columns-IsUnique id changes now db.streams m.4,
                set_columns-All (λ n. n < db.next_id) id changes now db.streams m.5,
              ),
            )
    ]

step :
    (db : StreamTables) (s : StreamsService) (c : Call)
    → IsPlain db.users c
    → IsMirror db s
    → IsStepped db s c
unfolding IsStepped IsUpdated database_call memory_call Database.create Streams.create find_by_id
    Database.delete Streams.delete has_id
step db s (creates user_id name description visibility now) plain m =
    let absent : All (λ r. (r.id == db.next_id) ≡ false) db.streams =
      All-map
        (λ r (h : r.id < db.next_id). (let k : (r.id == db.next_id) ≡ false = ground arith in k))
        db.streams m.5 in
    let wider : All (λ r. r.id < suc db.next_id) db.streams =
      All-map (λ r (h : r.id < db.next_id). omega arith) db.streams m.5 in
    rw (IsStepped, database_call, Database.create, plain)
      (
        rw (m.1, trimmed-id description) refl,
        (
          rw (m.0, m.1, trimmed-id description) (set-keyed_new db.next_id _ db.streams refl absent),
          omega (arith, m.1),
          m.2,
          m.3,
          append-IsUnique _ db.streams m.4 m.5,
          append-All (λ r. r.id < suc db.next_id) db.streams _ wider (omega arith, tt),
        ),
      )
step db s (finds id) plain m = (ap (λ o. found (ok o)) (sym (got db s id m)), m)
step db s (updates id changes now) plain m = step-updates db s id changes now plain m
step db s (deletes id) plain m =
    let there = is_some (first (filter (λ r. r.id == id) db.streams)) in
    (
      rw (m.2, m.3, and_false there, got db s id m) refl,
      rw (m.2, m.3, and_false there)
          (
            ap (λ d. Dict.delete id d) m.0 ∙ delete-keyed id db.streams,
            m.1,
            refl,
            refl,
            filter-IsUnique (λ r. not (r.id == id)) db.streams m.4,
            kept-All (λ r. r.id < db.next_id) (λ r. not (r.id == id)) db.streams m.5,
          ),
    )
