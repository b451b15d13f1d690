-- ===== src/Streams/Database/Ingest.antt =====
-- What inserting events leaves of `stream_data`.
use xstream_roll.Shared.{
  ℕ, suc, ◌+◌, ◌≤◌, ◌<◌, String, ◌≡◌, ◌≢◌, inl, inr, subst, sym, append-nil, length-filter-le, Bool,
  true, List, [], ◌∷◌, ◌++◌, refl, filter, length, All, All-map, append-All, Bool-cases, is_some,
  arith, ◌==◌, number_key,
}
use xstream_roll.Streams.Database.{StreamData, StreamTables, first, insert_pending_event}
use xstream_roll.Streams.Database.Order.{HasDistinctIds}

pub record Arrival : Type 0 where
  pub stream_id : ℕ
  pub payload : String
  pub timestamp : ℕ

abbrev pub arrive : StreamTables → Arrival → StreamTables
arrive db a = (insert_pending_event true db a.stream_id a.payload a.timestamp).1

abbrev pub ingest : StreamTables → List Arrival → StreamTables
ingest db [] = db
ingest db (a ∷ l) = ingest (arrive db a) l

-- The ids are distinct and below the next one.
abbrev pub IsStored : StreamTables → Type 0
IsStored db = HasDistinctIds db.stream_data × All (λ r. r.id < db.next_data_id) db.stream_data

append-HasDistinctIds :
    (n : ℕ) (xs x : List StreamData)
    → HasDistinctIds xs
    → All (λ r. r.id < n) xs
    → length x ≤ 1
    → All (λ r. r.id ≡ n) x
    → HasDistinctIds (xs ++ x)
append-HasDistinctIds n [] [] d b few new = tt
append-HasDistinctIds n [] (x ∷ []) d b few new = (tt, tt)
append-HasDistinctIds n [] (x ∷ y ∷ l) d b few new = absurd (omega (arith, few))
append-HasDistinctIds n (y ∷ ys) x d b few new = (
  append-All (λ r. r.id ≢ y.id) ys x d.0
      (All-map (λ r (e : r.id ≡ n). (let k : r.id ≢ y.id = ground (arith, b.0, e) in k)) x new),
  append-HasDistinctIds n ys x d.1 b.1 few new,
)

prefix-All : (P : StreamData → Type 0) (xs ys : List StreamData) → All P (xs ++ ys) → All P xs
prefix-All P [] ys h = tt
prefix-All P (x ∷ xs) ys h = (h.0, prefix-All P xs ys h.1)

filter-append :
    (p : StreamData → Bool) (xs ys : List StreamData)
    → length (filter p (xs ++ ys)) ≡ length (filter p xs) + length (filter p ys)
filter-append p [] ys = omega arith
filter-append p (x ∷ xs) ys = ground (arith, filter-append p xs ys)

abbrev insert_pending_event_row : StreamTables → Arrival → StreamData
insert_pending_event_row db a = record {
  id = db.next_data_id;
  stream_id = a.stream_id;
  payload = a.payload;
  timestamp = a.timestamp;
}

abbrev has_stream : StreamTables → ℕ → Bool
has_stream db id = is_some (first (filter (λ t. t.id == id) db.streams))

-- A row is added at the end, with the next id, or none.
arrive-cases :
    (db : StreamTables) (a : Arrival)
    → (x : List StreamData) × ((arrive db a).stream_data ≡ db.stream_data ++ x)
      × ((arrive db a).next_data_id ≡ suc db.next_data_id)
      × (length x ≤ 1)
      × All (λ r. r.id ≡ db.next_data_id) x
unfolding insert_pending_event
arrive-cases db a = elim (Bool-cases (has_stream db a.stream_id)) [
  | inl e ↦ (
    (insert_pending_event_row db a) ∷ [],
    ground (arith, e),
    ground (arith, e),
    omega arith,
    (refl, tt),
  )
  | inr e ↦ ([], ground (arith, e, append-nil db.stream_data), ground (arith, e), omega arith, tt)
]

arrive-IsStored : (db : StreamTables) (a : Arrival) → IsStored db → IsStored (arrive db a)
arrive-IsStored db a s =
    let new = arrive-cases db a in
    let n = (arrive db a).next_data_id in
    let olds : All (λ r. r.id < n) db.stream_data =
      All-map (λ r (h : r.id < db.next_data_id). omega (arith, new.2)) db.stream_data s.1 in
    let news : All (λ r. r.id < n) new.0 =
      All-map (λ r (h : r.id ≡ db.next_data_id). omega (arith, new.2)) new.0 new.4 in
    (
      subst (λ l. HasDistinctIds l) (sym new.1)
          (append-HasDistinctIds db.next_data_id db.stream_data new.0 s.0 s.1 new.3 new.4),
      subst (λ l. All (λ r. r.id < n) l) (sym new.1)
          (append-All (λ r. r.id < n) db.stream_data new.0 olds news),
    )

arrive_keeps :
    (P : StreamData → Type 0) (db : StreamTables) (a : Arrival)
    → All P (arrive db a).stream_data
    → All P db.stream_data
arrive_keeps P db a h =
    let new = arrive-cases db a in prefix-All P db.stream_data new.0 (subst (λ l. All P l) new.1 h)

arrive_count :
    (p : StreamData → Bool) (db : StreamTables) (a : Arrival)
    → length (filter p (arrive db a).stream_data) ≤ suc (length (filter p db.stream_data))
arrive_count p db a =
    let new = arrive-cases db a in
    let few = length-filter-le p new.0 in
    let split = filter-append p db.stream_data new.0 in
    subst (λ l. length (filter p l) ≤ suc (length (filter p db.stream_data))) (sym new.1)
      (omega (arith, few, split, new.3))

pub ingest-IsStored : (db : StreamTables) (l : List Arrival) → IsStored db → IsStored (ingest db l)
ingest-IsStored db [] s = s
ingest-IsStored db (a ∷ l) s = ingest-IsStored (arrive db a) l (arrive-IsStored db a s)

-- What holds of all rows afterwards holds of those that were there before.
pub ingest_keeps :
    (P : StreamData → Type 0) (db : StreamTables) (l : List Arrival)
    → All P (ingest db l).stream_data
    → All P db.stream_data
ingest_keeps P db [] h = h
ingest_keeps P db (a ∷ l) h = arrive_keeps P db a (ingest_keeps P (arrive db a) l h)

pub ingest_count :
    (p : StreamData → Bool) (db : StreamTables) (l : List Arrival)
    → length (filter p (ingest db l).stream_data) ≤ length (filter p db.stream_data) + length l
ingest_count p db [] = omega arith
ingest_count p db (a ∷ l) = omega (arith, ingest_count p (arrive db a) l, arrive_count p db a)
