-- ===== src/Locks/Postgres/Tests.antt =====
-- The theorems about the lock table at concrete inputs.
use xstream_roll.Shared.{
  String, ◌≡◌, refl, ◌≢◌, true, false, List, [], ◌∷◌, some, none, arith, eq_iff, string_key,
}
use xstream_roll.Shared.Dict
use xstream_roll.Locks.Token.{LockToken}
use xstream_roll.Locks.Postgres.{
  Table, Worker, Call, acquires, releases_all, acquire, renew, release, run,
}
use xstream_roll.Locks.Postgres.Exclusive.{acquire_exclusive, acquire_takeover}

abbrev token_a : LockToken
token_a = record {
  stream_id = "s";
  worker_id = "w1";
  token = "a";
  expires_at = 130;
  acquired_at = 100;
}

abbrev first : Worker
first = record { worker_id = "w1"; ttl_ms = 30 }

abbrev second : Worker
second = record { worker_id = "w2"; ttl_ms = 30 }

abbrev others_calls : List (Worker × Call)
others_calls =
    (second, acquires "s" "b" 110 112)
    ∷ (second, acquires "t" "c" 110 113)
    ∷ (second, releases_all)
    ∷ []

distinct : ◌≢◌ {A = String} "w2" "w1"
distinct e = ground (arith, eq_iff "w2" "w1")

acquire_exclusive_example :
    let table' = (acquire first [] "s" "a" 100 101).1 in
    (acquire second (run table' others_calls) "s" "d" 120 121 ≡ (none, run table' others_calls))
    × ((renew first (run table' others_calls) "s" token_a 120 121).0 ≡ true)
    × ((release first (run table' others_calls) "s" token_a).0 ≡ true)
unfolding acquire Dict.get Dict.set
acquire_exclusive_example =
    acquire_exclusive first second [] _ "s" "a" "d" 100 101 120 121 token_a others_calls refl
      ((distinct, omega arith), ((distinct, omega arith), (distinct, tt))) distinct (omega arith)

abbrev table : Table
table = ("s", record { owner_id = "w1"; owner_token = "a"; expires_at = 130 }) ∷ []

foreign : ◌≢◌ {A = String} "w1" "w2"
foreign e = ground (arith, eq_iff "w1" "w2")

abbrev first_calls : List (Worker × Call)
first_calls = (first, releases_all) ∷ (first, acquires "s" "c" 145 150) ∷ []

-- The new owner does not get far with the old token either.
acquire_takeover_example :
    let (token, table') = acquire second table "s" "b" 140 131 in
    (token
      ≡ some (record {
        stream_id = "s";
        worker_id = "w2";
        token = "b";
        expires_at = 170;
        acquired_at = 140;
      }))
    × (renew second (run table' first_calls) "s" token_a 140 132 ≡ (false, run table' first_calls))
    × (release second (run table' first_calls) "s" token_a ≡ (false, run table' first_calls))
unfolding Dict.get
acquire_takeover_example =
    acquire_takeover second second table "s" "b" 140 131 140 132
      (record { owner_id = "w1"; owner_token = "a"; expires_at = 130 }) token_a first_calls refl
      (omega arith) (λ e. ground (arith, e, eq_iff "a" "b")) (foreign, ((foreign, omega arith), tt))
