-- ===== src/Locks/Memory.antt =====
-- `MemoryLockManager`. Time is an argument of each call. `setTimeout` puts a timer among those that
-- are pending, `clearTimeout` takes it out, and a pending timer fires once, at its time or later.
pub mod Timers
pub mod Fencing
mod Tests
use xstream_roll.Shared.{
  ℕ, suc, ◌+◌, String, Bool, true, false, not, ◌&&◌, Option, none, some, List, [], ◌∷◌, ltb,
  if◌then◌else◌, ◌==◌, string_key, number_key,
}
use xstream_roll.Shared.Dict
use xstream_roll.Shared.Dict.{Dict}
use xstream_roll.Locks.Token.{LockToken}

pub record MemoryLockEntry : Type 0 where
  pub token : LockToken
  pub timer : ℕ

-- A pending call of `evictIfCurrent`.
pub record Timer : Type 0 where
  pub stream_id : String
  pub token : String
  pub due : ℕ

pub record MemoryLockManager : Type 0 where
  pub worker_id : String
  pub ttl_ms : ℕ
  pub locks : Dict String MemoryLockEntry
  pub timers : Dict ℕ Timer
  pub next_timer : ℕ

pub create : String → ℕ → MemoryLockManager
create worker_id ttl_ms = record {
  worker_id = worker_id;
  ttl_ms = ttl_ms;
  locks = [];
  timers = [];
  next_timer = 0;
}

pub clear_timeout : ℕ → MemoryLockManager → MemoryLockManager
clear_timeout id m = record m { timers = Dict.delete id m.timers }

-- `setTimeout` for the eviction, then `locks.set`.
pub arm : MemoryLockManager → String → LockToken → ℕ → MemoryLockManager
arm m stream_id token due = record m {
  locks = Dict.set stream_id (record { token = token; timer = m.next_timer }) m.locks;
  timers =
      Dict.set m.next_timer (record { stream_id = stream_id; token = token.token; due = due })
        m.timers;
  next_timer = suc m.next_timer;
}

fresh_token : MemoryLockManager → String → String → ℕ → LockToken
fresh_token m stream_id uuid now = record {
  stream_id = stream_id;
  worker_id = m.worker_id;
  token = uuid;
  expires_at = now + m.ttl_ms;
  acquired_at = now;
}

-- The second half of `acquire`, once the claim is allowed.
claim : MemoryLockManager → String → String → ℕ → Option LockToken × MemoryLockManager
unfolding arm fresh_token
claim m stream_id uuid now = (
  some (fresh_token m stream_id uuid now),
  arm m stream_id (fresh_token m stream_id uuid now) (now + m.ttl_ms),
)

-- A worker other than the manager's holds a lock that has not run out.
is_foreign : MemoryLockManager → MemoryLockEntry → ℕ → Bool
is_foreign m entry now =
    ltb now entry.token.expires_at && not (entry.token.worker_id == m.worker_id)

pub acquire : MemoryLockManager → String → String → ℕ → Option LockToken × MemoryLockManager
unfolding is_foreign clear_timeout claim
acquire m stream_id uuid now = elim (Dict.get stream_id m.locks) [
  | none ↦ claim m stream_id uuid now
  | some existing ↦
      if is_foreign m existing now
      then (none, m)
      else claim (clear_timeout existing.timer m) stream_id uuid now
]

pub renew : MemoryLockManager → String → LockToken → ℕ → Bool × MemoryLockManager
unfolding clear_timeout arm
renew m stream_id token now = elim (Dict.get stream_id m.locks) [
  | none ↦ (false, m)
  | some entry ↦
      if entry.token.token == token.token
      then (
        true,
        arm (clear_timeout entry.timer m) stream_id (record token { expires_at = now + m.ttl_ms })
            (now + m.ttl_ms),
      )
      else (false, m)
]

pub release : MemoryLockManager → String → LockToken → Bool × MemoryLockManager
unfolding clear_timeout
release m stream_id token = elim (Dict.get stream_id m.locks) [
  | none ↦ (false, m)
  | some entry ↦
      if entry.token.token == token.token
      then (true, record (clear_timeout entry.timer m) { locks = Dict.delete stream_id m.locks })
      else (false, m)
]

-- The loop of `releaseAll` over the entries.
clear_timers : Dict String MemoryLockEntry → Dict ℕ Timer → Dict ℕ Timer
clear_timers [] timers = timers
clear_timers ((_, entry) ∷ entries) timers = clear_timers entries (Dict.delete entry.timer timers)

pub release_all : MemoryLockManager → MemoryLockManager
release_all m = record m { locks = []; timers = clear_timers m.locks m.timers }

pub evict_if_current : MemoryLockManager → String → String → MemoryLockManager
evict_if_current m stream_id expected = elim (Dict.get stream_id m.locks) [
  | none ↦ m
  | some entry ↦
      if entry.token.token == expected
      then record m { locks = Dict.delete stream_id m.locks }
      else m
]

-- The event loop runs the timer, if nobody has cleared it.
pub fire : MemoryLockManager → ℕ → MemoryLockManager
unfolding evict_if_current clear_timeout
fire m id = elim (Dict.get id m.timers) [
  | none ↦ m
  | some t ↦ evict_if_current (clear_timeout id m) t.stream_id t.token
]

pub owner_of : MemoryLockManager → String → Option String
owner_of m stream_id = elim (Dict.get stream_id m.locks) [
  | none ↦ none
  | some entry ↦ some entry.token.worker_id
]

pub data Call : Type 0 where
  acquires : String → String → ℕ → Call
  renews : String → LockToken → ℕ → Call
  releases : String → LockToken → Call
  releases_all : Call
  -- The timer of this id fires at this time.
  fires : ℕ → ℕ → Call

pub step : MemoryLockManager → Call → MemoryLockManager
step m (acquires stream_id uuid now) = (acquire m stream_id uuid now).1
step m (renews stream_id token now) = (renew m stream_id token now).1
step m (releases stream_id token) = (release m stream_id token).1
step m releases_all = release_all m
step m (fires id now) = elim (Dict.get id m.timers) [
  | none ↦ m
  | some t ↦ if ltb now t.due then m else fire m id
]

pub run : MemoryLockManager → List Call → MemoryLockManager
run m [] = m
run m (c ∷ cs) = run (step m c) cs
