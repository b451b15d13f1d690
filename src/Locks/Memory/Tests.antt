-- ===== src/Locks/Memory/Tests.antt =====
-- Runs of the in-process lock manager, and its theorems at concrete inputs.
use xstream_roll.Shared.{◌≡◌, refl, List, [], ◌∷◌, some, none, string_key, number_key}
use xstream_roll.Shared.Dict
use xstream_roll.Locks.Token.{LockToken}
use xstream_roll.Locks.Memory.{
  MemoryLockManager, MemoryLockEntry, Call, acquires, renews, fires, create, run, step, acquire,
  renew, fire,
}
use xstream_roll.Locks.Memory.Timers.{run-create-IsArmed}
use xstream_roll.Locks.Memory.Timers.Armed.{IsArmed}

abbrev token_a : LockToken
token_a = record {
  stream_id = "s";
  worker_id = "w1";
  token = "a";
  expires_at = 130;
  acquired_at = 100;
}

abbrev token_old : LockToken
token_old = record {
  stream_id = "s";
  worker_id = "w1";
  token = "o";
  expires_at = 110;
  acquired_at = 80;
}

-- Claimed at 100, renewed at 120.
abbrev calls : List Call
calls = acquires "s" "a" 100 ∷ renews "s" token_a 120 ∷ []

abbrev held : MemoryLockManager
held = run (create "w1" 30) calls

abbrev held_entry : MemoryLockEntry
held_entry = record { token = record token_a { expires_at = 150 }; timer = 1 }

-- The first timer was cleared by the renewal; the second evicts.
evictions :
    (Dict.get "s" (step held (fires 0 140)).locks ≡ some held_entry)
    × (Dict.get "s" (step held (fires 1 150)).locks ≡ none)
unfolding run step create acquire renew fire Dict.get Dict.set Dict.delete
evictions = (refl, refl)

run-create-IsArmed_example : IsArmed (run (create "w1" 30) calls)
run-create-IsArmed_example = run-create-IsArmed "w1" 30 calls

abbrev other : MemoryLockManager
other = record held { worker_id = "w2" }
