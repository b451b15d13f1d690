-- ===== src/Locks/Memory/Timers.antt =====
-- The eviction timers of the in-process lock manager and the locks stay in step.
pub mod Armed
use xstream_roll.Shared.{
  ℕ, ◌+◌, ◌≤◌, ◌<◌, String, ◌≡◌, ap, ◌≢◌, List, [], ◌∷◌, inl, inr, none, some, arith, ◌==◌,
  Option-cases, Bool-cases, string_key, number_key, eq_iff,
}
use xstream_roll.Shared.Dict
use xstream_roll.Locks.Token.{LockToken}
use xstream_roll.Locks.Memory.{
  MemoryLockManager, MemoryLockEntry, Timer, Call, acquires, renews, releases, releases_all, fires,
  create, clear_timeout, arm, fresh_token, claim, is_foreign, acquire, renew, release, clear_timers,
  release_all, evict_if_current, fire, step, run,
}
use xstream_roll.Locks.Memory.Timers.Armed.{
  IsArmed, create-IsArmed, IsArmedBut, absent-IsArmedBut, clear_timeout-IsArmedBut, arm-IsArmed,
}

delete-IsArmed :
    (x : String) (m : MemoryLockManager)
    → IsArmedBut x m
    → IsArmed (record m { locks = Dict.delete x m.locks })
delete-IsArmed x m v = record {
  armed = λ s entry h.
      let at = Dict.get-delete s x m.locks in
      v.armed s entry (ground (arith, at)) (λ clash. ground (arith, at, eq_iff x s));
  owned = λ id t h.
      let (entry, found, same, ne) = v.owned id t h in
      (entry, ground (arith, Dict.get-delete t.stream_id x m.locks, eq_iff x t.stream_id), same);
  recent = v.recent;
}

claim-IsArmed :
    (x uuid : String) (now : ℕ) (m : MemoryLockManager)
    → IsArmedBut x m
    → IsArmed (claim m x uuid now).1
unfolding claim fresh_token
claim-IsArmed x uuid now m v = arm-IsArmed x m (fresh_token m x uuid now) v

acquire-IsArmed :
    (x uuid : String) (now : ℕ) (m : MemoryLockManager)
    → IsArmed m
    → IsArmed (acquire m x uuid now).1
unfolding acquire
acquire-IsArmed x uuid now m v = elim (Option-cases (Dict.get x m.locks)) [
  | inl e ↦ rw (e, acquire) (claim-IsArmed x uuid now m (absent-IsArmedBut x m v e))
  | inr (entry, e) ↦ elim (Bool-cases (is_foreign m entry now)) [
    | inl foreign ↦ rw (e, acquire) (rw foreign v)
    | inr ours ↦
        rw (e, acquire)
          (rw ours (claim-IsArmed x uuid now _ (clear_timeout-IsArmedBut x m entry v e)))
  ]
]

renew-IsArmed :
    (x : String) (token : LockToken) (now : ℕ) (m : MemoryLockManager)
    → IsArmed m
    → IsArmed (renew m x token now).1
unfolding renew
renew-IsArmed x token now m v = elim (Option-cases (Dict.get x m.locks)) [
  | inl e ↦ rw (e, renew) v
  | inr (entry, e) ↦ elim (Bool-cases (entry.token.token == token.token)) [
    | inl ours ↦
        rw (e, renew)
          (rw ours (
            arm-IsArmed x _ (record token { expires_at = now + m.ttl_ms })
              (clear_timeout-IsArmedBut x m entry v e)))
    | inr stale ↦ rw (e, renew) (rw stale v)
  ]
]

release-IsArmed :
    (x : String) (token : LockToken) (m : MemoryLockManager)
    → IsArmed m
    → IsArmed (release m x token).1
unfolding release
release-IsArmed x token m v = elim (Option-cases (Dict.get x m.locks)) [
  | inl e ↦ rw (e, release) v
  | inr (entry, e) ↦ elim (Bool-cases (entry.token.token == token.token)) [
    | inl ours ↦
        rw (e, release) (rw ours (delete-IsArmed x _ (clear_timeout-IsArmedBut x m entry v e)))
    | inr stale ↦ rw (e, release) (rw stale v)
  ]
]

clear_timers_kept :
    (entries : Dict.Dict String MemoryLockEntry) (timers : Dict.Dict ℕ Timer) (id : ℕ) (t : Timer)
    → Dict.get id (clear_timers entries timers) ≡ some t
    → (Dict.get id timers ≡ some t)
      × ((s : String) (entry : MemoryLockEntry)
          → Dict.get s entries ≡ some entry
          → entry.timer ≢ id)
unfolding clear_timers Dict.get
clear_timers_kept [] timers id t h = (h, λ s entry e. cc)
clear_timers_kept ((j, other) ∷ entries) timers id t h =
    let (kept, rest) = clear_timers_kept entries (Dict.delete other.timer timers) id t h in
    let at = Dict.get-delete id other.timer timers in
    (
      ground (arith, at),
      λ s entry e. elim (Bool-cases (j == s)) [
        | inl here ↦ λ clash. ground (arith, at)
        | inr later ↦ rest s entry (ground arith)
      ],
    )

release_all-IsArmed : (m : MemoryLockManager) → IsArmed m → IsArmed (release_all m)
unfolding release_all Dict.get
release_all-IsArmed m v = record {
  armed = λ s entry h. cc;
  owned = λ id t h.
      let (kept, cleared) = clear_timers_kept m.locks m.timers id t h in
      let (entry, found, same) = v.owned id t kept in absurd (cleared t.stream_id entry found same);
  recent = λ id t h. v.recent id t (clear_timers_kept m.locks m.timers id t h).0;
}

-- A pending timer evicts the lock that it belongs to.
fire_lem :
    (m : MemoryLockManager) (id : ℕ) (t : Timer)
    → IsArmed m
    → Dict.get id m.timers ≡ some t
    → fire m id ≡ record (clear_timeout id m) { locks = Dict.delete t.stream_id m.locks }
unfolding fire evict_if_current clear_timeout
fire_lem m id t v h =
    let (entry, found, same) = v.owned id t h in
    let pending = v.armed t.stream_id entry found in
    ground (arith, pending, eq_iff entry.token.token t.token)

fire-IsArmed : (m : MemoryLockManager) (id : ℕ) → IsArmed m → IsArmed (fire m id)
unfolding fire
fire-IsArmed m id v = elim (Option-cases (Dict.get id m.timers)) [
  | inl e ↦ rw (e, fire) v
  | inr (t, e) ↦
      let (entry, found, same) = v.owned id t e in
      rw (fire_lem m id t v e) (
        rw (← same)
          (delete-IsArmed t.stream_id _ (clear_timeout-IsArmedBut t.stream_id m entry v found)))
]

-- Every call keeps the locks and their eviction timers in step.
pub step-IsArmed : (m : MemoryLockManager) (c : Call) → IsArmed m → IsArmed (step m c)
unfolding step
step-IsArmed m (acquires x uuid now) v = acquire-IsArmed x uuid now m v
step-IsArmed m (renews x token now) v = renew-IsArmed x token now m v
step-IsArmed m (releases x token) v = release-IsArmed x token m v
step-IsArmed m releases_all v = release_all-IsArmed m v
step-IsArmed m (fires id now) v = grind (arith, fire-IsArmed)

run-IsArmed : (m : MemoryLockManager) (cs : List Call) → IsArmed m → IsArmed (run m cs)
unfolding run
run-IsArmed m [] v = v
run-IsArmed m (c ∷ cs) v = run-IsArmed (step m c) cs (step-IsArmed m c v)

-- After any sequence of calls on a new manager, each lock has its own pending eviction timer, set
-- for the moment at which the lock runs out, each pending timer belongs to a lock, and the next
-- timer's id is above all pending ones.
pub run-create-IsArmed :
    (worker_id : String) (ttl_ms : ℕ) (cs : List Call) → IsArmed (run (create worker_id ttl_ms) cs)
run-create-IsArmed worker_id ttl_ms cs = run-IsArmed _ cs (create-IsArmed worker_id ttl_ms)

-- While a lock has not run out, no firing of any timer evicts it; once it has run out, the firing of
-- its own timer does. Whether the lock was renewed or claimed again makes no difference.
pub fires_evicts :
    (m : MemoryLockManager) (s : String) (entry : MemoryLockEntry) (id now later : ℕ)
    → IsArmed m
    → Dict.get s m.locks ≡ some entry
    → now < entry.token.expires_at
    → entry.token.expires_at ≤ later
    → (Dict.get s (step m (fires id now)).locks ≡ some entry)
      × (Dict.get s (step m (fires entry.timer later)).locks ≡ none)
unfolding step clear_timeout
fires_evicts m s entry id now later v found live over = (
  elim (Option-cases (Dict.get id m.timers)) [
    | inl e ↦ rw (e, step) found
    | inr (t, e) ↦
        let (other, there, same) = v.owned id t e in
        let pending = v.armed t.stream_id other there in
        ground (
          arith,
          pending,
          fire_lem m id t v e,
          Dict.get-delete s t.stream_id m.locks,
          eq_iff t.stream_id s,
          ap (λ k. Dict.get k m.locks),
        )
  ],
  (let pending = v.armed s entry found in
      ground (arith, pending, fire_lem m entry.timer _ v pending, Dict.get-delete_self s m.locks)),
)
