-- ===== src/Locks/Memory/Timers/Armed.antt =====
-- When locks and eviction timers are in step, and what sets one and takes one away.
use xstream_roll.Shared.{
  ℕ, ◌<◌, String, ◌≡◌, ap, ◌≢◌, inl, inr, none, some, arith, ◌==◌, Bool-cases, string_key,
  number_key, eq_iff,
}
use xstream_roll.Shared.Dict
use xstream_roll.Locks.Token.{LockToken}
use xstream_roll.Locks.Memory.{
  MemoryLockManager, MemoryLockEntry, Timer, create, clear_timeout, arm,
}

-- Each lock has its own pending timer, set for the moment at which the lock runs out; each pending
-- timer belongs to a lock.
pub record IsArmed (m : MemoryLockManager) : Type 0 where
  pub armed :
      (s : String) (entry : MemoryLockEntry)
      → Dict.get s m.locks ≡ some entry
      → Dict.get entry.timer m.timers
        ≡ some (record { stream_id = s; token = entry.token.token; due = entry.token.expires_at })
  pub owned :
      (id : ℕ) (t : Timer)
      → Dict.get id m.timers ≡ some t
      → (entry : MemoryLockEntry) × (Dict.get t.stream_id m.locks ≡ some entry) × (entry.timer ≡ id)
  pub recent : (id : ℕ) (t : Timer) → Dict.get id m.timers ≡ some t → id < m.next_timer

pub create-IsArmed : (w : String) (ttl : ℕ) → IsArmed (create w ttl)
unfolding create Dict.get
create-IsArmed w ttl = record { armed = λ s e h. cc; owned = λ i t h. cc; recent = λ i t h. cc }

-- The same, but for the lock of one stream, which has no timer.
pub record IsArmedBut (x : String) (m : MemoryLockManager) : Type 0 where
  pub armed :
      (s : String) (entry : MemoryLockEntry)
      → Dict.get s m.locks ≡ some entry
      → s ≢ x
      → Dict.get entry.timer m.timers
        ≡ some (record { stream_id = s; token = entry.token.token; due = entry.token.expires_at })
  pub owned :
      (id : ℕ) (t : Timer)
      → Dict.get id m.timers ≡ some t
      → (entry : MemoryLockEntry) × (Dict.get t.stream_id m.locks ≡ some entry)
        × (entry.timer ≡ id)
        × (t.stream_id ≢ x)
  pub recent : (id : ℕ) (t : Timer) → Dict.get id m.timers ≡ some t → id < m.next_timer

pub absent-IsArmedBut :
    (x : String) (m : MemoryLockManager) → IsArmed m → Dict.get x m.locks ≡ none → IsArmedBut x m
absent-IsArmedBut x m v e = record {
  armed = λ s entry h _. v.armed s entry h;
  owned = λ id t h.
      let (entry, found, same) = v.owned id t h in
      (entry, found, same, λ clash. cc (ap (λ k. Dict.get k m.locks) clash));
  recent = v.recent;
}

pub clear_timeout-IsArmedBut :
    (x : String) (m : MemoryLockManager) (entry : MemoryLockEntry)
    → IsArmed m
    → Dict.get x m.locks ≡ some entry
    → IsArmedBut x (clear_timeout entry.timer m)
unfolding clear_timeout
clear_timeout-IsArmedBut x m entry v e = record {
  armed = λ s other h ne. ground (
    arith,
    v.armed s other h,
    v.armed x entry e,
    Dict.get-delete other.timer entry.timer m.timers,
  );
  owned = λ id t h.
      let kept : Dict.get id m.timers ≡ some t =
        ground (arith, Dict.get-delete id entry.timer m.timers) in
      let (other, found, same) = v.owned id t kept in
      (
        other,
        found,
        same,
        λ clash.
            ground
              (arith, ap (λ k. Dict.get k m.locks) clash, Dict.get-delete id entry.timer m.timers),
      );
  recent = λ id t h. v.recent id t (ground (arith, Dict.get-delete id entry.timer m.timers));
}

module _ (x : String) (m : MemoryLockManager) (token : LockToken) where
  abbrev armed_entry : MemoryLockEntry
  armed_entry = record { token = token; timer = m.next_timer }

  abbrev armed_timer : Timer
  armed_timer = record { stream_id = x; token = token.token; due = token.expires_at }

  pub arm-IsArmed : IsArmedBut x m → IsArmed (arm m x token token.expires_at)
  unfolding arm
  arm-IsArmed v = record {
    armed = λ s entry h.
        let at = Dict.get-set s x armed_entry m.locks in
        let timer = Dict.get-set entry.timer m.next_timer armed_timer m.timers in
        elim (Bool-cases (x == s)) [
          | inl same ↦ ground (arith, eq_iff x s, at, timer)
          | inr other ↦
              let old : Dict.get s m.locks ≡ some entry = ground (arith, at) in
              let pending = v.armed s entry old (λ clash. ground (arith, eq_iff x s)) in
              ground (arith, pending, v.recent entry.timer _ pending, timer)
        ];
    owned = λ id t h.
        let timer = Dict.get-set id m.next_timer armed_timer m.timers in
        elim (Bool-cases (m.next_timer == id)) [
          | inl same ↦
              let is_new : t ≡ armed_timer = ground (arith, timer) in
              (armed_entry, rw is_new (Dict.get-set_self x armed_entry m.locks), ground arith)
          | inr other ↦
              let (entry, found, same, ne) = v.owned id t (ground (arith, timer)) in
              (
                entry,
                ground
                    (arith, Dict.get-set t.stream_id x armed_entry m.locks, eq_iff x t.stream_id),
                same,
              )
        ];
    recent =
        λ id t h. ground (arith, v.recent id t, Dict.get-set id m.next_timer armed_timer m.timers);
  }
