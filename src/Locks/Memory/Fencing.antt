-- ===== src/Locks/Memory/Fencing.antt =====
-- Which tokens the in-process lock manager honours.
use xstream_roll.Shared.{
  ℕ, ◌+◌, ◌<◌, String, ◌≡◌, ◌≢◌, ◌↔◌, inl, inr, true, false, some, none, arith, Option-cases,
  Bool-cases, string_key, number_key, eq_iff,
}
use xstream_roll.Shared.Dict
use xstream_roll.Locks.Token.{LockToken}
use xstream_roll.Locks.Memory.{
  MemoryLockManager, MemoryLockEntry, clear_timeout, arm, fresh_token, claim, is_foreign, acquire,
  renew, release, owner_of,
}

-- A claim is refused exactly when another worker holds a lock on the stream that has not run out.
pub acquire-eq-none_iff :
    (m : MemoryLockManager) (s uuid : String) (now : ℕ)
    → ((acquire m s uuid now).0 ≡ none) ↔ (
        (entry : MemoryLockEntry) × (Dict.get s m.locks ≡ some entry)
        × (now < entry.token.expires_at)
        × (entry.token.worker_id ≢ m.worker_id))
unfolding acquire
acquire-eq-none_iff m s uuid now = elim (Option-cases (Dict.get s m.locks)) [
  | inl e ↦ rw (e, acquire) (λ h. cc, λ h. cc)
  | inr (entry, e) ↦ (
    λ h. (
      entry,
      e,
      ground (arith, eq_iff entry.token.worker_id m.worker_id),
      ground (arith, eq_iff entry.token.worker_id m.worker_id),
    ),
    λ h. ground (arith, eq_iff entry.token.worker_id m.worker_id),
  )
]

-- The stream's entry holds `token`, which is the manager's own and runs out at `expiry`.
record Holds (m : MemoryLockManager) (s worker uuid : String) (expiry : ℕ) (token : LockToken)
    : Type 0 where
  entry : MemoryLockEntry
  found : Dict.get s m.locks ≡ some entry
  same : entry.token ≡ token
  own : token.worker_id ≡ worker
  drawn : token.token ≡ uuid
  expiry_is : token.expires_at ≡ expiry

claim-Holds :
    (m m' : MemoryLockManager) (s uuid : String) (now : ℕ) (token : LockToken)
    → claim m s uuid now ≡ (some token, m')
    → Holds m' s m.worker_id uuid (now + m.ttl_ms) token
unfolding claim arm fresh_token
claim-Holds m m' s uuid now token h = record {
  entry = record { token = fresh_token m s uuid now; timer = m.next_timer };
  found = ground (
    arith,
    Dict.get-set_self s (record { token = fresh_token m s uuid now; timer = m.next_timer }) m.locks,
  );
  same = ground arith;
  own = ground arith;
  drawn = ground arith;
  expiry_is = ground arith;
}

acquire-Holds :
    (m m' : MemoryLockManager) (s uuid : String) (now : ℕ) (token : LockToken)
    → acquire m s uuid now ≡ (some token, m')
    → Holds m' s m.worker_id uuid (now + m.ttl_ms) token
unfolding acquire clear_timeout
acquire-Holds m m' s uuid now token h = elim (Option-cases (Dict.get s m.locks)) [
  | inl e ↦ claim-Holds m m' s uuid now token (rw (e, acquire) at h)
  | inr (entry, e) ↦ elim (Bool-cases (is_foreign m entry now)) [
    | inl foreign ↦ ground arith
    | inr ours ↦
        claim-Holds (clear_timeout entry.timer m) m' s uuid now token
          (rw ours at (rw (e, acquire) at h))
  ]
]

-- After a claim that succeeds, the stream is the manager's until `now + ttl_ms`; the new token
-- renews and releases the lock, and a token with another UUID does neither and changes nothing.
pub acquire_fences :
    (m m' : MemoryLockManager) (s uuid : String) (now later : ℕ) (token old : LockToken)
    → acquire m s uuid now ≡ (some token, m')
    → old.token ≢ uuid
    → (owner_of m' s ≡ some m.worker_id)
      × (token.expires_at ≡ now + m.ttl_ms)
      × ((renew m' s token later).0 ≡ true)
      × ((release m' s token).0 ≡ true)
      × (owner_of (release m' s token).1 s ≡ none)
      × (renew m' s old later ≡ (false, m'))
      × (release m' s old ≡ (false, m'))
unfolding acquire renew release owner_of
acquire_fences m m' s uuid now later token old h ne =
    let record {
      entry = entry;
      found = found;
      same = same;
      own = own;
      drawn = drawn;
      expiry_is = expiry;
    } =
      acquire-Holds m m' s uuid now token h in
    let hit = eq_iff entry.token.token token.token in
    let miss = eq_iff entry.token.token old.token in
    (
      ground arith,
      expiry,
      ground (arith, hit),
      ground (arith, hit),
      ground (arith, hit, Dict.get-delete_self s m'.locks),
      ground (arith, miss),
      ground (arith, miss),
    )
