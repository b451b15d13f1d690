-- ===== src/Registry/Heartbeats.antt =====
-- What a heartbeat does once `renew` has answered: `startHeartbeat` and the `state` listener.
use xstream_roll.Shared.{
  ℕ, ◌+◌, ◌*◌, ◌/◌, ◌≤◌, ◌≡◌, refl, ap, String, true, false, none, some, [], ◌∷◌, ◌++◌, arith,
  eq_iff, string_key, number_key,
}
use Prim.Native.String
use xstream_roll.Shared.Dict
use xstream_roll.Shared.Dict.{Dict}
use xstream_roll.Locks.Token.{LockToken}
use xstream_roll.Metrics.{Metrics, dec, increment_lock_releases, increment_lock_renewals_failed}
use xstream_roll.Session
use xstream_roll.Session.{
  StreamSession, is_live, errored, idle, running, draining, stopped, transition, emit,
}
use xstream_roll.Registry.{
  Spawned, SessionRegistry, release_called, heartbeat_of, holds_token, on_ended, release_settled,
  has_ended, session_step, schedule_next, count, lost, still_ours, refresh_expiry, fail_live,
  renew_settled,
}

fail_live-ends :
    (message : String) (s : StreamSession)
    → is_live s.state ≡ true
    → has_ended s (fail_live message s) ≡ true
unfolding has_ended fail_live Session.fail transition
fail_live-ends message s live = ground arith

-- The listener of a session that ends, where the stream has a token.
on_ended-evicts :
    (r : SessionRegistry) (x : String) (current : Spawned) (token : LockToken)
    → Dict.get x r.sessions ≡ some current
    → Dict.get x r.lock_tokens ≡ some token
    → (Dict.has x (on_ended r x current.serial).sessions ≡ false)
      × (Dict.has x (on_ended r x current.serial).lock_tokens ≡ false)
      × (Dict.has x (on_ended r x current.serial).heartbeats ≡ false)
      × ((on_ended r x current.serial).lock_calls ≡ r.lock_calls ++ release_called x token ∷ [])
      × ((on_ended r x current.serial).metrics ≡ r.metrics)
unfolding on_ended
on_ended-evicts r x current token e f = ground (
  arith,
  number_key.same_key_iff current.serial current.serial,
  Dict.get-delete_self x r.sessions,
  Dict.get-delete_self x r.lock_tokens,
  Dict.get-delete_self x r.heartbeats,
)

session_step-ends :
    (r : SessionRegistry) (x : String) (f : StreamSession → StreamSession) (current : Spawned)
    → Dict.get x r.sessions ≡ some current
    → has_ended current.session (f current.session) ≡ true
    → session_step r x f
      ≡ on_ended
          (record r {
            sessions = Dict.set x (record current { session = f current.session }) r.sessions;
          })
          x
          current.serial
unfolding session_step
session_step-ends r x f current e ended = rw (e, session_step) (rw ended refl)

-- When the lock manager answers that the lock of a live session is lost, the session leaves the
-- registry with its token and its timer, and its `state` listener nevertheless asks the lock manager
-- to release the token; once that release is answered, the gauge of the active locks has gone down
-- by two for the one lock.
pub lost_lock_releases :
    (r : SessionRegistry) (x uuid : String) (now : ℕ) (current : Spawned) (token : LockToken)
    → Dict.get x r.sessions ≡ some current
    → Dict.get x r.lock_tokens ≡ some token
    → is_live current.session.state ≡ true
    → let r' = renew_settled r x uuid lost now in
      (Dict.has x r'.sessions ≡ false)
      × (Dict.has x r'.lock_tokens ≡ false)
      × (Dict.has x r'.heartbeats ≡ false)
      × (r'.lock_calls ≡ r.lock_calls ++ release_called x token ∷ [])
      × ((release_settled r' true).metrics.active_locks ≡ dec (dec r.metrics.active_locks))
unfolding renew_settled release_settled increment_lock_releases increment_lock_renewals_failed
lost_lock_releases r x uuid now current token e f live =
    let failed = fail_live (String.◌++◌ "lost lock for stream " x) in
    let r₁ = count increment_lock_renewals_failed r in
    let ends =
      session_step-ends r₁ x failed current e
        (fail_live-ends (String.◌++◌ "lost lock for stream " x) current.session live) in
    let evicted =
      on_ended-evicts
        (record r₁ {
          sessions = Dict.set x (record current { session = failed current.session }) r₁.sessions;
        })
        x (record current { session = failed current.session }) token
        (Dict.get-set_self x (record current { session = failed current.session }) r.sessions) f in
    rw ends (
      evicted.0,
      evicted.1,
      evicted.2,
      evicted.3,
      ap (λ (m : Metrics). dec m.active_locks) evicted.4,
    )

-- When the lock manager answers that the lock is still ours, and the token that was renewed is the
-- one that the registry holds, its expiry is moved to the time-to-live from now, the next heartbeat
-- is pending, the sessions stay as they are and nothing is asked of the lock manager.
pub renewed_keeps :
    (r : SessionRegistry) (x : String) (token : LockToken) (now : ℕ)
    → Dict.get x r.lock_tokens ≡ some token
    → let r' = renew_settled r x token.token still_ours now in
      (Dict.get x r'.lock_tokens ≡ some (record token { expires_at = now + r.lock_ttl_ms }))
      × (Dict.get x r'.heartbeats ≡ some token.token)
      × (r'.sessions ≡ r.sessions)
      × (r'.lock_calls ≡ r.lock_calls)
unfolding renew_settled refresh_expiry schedule_next holds_token
renewed_keeps r x token now e = ground (
  arith,
  Dict.get-set_self x (record token { expires_at = now + r.lock_ttl_ms }) r.lock_tokens,
  Dict.get-set_self x token.token r.heartbeats,
  eq_iff token.token token.token,
)

-- The default cadence of the heartbeat, where the time-to-live of a lock is three seconds or more,
-- is accepted by the constructor, is at least a second, and lets three heartbeats fire by the time
-- the lock expires.
pub heartbeat_before_expiry :
    (ttl : ℕ)
    → 3000 ≤ ttl
    → (ms : ℕ) × (heartbeat_of none ttl ≡ some ms) × (1000 ≤ ms) × (ms * 3 ≤ ttl)
unfolding heartbeat_of
heartbeat_before_expiry ttl big = (ttl / 3, ground arith, omega arith, omega arith)
