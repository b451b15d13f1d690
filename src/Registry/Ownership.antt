-- ===== src/Registry/Ownership.antt =====
-- A session stands in the registry exactly while its stream's lock is held.
pub mod Histories
use xstream_roll.Shared.{
  ℕ, suc, ◌+◌, ◌≤◌, ◌<◌, ◌≡◌, refl, ◌∙◌, leb, ◌≢◌, inl, inr, String, Bool, true, false, not, List,
  [], ◌∷◌, map, Option, none, some, arith, ◌==◌, Option-cases, Bool-cases, eq_iff, string_key,
  number_key, is_some,
}
use xstream_roll.Shared.Dict
use xstream_roll.Shared.Dict.{Dict}
use xstream_roll.Locks.Token.{LockToken}
use xstream_roll.Metrics.{Metrics}
use xstream_roll.Session
use xstream_roll.Session.{StreamSession}
use xstream_roll.Session.Event.{StreamEvent}
use xstream_roll.Registry.{
  RouteResult, Acquired, granted, denied, threw, Spawned, SessionRegistry, Call, routes, resumes,
  acquire_settles, session_steps, release_settles, ticks, renew_settles, drain_begins,
  drain_finishes, create, holds_token, on_ended, release_settled, has_ended, session_step,
  schedule_next, tick, Renewed, still_ours, lost, renew_threw, refresh_expiry, fail_live,
  renew_settled, spawn, acquire_settled, acquire_deduplicated, enqueue_to, route, route_raced,
  route_spawning, route_resumed, drain_begin, drain_finish, step, run,
}

pub record IsOwned (r : SessionRegistry) : Type 0 where
  -- A stream has a session exactly when it has a lock token.
  pub same : (s : String) → Dict.has s r.sessions ≡ Dict.has s r.lock_tokens
  -- A pending heartbeat is that of the token held now.
  pub beating :
      (s uuid : String) → Dict.get s r.heartbeats ≡ some uuid → holds_token r s uuid ≡ true

create-IsOwned :
    (worker : String) (sessions depth retries ttl : ℕ) (m : Metrics)
    → IsOwned (create worker sessions depth retries ttl m)
unfolding create Dict.get
create-IsOwned worker sessions depth retries ttl m = record {
  same = λ s. refl;
  beating = λ s uuid h. cc;
}

on_ended-IsOwned :
    (r : SessionRegistry) (x : String) (serial : ℕ) → IsOwned r → IsOwned (on_ended r x serial)
unfolding on_ended holds_token
on_ended-IsOwned r x serial v = record {
  same = λ s. ground (
    arith,
    v.same s,
    v.same x,
    eq_iff x s,
    Dict.get-delete s x r.sessions,
    Dict.get-delete s x r.lock_tokens,
  );
  beating = λ s uuid h. ground (
    arith,
    v.same s,
    v.same x,
    v.beating s uuid,
    Dict.get-delete s x r.heartbeats,
    Dict.get-delete s x r.lock_tokens,
  );
}

-- Writing to the session of a stream that has one.
write-IsOwned :
    (r : SessionRegistry) (x : String) (current current' : Spawned)
    → Dict.get x r.sessions ≡ some current
    → IsOwned r
    → IsOwned (record r { sessions = Dict.set x current' r.sessions })
unfolding holds_token
write-IsOwned r x current current' found v = record {
  same = λ s. ground (arith, v.same s, eq_iff x s, Dict.get-set s x current' r.sessions);
  beating = v.beating;
}

session_step-IsOwned :
    (r : SessionRegistry) (x : String) (f : StreamSession → StreamSession)
    → IsOwned r
    → IsOwned (session_step r x f)
unfolding session_step
session_step-IsOwned r x f v = elim (Option-cases (Dict.get x r.sessions)) [
  | inl e ↦ rw (e, session_step) v
  | inr (current, e) ↦
      let w = write-IsOwned r x current (record current { session = f current.session }) e v in
      elim (Bool-cases (has_ended current.session (f current.session))) [
        | inl ended ↦ rw (e, session_step) (rw ended (on_ended-IsOwned _ x current.serial w))
        | inr live ↦ rw (e, session_step) (rw live w)
      ]
]

schedule_next-IsOwned :
    (r : SessionRegistry) (x uuid : String) → IsOwned r → IsOwned (schedule_next r x uuid)
unfolding schedule_next holds_token
schedule_next-IsOwned r x uuid v = record {
  same = λ s. ground (arith, v.same s);
  beating = λ s u h. ground (arith, v.beating s u, eq_iff x s, Dict.get-set s x uuid r.heartbeats);
}

tick-IsOwned : (r : SessionRegistry) (x uuid : String) → IsOwned r → IsOwned (tick r x uuid).1
unfolding tick holds_token
tick-IsOwned r x uuid v = record {
  same = λ s. ground (arith, v.same s);
  beating = λ s u h. ground (arith, v.beating s u, Dict.get-delete s x r.heartbeats);
}

refresh_expiry-IsOwned :
    (r : SessionRegistry) (x uuid : String) (expiry : ℕ)
    → IsOwned r
    → IsOwned (refresh_expiry r x uuid expiry)
unfolding refresh_expiry holds_token
refresh_expiry-IsOwned r x uuid expiry v = elim (Option-cases (Dict.get x r.lock_tokens)) [
  | inl e ↦ rw (e, refresh_expiry) v
  | inr (token, e) ↦
      let at =
        λ (s : String). Dict.get-set s x (record token { expires_at = expiry }) r.lock_tokens in
      record {
        same = λ s. ground (arith, v.same s, eq_iff x s, at s);
        beating = λ s u h. ground (arith, v.beating s u, eq_iff x s, at s);
      }
]

renew_settled-IsOwned :
    (r : SessionRegistry) (x uuid : String) (renewed : Renewed) (now : ℕ)
    → IsOwned r
    → IsOwned (renew_settled r x uuid renewed now)
unfolding renew_settled
renew_settled-IsOwned r x uuid still_ours now v =
    schedule_next-IsOwned _ x uuid
      (refresh_expiry-IsOwned _ x uuid _ (record { same = v.same; beating = v.beating }))
renew_settled-IsOwned r x uuid lost now v =
    session_step-IsOwned _ x _ (record { same = v.same; beating = v.beating })
renew_settled-IsOwned r x uuid (renew_threw message) now v = schedule_next-IsOwned r x uuid v

acquire_deduplicated-IsOwned :
    (r : SessionRegistry) (x : String) → IsOwned r → IsOwned (acquire_deduplicated r x).1
unfolding acquire_deduplicated holds_token
acquire_deduplicated-IsOwned r x v = record {
  same = λ s. ground (arith, v.same s);
  beating = λ s u h. ground (arith, v.beating s u);
}

get-map :
    (f : Spawned → Spawned) (s : String) (m : Dict String Spawned)
    → Dict.has s (map (λ (b : String × Spawned). (b.0, f b.1)) m) ≡ Dict.has s m
unfolding Dict.get
get-map f s [] = refl
get-map f s ((j, x) ∷ m) = ground (arith, get-map f s m)

pub holds_token-set :
    (r : SessionRegistry) (x : String) (token : LockToken)
    → holds_token (record r { lock_tokens = Dict.set x token r.lock_tokens }) x token.token ≡ true
unfolding holds_token
holds_token-set r x token =
    ground (arith, Dict.get-set_self x token r.lock_tokens, eq_iff token.token token.token)

claimed-IsOwned :
    (r : SessionRegistry) (x : String) (token : LockToken) (a b : Spawned) (m : Metrics) (n : ℕ)
    → IsOwned r
    → IsOwned (record r {
      sessions = Dict.set x b (Dict.set x a r.sessions);
      lock_tokens = Dict.set x token r.lock_tokens;
      heartbeats = Dict.set x token.token r.heartbeats;
      metrics = m;
      next_serial = n;
    })
unfolding holds_token
claimed-IsOwned r x token a b m n v = record {
  same = λ s. ground (
    arith,
    v.same s,
    Dict.get-set s x b (Dict.set x a r.sessions),
    Dict.get-set s x a r.sessions,
    Dict.get-set s x token r.lock_tokens,
  );
  beating = λ s u h. ground (
    arith,
    v.beating s u,
    Dict.get-set s x token r.lock_tokens,
    Dict.get-set s x token.token r.heartbeats,
    eq_iff token.token u,
  );
}

-- Empty maps hold nothing.
cleared-IsOwned : (r : SessionRegistry) → IsOwned (drain_finish r)
unfolding drain_finish Dict.get
cleared-IsOwned r = record { same = λ s. refl; beating = λ s uuid h. cc }
