-- ===== src/Registry/Tests.antt =====
-- A run of a registry with room for two sessions, and the theorems about it.
use xstream_roll.Shared.{
  ℕ, ◌≡◌, refl, String, false, Option, none, some, List, [], ◌∷◌, string_key, number_key,
}
use xstream_roll.Shared.Dict
use xstream_roll.Locks.Token.{LockToken}
use xstream_roll.Metrics.{zeros, increment_lock_acquisitions}
use xstream_roll.Session.{running, parked}
use xstream_roll.Session.Event.{StreamEvent}
use xstream_roll.Registry.{
  granted, Spawned, SessionRegistry, lost, still_ours, Call, routes, resumes, acquire_settles,
  create, renew_settled, acquire_settled, acquire_deduplicated, enqueue_to, route, route_spawning,
  route_resumed, step, run,
}
use xstream_roll.Registry.Ownership.{IsOwned}
use xstream_roll.Registry.Ownership.Histories.{run-create-IsOwned}

abbrev no_dates : String → Option ℕ
no_dates timestamp = none

abbrev event : String → String → StreamEvent
event stream_id id = record { id = some id; stream_id = stream_id; fields = []; timestamp = "t" }

abbrev token : String → String → LockToken
token stream_id uuid = record {
  stream_id = stream_id;
  worker_id = "w1";
  token = uuid;
  expires_at = 3000;
  acquired_at = 0;
}

abbrev fresh : SessionRegistry
fresh = create "w1" 2 10 3 3000 zeros

-- "s" gets its lock and a session.
abbrev calls : List Call
calls =
    routes (event "s" "1") 0
    ∷ acquire_settles "s"
    ∷ resumes (event "s" "1") (granted (token "s" "u1")) "id" 1
    ∷ []

abbrev one_session : SessionRegistry
one_session = run no_dates fresh calls

run-create-IsOwned_example : IsOwned one_session
run-create-IsOwned_example = run-create-IsOwned no_dates "w1" 2 10 3 3000 zeros calls

one_session_size : (Dict.size one_session.sessions ≡ 1) × (one_session.max_concurrent_sessions ≡ 2)
unfolding run step create route acquire_deduplicated acquire_settled route_resumed route_spawning
    enqueue_to Dict.get Dict.set
one_session_size = (refl, refl)

no_others : (Dict.get "t" one_session.sessions ≡ none) × (Dict.get "u" one_session.sessions ≡ none)
unfolding run step create route acquire_deduplicated acquire_settled route_resumed route_spawning
    enqueue_to Dict.get Dict.set
no_others = (refl, refl)

abbrev first_waits : SessionRegistry
first_waits = (route no_dates one_session (event "t" "2") 2).1

abbrev second_waits : SessionRegistry
second_waits = (route no_dates first_waits (event "u" "3") 2).1

abbrev first_spawned : SessionRegistry
first_spawned =
    (route_resumed no_dates second_waits (event "t" "2") (granted (token "t" "u2")) "i" 2).1

abbrev second_spawned : SessionRegistry
second_spawned =
    (route_resumed no_dates first_spawned (event "u" "3") (granted (token "u" "u3")) "j" 2).1

abbrev held : Spawned
held = record {
  serial = 0;
  session = record {
    id = "s:id";
    stream_id = "s";
    worker_id = "w1";
    max_queue_depth = 10;
    max_publish_retries = 3;
    state = running;
    queue = [];
    processing = false;
    pump_at = parked;
    effects = [];
  };
}

abbrev holding : SessionRegistry
holding = record (create "w1" 2 10 3 3000 (increment_lock_acquisitions zeros)) {
  sessions = ("s", held) ∷ [];
  lock_tokens = ("s", token "s" "u1") ∷ [];
  heartbeats = ("s", "u1") ∷ [];
}

abbrev lost_it : SessionRegistry
lost_it = renew_settled holding "s" "u1" lost 1000

abbrev renewed : SessionRegistry
renewed = renew_settled holding "s" "u1" still_ours 1000
