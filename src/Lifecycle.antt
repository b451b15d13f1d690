-- ===== src/Lifecycle.antt =====
-- `SessionLifecycleManager` of xstreamroll-processing/src/session/lifecycle.ts. `start` and `stop`
-- are cut at the await of their first transition; `resuming` is the transition that follows it. The
-- requests to the API go to `patches`, oldest first; whether one succeeds makes no difference.
pub mod Path
mod Tests
use xstream_roll.Shared.{
  ℕ, String, Bool, true, false, ◌||◌, Option, none, some, List, [], ◌∷◌, ◌++◌, ◌==◌, number_key,
  if◌then◌else◌,
}

pub data LifecycleState : Type 0 where
  idle starting active stopping ended error : LifecycleState

abbrev pub rank : LifecycleState → ℕ
rank idle = 0
rank starting = 1
rank active = 2
rank stopping = 3
rank ended = 4
rank error = 5

pub record Patch : Type 0 where
  pub status : LifecycleState
  pub reason : Option String

pub record SessionLifecycleManager : Type 0 where
  pub state : LifecycleState
  pub resuming : Option LifecycleState
  pub patches : List Patch

pub create : SessionLifecycleManager
create = record { state = idle; resuming = none; patches = [] }

-- `transition` up to its await.
pub transition : SessionLifecycleManager → LifecycleState → Option String → SessionLifecycleManager
transition m next reason = record m {
  state = next;
  patches = m.patches ++ record { status = next; reason = reason } ∷ [];
}

-- False where `assertState` throws.
pub start : SessionLifecycleManager → Bool × SessionLifecycleManager
unfolding transition
start m =
    if rank m.state == 0
    then (true, record (transition m starting none) { resuming = some active })
    else (false, m)

pub stop : SessionLifecycleManager → Bool × SessionLifecycleManager
unfolding transition
stop m =
    if rank m.state == 2
    then (true, record (transition m stopping none) { resuming = some ended })
    else (false, m)

-- The request of the first transition is settled, and the second transition follows.
pub first_settled : SessionLifecycleManager → SessionLifecycleManager
unfolding transition
first_settled m = elim m.resuming [
  | none ↦ m
  | some next ↦ record (transition m next none) { resuming = none }
]

pub handle_disconnect : SessionLifecycleManager → Option String → SessionLifecycleManager
unfolding transition
handle_disconnect m message =
    if rank m.state == 4 || rank m.state == 5
    then m
    else transition m error
        (elim message [ none ↦ some "unexpected disconnect" | some text ↦ some text ])

pub data Call : Type 0 where
  starts stops settles : Call
  disconnects : Option String → Call

pub step : SessionLifecycleManager → Call → SessionLifecycleManager
step m starts = (start m).1
step m stops = (stop m).1
step m settles = first_settled m
step m (disconnects message) = handle_disconnect m message

pub run : SessionLifecycleManager → List Call → SessionLifecycleManager
run m [] = m
run m (c ∷ cs) = run (step m c) cs
