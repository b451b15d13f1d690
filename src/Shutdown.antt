-- ===== src/Shutdown.antt =====
-- `GracefulShutdown` of xstreamroll-processing/src/lifecycle.ts. `requestShutdown` is cut at its
-- await: a hook is known by its name, and a function below resumes the loop once the hook's promise
-- is settled. The `for` over `this.hooks` reads the array as it then is, by index. `exit` is the
-- handler of the options, which returns: its calls are logged.
pub mod Sequence
mod Tests
use xstream_roll.Shared.{
  ℕ, zero, suc, ◌+◌, String, Bool, true, false, not, Option, none, some, List, [], ◌∷◌, ◌++◌, drop,
  if◌then◌else◌,
}

pub data ShutdownState : Type 0 where
  idle shutting_down done : ShutdownState

pub record GracefulShutdown : Type 0 where
  pub hooks : List String
  pub state : ShutdownState
  -- Whether the loop waits for a hook, and the index of the one after it.
  pub waiting : Bool
  pub next : ℕ
  pub had_error : Bool
  -- Whether the deadline is pending.
  pub timer : Bool
  -- The hooks started and the codes passed to `exit`, oldest first.
  pub started : List String
  pub exits : List ℕ

pub create : GracefulShutdown
create = record {
  hooks = [];
  state = idle;
  waiting = false;
  next = 0;
  had_error = false;
  timer = false;
  started = [];
  exits = [];
}

pub register : GracefulShutdown → String → GracefulShutdown
register s hook = record s { hooks = s.hooks ++ hook ∷ [] }

abbrev pub exit_code : Bool → ℕ
exit_code had_error = if had_error then 1 else 0

-- From the head of the loop to the next await, or to the end.
loop : GracefulShutdown → GracefulShutdown
loop s = elim (drop s.next s.hooks) [
  | [] ↦ record s {
    waiting = false;
    timer = false;
    state = done;
    exits = s.exits ++ exit_code s.had_error ∷ [];
  }
  | hook ∷ _ ↦ record s { waiting = true; next = suc s.next; started = s.started ++ hook ∷ [] }
]

pub request_shutdown : GracefulShutdown → GracefulShutdown
unfolding loop
request_shutdown s = elim s.state [
  | idle ↦ loop (record s { state = shutting_down; timer = true; had_error = false; next = 0 })
  | _ ↦ s
]

-- The promise of the hook is fulfilled, or it throws.
pub hook_settled : GracefulShutdown → Bool → GracefulShutdown
unfolding loop
hook_settled s ok =
    if s.waiting then loop (record s { had_error = if ok then s.had_error else true }) else s

-- The deadline passes, if it is pending.
pub timed_out : GracefulShutdown → GracefulShutdown
timed_out s =
    if s.timer then record s { timer = false; state = done; exits = s.exits ++ 1 ∷ [] } else s

pub data Call : Type 0 where
  registers : String → Call
  requests : Call
  settles : Bool → Call
  times_out : Call

pub step : GracefulShutdown → Call → GracefulShutdown
step s (registers hook) = register s hook
step s requests = request_shutdown s
step s (settles ok) = hook_settled s ok
step s times_out = timed_out s

pub run : GracefulShutdown → List Call → GracefulShutdown
run s [] = s
run s (c ∷ cs) = run (step s c) cs
