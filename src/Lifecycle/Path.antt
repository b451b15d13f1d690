-- ===== src/Lifecycle/Path.antt =====
-- The path through the states, and what a disconnect does to it.
use xstream_roll.Shared.{
  ◌<◌, ◌≡◌, refl, sym, ap, ◌∙◌, String, Option, none, some, List, [], ◌∷◌, arith, All,
}
use xstream_roll.Lifecycle.{
  LifecycleState, idle, starting, active, stopping, ended, error, rank, Patch,
  SessionLifecycleManager, Call, starts, stops, settles, disconnects, create, transition, start,
  stop, first_settled, handle_disconnect, step, run,
}

abbrev to : LifecycleState → Patch
to next = record { status = next; reason = none }

-- What is reported on the way to each state.
abbrev pub path : LifecycleState → List Patch
path idle = []
path starting = to starting ∷ []
path active = to starting ∷ to active ∷ []
path stopping = to starting ∷ to active ∷ to stopping ∷ []
path ended = to starting ∷ to active ∷ to stopping ∷ to ended ∷ []
path error = []

-- The transition that is still to follow.
abbrev pub following : LifecycleState → Option LifecycleState
following starting = some active
following stopping = some ended
following _ = none

abbrev pub IsNoDisconnect : Call → Type 0
IsNoDisconnect (disconnects message) = ⊥
IsNoDisconnect _ = Unit {0}

-- A manager on the path.
canonical : LifecycleState → SessionLifecycleManager
canonical at = record { state = at; resuming = following at; patches = path at }

step-canonical :
    (at : LifecycleState) (c : Call)
    → rank at < 5
    → IsNoDisconnect c
    → (next : LifecycleState) × (step (canonical at) c ≡ canonical next) × (rank next < 5)
unfolding step canonical start stop first_settled transition
step-canonical idle starts h ok = (starting, refl, omega arith)
step-canonical idle stops h ok = (idle, refl, omega arith)
step-canonical idle settles h ok = (idle, refl, omega arith)
step-canonical starting starts h ok = (starting, refl, omega arith)
step-canonical starting stops h ok = (starting, refl, omega arith)
step-canonical starting settles h ok = (active, refl, omega arith)
step-canonical active starts h ok = (active, refl, omega arith)
step-canonical active stops h ok = (stopping, refl, omega arith)
step-canonical active settles h ok = (active, refl, omega arith)
step-canonical stopping starts h ok = (stopping, refl, omega arith)
step-canonical stopping stops h ok = (stopping, refl, omega arith)
step-canonical stopping settles h ok = (ended, refl, omega arith)
step-canonical ended starts h ok = (ended, refl, omega arith)
step-canonical ended stops h ok = (ended, refl, omega arith)
step-canonical ended settles h ok = (ended, refl, omega arith)
step-canonical error c h ok = absurd (omega arith)
step-canonical _ (disconnects message) h ok = absurd ok

run-canonical :
    (cs : List Call) (m : SessionLifecycleManager) (at : LifecycleState)
    → m ≡ canonical at
    → rank at < 5
    → All IsNoDisconnect cs
    → (last : LifecycleState) × (run m cs ≡ canonical last)
unfolding run
run-canonical [] m at e h ok = (at, e)
run-canonical (c ∷ cs) m at e h ok =
    let (next, f, h') = step-canonical at c h ok.0 in
    run-canonical cs (step m c) next (ap (λ x. step x c) e ∙ f) h' ok.1

-- Without a disconnect, and however often `start` and `stop` are called meanwhile, the API is told of
-- each state on the path from `starting` over `active` and `stopping` to `ended` once and in this
-- order, up to the state that the manager is in.
pub run-create-patches :
    (cs : List Call) → All IsNoDisconnect cs → (run create cs).patches ≡ path (run create cs).state
unfolding create canonical
run-create-patches cs ok =
    let (last, e) = run-canonical cs create idle refl (omega arith) ok in
    ap (λ (m : SessionLifecycleManager). m.patches) e
    ∙ sym (ap (λ (m : SessionLifecycleManager). path m.state) e)

-- A disconnect while `start` waits for its first request is reported as an error, and then `start`
-- goes on and takes the manager to `active` all the same.
pub disconnect_overwritten :
    (m : SessionLifecycleManager) (message : Option String)
    → m.state ≡ idle
    → let failed = handle_disconnect (start m).1 message in
      (failed.state ≡ error) × ((first_settled failed).state ≡ active)
unfolding start transition first_settled handle_disconnect
disconnect_overwritten m message e = ground arith
