-- ===== src/Shutdown/Tests.antt =====
-- A shutdown with three hooks, the second of which throws.
use xstream_roll.Shared.{◌≡◌, true, false, List, [], ◌∷◌, ◌++◌, String, map, arith}
use xstream_roll.Shutdown.{
  done, Call, registers, requests, settles, times_out, create, run, exit_code,
}
use xstream_roll.Shutdown.Sequence.{any_threw, all_hooks_run}

abbrev hooks : List String
hooks = "stop poll loop" ∷ "drain sessions" ∷ "release locks" ∷ []

abbrev calls : List Call
calls = registers "drain sessions" ∷ requests ∷ requests ∷ times_out ∷ settles true ∷ []

all_hooks_run_example :
    let s = run create (map registers hooks ++ requests ∷ map settles (true ∷ false ∷ true ∷ [])) in
    (s.started ≡ hooks)
    × (s.state ≡ done)
    × (s.exits ≡ exit_code (any_threw false (true ∷ false ∷ true ∷ [])) ∷ [])
all_hooks_run_example = all_hooks_run hooks (true ∷ false ∷ true ∷ []) (omega arith)
