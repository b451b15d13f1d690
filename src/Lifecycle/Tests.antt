-- ===== src/Lifecycle/Tests.antt =====
-- A session that starts and stops, and one that loses its connection.
use xstream_roll.Shared.{◌≡◌, List, [], ◌∷◌}
use xstream_roll.Lifecycle.{Call, starts, stops, settles, create, run}
use xstream_roll.Lifecycle.Path.{path, run-create-patches}

abbrev calls : List Call
calls = starts ∷ stops ∷ settles ∷ stops ∷ settles ∷ []

run-create-patches_example : (run create calls).patches ≡ path (run create calls).state
run-create-patches_example = run-create-patches calls (tt, (tt, (tt, (tt, (tt, tt)))))
