-- ===== src/Worker/Tests.antt =====
-- A poll of two pages, three routing errors, and the theorems about them.
use xstream_roll.Shared.{
  ℕ, ◌+◌, ◌≤◌, ◌<◌, ◌≡◌, ◌⊎◌, refl, String, false, Option, none, some, List, [], ◌∷◌, length, arith,
  string_key,
}
use xstream_roll.Shared.Dict
use xstream_roll.Metrics.{zeros}
use xstream_roll.Session.Event.{StreamEvent}
use xstream_roll.Registry.{denied, threw, create}
use xstream_roll.Registry.Depth.{total_queue_depth, create-depth}
use xstream_roll.Worker.{
  Worker, Arrival, Page, paged, max_tracked_error_keys, no_errors, evict, oldest, log_route_error,
  events_of, poll_once,
}
use xstream_roll.Worker.Errors.{Failure, run, accounted, run-no_errors-accounts}
use xstream_roll.Worker.Errors.Eviction.{told}
use xstream_roll.Worker.Polling.{poll_once-depth}

abbrev no_dates : String → Option ℕ
no_dates timestamp = none

abbrev idle : Worker
idle = record {
  configs = [];
  registry = create "w1" 2 10 3 3000 zeros;
  route_errors = no_errors;
  requests = [];
  log = [];
}

abbrev event : StreamEvent
event = record { id = none; stream_id = "s"; fields = []; timestamp = "t" }

abbrev arrival : Arrival
arrival = record {
  event = some event;
  before = [];
  during = [];
  acquired = denied;
  id = "id";
  now = 5;
}

abbrev malformed : Arrival
malformed = record arrival { event = none; acquired = threw "down" }

abbrev full_page : Page
full_page = record { shutting_down = false; response = paged (arrival ∷ malformed ∷ []) (some "c") }

abbrev last_page : Page
last_page = record { shutting_down = false; response = paged (arrival ∷ []) none }

poll_once-depth_example :
    total_queue_depth (poll_once no_dates 20 2 idle (full_page ∷ last_page ∷ [])).1.registry
    < 20 + 2
unfolding events_of
poll_once-depth_example =
    poll_once-depth no_dates 20 2 idle (full_page ∷ last_page ∷ [])
      ((omega arith, ((tt, tt), ((tt, tt), tt))), ((omega arith, ((tt, tt), tt)), tt))
      (omega (arith, create-depth "w1" 2 10 3 3000 zeros))

abbrev failures : List Failure
failures =
    ("s", "down", 100000)
    ∷ ("s", "down", 110000)
    ∷ ("t", "down", 120000)
    ∷ ("s", "down", 130000)
    ∷ []

-- Three lines, the last of which tells of a repeat.
told_once :
    (length (run no_errors failures).lines ≡ 3)
    × (told (run no_errors failures).lines ≡ 1)
    × (Dict.size (run no_errors failures).dedupe ≡ 2)
unfolding run no_errors log_route_error evict oldest told Dict.get Dict.set Dict.delete
told_once = (refl, refl, refl)

run-no_errors-accounts_example :
    (Dict.size (run no_errors failures).dedupe ≤ max_tracked_error_keys)
    × (accounted (run no_errors failures) ≤ length failures)
    × ((accounted (run no_errors failures) ≡ length failures)
        ⊎ (Dict.size (run no_errors failures).dedupe ≡ max_tracked_error_keys))
run-no_errors-accounts_example = run-no_errors-accounts failures
