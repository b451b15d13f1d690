-- ===== src/Filters/Tests.antt =====
-- Two workers, one of which blocks a type of event.
use xstream_roll.Shared.{◌≡◌, refl, Option, false, none, some, List, [], ◌∷◌, string_key}
use xstream_roll.Shared.Dict
use xstream_roll.Session.Event.{StreamEvent, text}
use xstream_roll.Filters.{
  FilterConfig, set_to, cleared, Cluster, Worker, Call, starts, changes, delivers, reconciles,
  create, start, join, merge, change_config, change_locally, publish, write_hash, apply_change,
  deliver, reconcile, allow, event_type, includes, step, run,
}
use xstream_roll.Filters.Agreement.{run-create-agrees}
use xstream_roll.Filters.Starting.{subscribed, reconciled, start_misses_clear}
use xstream_roll.Filters.Wire.{
  Json, change_of, stringify_filter_payload, parse_filter_payload, parse-stringify,
}

abbrev blocked : FilterConfig
blocked = record { blocked_event_types = "ping" ∷ [] }

abbrev calls : List Call
calls =
    starts "a"
    ∷ changes "b" (set_to "s" blocked)
    ∷ delivers "a"
    ∷ delivers "b"
    ∷ reconciles "a"
    ∷ []

abbrev ping : StreamEvent
ping = record { id = none; stream_id = "s"; fields = ("type", text "ping") ∷ []; timestamp = "t" }

abbrev a : Worker
a = record { configs = ("s", blocked) ∷ []; inbox = [] }

ping_blocked : (Dict.get "a" (run create calls).workers ≡ some a) × (allow a.configs ping ≡ false)
unfolding run step create start join merge change_config change_locally publish write_hash
    apply_change deliver reconcile allow event_type includes Dict.get Dict.set
ping_blocked = (refl, refl)

run-create-agrees_example : allow a.configs ping ≡ allow (run create calls).hash ping
run-create-agrees_example = run-create-agrees calls "a" a ping ping_blocked.0 refl

abbrev shared : Cluster
shared = record { hash = ("s", blocked) ∷ []; workers = [] }

shared_has : Dict.get "s" shared.hash ≡ some blocked
unfolding Dict.get
shared_has = refl

start_misses_clear_example :
    (Dict.get "s"
        (reconciled 2
          (subscribed (change_config shared "b" (cleared "s")) "a" [] shared.hash)
          "a").hash
      ≡ none)
    × ((w : Worker) × (Dict.get "a"
            (reconciled 2
              (subscribed (change_config shared "b" (cleared "s")) "a" [] shared.hash)
              "a").workers
          ≡ some w)
        × (w.inbox ≡ [])
        × (Dict.get "s" w.configs ≡ some blocked))
start_misses_clear_example = start_misses_clear 2 shared "a" "b" "s" blocked shared_has

-- A text is the JSON that it is of.
abbrev as_is : Json → Json
as_is json = json

abbrev readable : Json → Option Json
readable json = some json

parse-stringify_example :
    parse_filter_payload as_is readable
      (stringify_filter_payload as_is readable "s" (some blocked) "a")
    ≡ some (change_of "s" (some blocked))
parse-stringify_example = parse-stringify as_is readable (λ json. refl) "s" "a" (some blocked)
