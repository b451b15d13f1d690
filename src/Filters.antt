-- ===== src/Filters.antt =====
-- The event filter of xstreamroll-processing/src/pipeline: `EventFilter` of event-filter.ts and
-- `RedisFilterConfigStore` of event-filter-store.ts. Redis keeps the hash that the workers share and
-- carries the messages of the channel to each, in order. A payload is the change that it parses to.
-- The two calls of Redis in `setConfig` and `clearConfig`, and those of a start, follow one another
-- at once: their overlapping, and a failure of Redis, are not modelled.
pub mod Settling
pub mod Agreement
pub mod Starting
pub mod Wire
mod Tests
use xstream_roll.Shared.{
  ℕ, String, Bool, true, false, not, Option, none, some, List, [], ◌∷◌, ◌++◌, map, ◌==◌, number_key,
  string_key, if◌then◌else◌,
}
use xstream_roll.Shared.Dict
use xstream_roll.Shared.Dict.{Dict}
use xstream_roll.Session.Event.{StreamEvent, Value, text, other}

pub record FilterConfig : Type 0 where
  pub blocked_event_types : List String

pub data FilterChange : Type 0 where
  set_to : String → FilterConfig → FilterChange
  cleared : String → FilterChange

abbrev pub Configs : Type 0
Configs = Dict String FilterConfig

-- `applyChange`.
pub apply_change : Configs → FilterChange → Configs
apply_change configs (set_to stream_id config) = Dict.set stream_id config configs
apply_change configs (cleared stream_id) = Dict.delete stream_id configs

includes : List String → String → Bool
includes [] t = false
includes (u ∷ us) t = if u == t then true else includes us t

-- `event?.data?.["type"]`, where it is a text.
event_type : StreamEvent → Option String
event_type event = elim (Dict.get "type" event.fields) [
  | none ↦ none
  | some value ↦ elim value [ text t ↦ some t | other json ↦ none ]
]

pub allow : Configs → StreamEvent → Bool
unfolding event_type includes
allow configs event = elim (Dict.get event.stream_id configs) [
  | none ↦ true
  | some config ↦ elim (event_type event) [
    | none ↦ true
    | some t ↦ not (includes config.blocked_event_types t)
  ]
]

-- The entries of a snapshot are put over the configs. Their keys are distinct, so their order makes
-- no difference.
pub merge : Configs → Dict String FilterConfig → Configs
merge configs [] = configs
merge configs ((stream_id, config) ∷ entries) = Dict.set stream_id config (merge configs entries)

-- A worker that has subscribed: its configs, and the messages of the channel that are on their way
-- to it, oldest first.
pub record Worker : Type 0 where
  pub configs : Configs
  pub inbox : List FilterChange

-- The hash, and the workers that have subscribed by their names.
pub record Cluster : Type 0 where
  pub hash : Dict String FilterConfig
  pub workers : Dict String Worker

pub create : Cluster
create = record { hash = []; workers = [] }

-- `doStart` with `install`, with no other step between its awaits: the hash is read, then the channel is
-- subscribed to. Filters.Starting cuts it at the awaits.
pub join : Cluster → String → Configs → Cluster
unfolding merge
join c name configs = record c {
  workers = Dict.set name (record { configs = merge configs c.hash; inbox = [] }) c.workers;
}

-- A second start does nothing.
pub start : Cluster → String → Cluster
unfolding join
start c name = if Dict.has name c.workers then c else join c name []

-- `publish`: every worker that has subscribed, the sender too, is sent the message.
pub publish : FilterChange → Dict String Worker → Dict String Worker
publish change [] = []
publish change ((name, w) ∷ ws) =
    (name, record w { inbox = w.inbox ++ change ∷ [] }) ∷ publish change ws

-- What a change does to the hash: `hset` or `hdel`.
pub write_hash : FilterChange → Dict String FilterConfig → Dict String FilterConfig
write_hash (set_to stream_id config) hash = Dict.set stream_id config hash
write_hash (cleared stream_id) hash = Dict.delete stream_id hash

-- The configs of the worker itself, which is started if it was not: a snapshot then goes over them.
pub change_locally : Cluster → String → FilterChange → Cluster
unfolding join apply_change
change_locally c name change = elim (Dict.get name c.workers) [
  | none ↦ join c name (apply_change [] change)
  | some w ↦ record c {
    workers = Dict.set name (record w { configs = apply_change w.configs change }) c.workers;
  }
]

-- `setConfig` and `clearConfig`, with no other step between their awaits: the filter's own configs, then
-- the hash, then the message.
pub change_config : Cluster → String → FilterChange → Cluster
unfolding change_locally publish write_hash
change_config c name change =
    let c' = change_locally c name change in
    record { hash = write_hash change c'.hash; workers = publish change c'.workers }

-- The next message reaches the worker.
pub deliver : Cluster → String → Cluster
unfolding apply_change
deliver c name = elim (Dict.get name c.workers) [
  | none ↦ c
  | some w ↦ elim w.inbox [
    | [] ↦ c
    | change ∷ more ↦ record c {
      workers =
          Dict.set name (record { configs = apply_change w.configs change; inbox = more })
            c.workers;
    }
  ]
]

-- The reconcile timer: a `set` for every entry of the hash, and no `clear`.
pub reconcile : Cluster → String → Cluster
unfolding merge
reconcile c name = elim (Dict.get name c.workers) [
  | none ↦ c
  | some w ↦ record c {
    workers = Dict.set name (record w { configs = merge w.configs c.hash }) c.workers;
  }
]

pub data Call : Type 0 where
  starts : String → Call
  changes : String → FilterChange → Call
  delivers reconciles : String → Call

pub step : Cluster → Call → Cluster
step c (starts name) = start c name
step c (changes name change) = change_config c name change
step c (delivers name) = deliver c name
step c (reconciles name) = reconcile c name

pub run : Cluster → List Call → Cluster
run c [] = c
run c (x ∷ xs) = run (step c x) xs
