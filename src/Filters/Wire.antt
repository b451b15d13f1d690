-- ===== src/Filters/Wire.antt =====
-- The messages of xstreamroll-processing/src/pipeline/event-filter-store.ts: `stringifyFilterPayload`
-- and `parseFilterPayload`. `print` and `read` are those of JSON; `none` is a text that is not JSON.
use xstream_roll.Shared.{
  String, ◌≡◌, refl, Option, none, some, List, [], ◌∷◌, ◌==◌, string_key, if◌then◌else◌,
}
use xstream_roll.Filters.{FilterConfig, FilterChange, set_to, cleared}

mutual
  pub data Json : Type 0 where
    null : Json
    text : String → Json
    array : Items → Json
    object : Fields → Json
    -- A number or a Boolean.
    other : String → Json

  pub data Items : Type 0 where
    end : Items
    item : Json → Items → Items

  pub data Fields : Type 0 where
    nil : Fields
    field : String → Json → Fields → Fields

-- A property that is missing is undefined.
pub property : String → Fields → Option Json
property name nil = none
property name (field key value rest) = if key == name then some value else property name rest

pub texts_of : Items → Option (List String)
texts_of end = some []
texts_of (item (text t) rest) = elim (texts_of rest) [ none ↦ none | some ts ↦ some (t ∷ ts) ]
texts_of (item null rest) = none
texts_of (item (array l) rest) = none
texts_of (item (object l) rest) = none
texts_of (item (other l) rest) = none

-- The config of a payload: whether it is there, and what it says.
pub parse_config : String → Json → Option FilterChange
unfolding property texts_of
parse_config stream_id null = some (cleared stream_id)
parse_config stream_id (text t) = none
parse_config stream_id (array l) = none
parse_config stream_id (other l) = none
parse_config stream_id (object fields) = elim (property "blockedEventTypes" fields) [
  | none ↦ none
  | some value ↦ elim value [
    | array items ↦ elim (texts_of items) [
      | none ↦ none
      | some ts ↦ some (set_to stream_id (record { blocked_event_types = ts }))
    ]
    | _ ↦ none
  ]
]

pub parse_fields : Fields → Option FilterChange
unfolding property parse_config
parse_fields fields = elim (property "streamId" fields) [
  | none ↦ none
  | some id ↦ elim id [
    | text stream_id ↦ elim (property "config" fields) [
      | none ↦ none
      | some config ↦ parse_config stream_id config
    ]
    | _ ↦ none
  ]
]

pub items_of : List String → Items
items_of [] = end
items_of (t ∷ ts) = item (text t) (items_of ts)

pub config_of : Option FilterConfig → Json
unfolding items_of
config_of none = null
config_of (some config) =
    object (field "blockedEventTypes" (array (items_of config.blocked_event_types)) nil)

pub payload_of : String → Option FilterConfig → String → Json
unfolding config_of
payload_of stream_id config from = object (
    field "streamId" (text stream_id)
      (field "config" (config_of config) (field "from" (text from) nil)))

abbrev pub change_of : String → Option FilterConfig → FilterChange
change_of stream_id none = cleared stream_id
change_of stream_id (some config) = set_to stream_id config

texts_of-items_of : (ts : List String) → texts_of (items_of ts) ≡ some ts
unfolding texts_of items_of
texts_of-items_of [] = refl
texts_of-items_of (t ∷ ts) = rw (texts_of-items_of ts) refl

parse_config-config_of :
    (stream_id : String) (config : Option FilterConfig)
    → parse_config stream_id (config_of config) ≡ some (change_of stream_id config)
unfolding parse_config config_of property
parse_config-config_of stream_id none = refl
parse_config-config_of stream_id (some config) =
    rw (parse_config, texts_of-items_of config.blocked_event_types) refl

module _ {Text : Type 0} (print : Json → Text) (read : Text → Option Json) where
  pub stringify_filter_payload : String → Option FilterConfig → String → Text
  unfolding payload_of
  stringify_filter_payload stream_id config from = print (payload_of stream_id config from)

  -- A text that is not JSON makes it throw, which its callers drop like a payload that says nothing.
  pub parse_filter_payload : Text → Option FilterChange
  unfolding parse_fields
  parse_filter_payload raw = elim (read raw) [
    | none ↦ none
    | some json ↦ elim json [ object fields ↦ parse_fields fields | _ ↦ none ]
  ]

  -- What a worker sends of a config that is set or cleared, any worker reads as just that change, if
  -- JSON is read as it was printed.
  pub parse-stringify :
      ((json : Json) → read (print json) ≡ some json)
      → (stream_id from : String) (config : Option FilterConfig)
      → parse_filter_payload (stringify_filter_payload stream_id config from)
        ≡ some (change_of stream_id config)
  unfolding parse_filter_payload stringify_filter_payload payload_of parse_fields property
  parse-stringify reads stream_id from config =
      rw (parse_filter_payload, reads (payload_of stream_id config from))
        (parse_config-config_of stream_id config)
