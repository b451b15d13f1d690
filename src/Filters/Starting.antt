-- ===== src/Filters/Starting.antt =====
-- A start of a worker's filter, cut at its awaits: `install` reads the hash, and what others do before
-- it has subscribed to the channel reaches it neither by the hash that it has read nor by a message.
use xstream_roll.Shared.{ℕ, zero, suc, String, ◌≡◌, refl, ◌∙◌, none, some, [], arith, string_key}
use xstream_roll.Shared.Dict
use xstream_roll.Shared.Dict.{Dict}
use xstream_roll.Filters.{
  FilterConfig, cleared, Configs, Worker, Cluster, merge, write_hash, change_locally, change_config,
  reconcile,
}
use xstream_roll.Filters.Settling.{merge-get}

-- `install` from the subscription on, with the snapshot that it has read.
pub subscribed : Cluster → String → Configs → Dict String FilterConfig → Cluster
unfolding merge
subscribed c name configs snapshot = record c {
  workers = Dict.set name (record { configs = merge configs snapshot; inbox = [] }) c.workers;
}

-- The reconcile timer fires so many times.
pub reconciled : ℕ → Cluster → String → Cluster
unfolding reconcile
reconciled zero c name = c
reconciled (suc n) c name = reconciled n (reconcile c name) name

merge_present :
    (stream_id : String) (configs snapshot : Configs) (config : FilterConfig)
    → Dict.get stream_id snapshot ≡ some config
    → Dict.get stream_id (merge configs snapshot) ≡ some config
merge_present stream_id configs snapshot config h =
    ground (arith, merge-get snapshot configs stream_id, h)

merge_absent :
    (stream_id : String) (configs snapshot : Configs)
    → Dict.get stream_id snapshot ≡ none
    → Dict.get stream_id (merge configs snapshot) ≡ Dict.get stream_id configs
merge_absent stream_id configs snapshot h = ground (arith, merge-get snapshot configs stream_id, h)

-- The worker has the config, and the hash has not.
abbrev IsStale : Cluster → String → String → FilterConfig → Type 0
IsStale c name stream_id config =
    (Dict.get stream_id c.hash ≡ none)
    × ((w : Worker) × (Dict.get name c.workers ≡ some w)
        × (w.inbox ≡ [])
        × (Dict.get stream_id w.configs ≡ some config))

reconcile-IsStale :
    (c : Cluster) (name stream_id : String) (config : FilterConfig)
    → IsStale c name stream_id config
    → IsStale (reconcile c name) name stream_id config
unfolding reconcile
reconcile-IsStale c name stream_id config h =
    let w = h.1.0 in
    let w' : Worker = record w { configs = merge w.configs c.hash } in
    rw (reconcile, h.1.1)
      (
        h.0,
        (
          w',
          Dict.get-set_self name w' c.workers,
          h.1.2,
          merge_absent stream_id w.configs c.hash h.0 ∙ h.1.3,
        ),
      )

reconciled-IsStale :
    (n : ℕ) (c : Cluster) (name stream_id : String) (config : FilterConfig)
    → IsStale c name stream_id config
    → IsStale (reconciled n c name) name stream_id config
unfolding reconciled
reconciled-IsStale zero c name stream_id config h = h
reconciled-IsStale (suc n) c name stream_id config h =
    reconciled-IsStale n (reconcile c name) name stream_id config
      (reconcile-IsStale c name stream_id config h)

hash-cleared :
    (c : Cluster) (other stream_id : String)
    → Dict.get stream_id (change_config c other (cleared stream_id)).hash ≡ none
unfolding change_config write_hash
hash-cleared c other stream_id =
    Dict.get-delete_self stream_id (change_locally c other (cleared stream_id)).hash

-- If another worker clears the config of a stream while a worker starts, after this one has read the
-- hash and before it has subscribed, the starting worker keeps the config: with no message on its way,
-- however often it reconciles, while the hash has none.
pub start_misses_clear :
    (n : ℕ) (c : Cluster) (name other stream_id : String) (config : FilterConfig)
    → Dict.get stream_id c.hash ≡ some config
    → let c' =
        reconciled n (subscribed (change_config c other (cleared stream_id)) name [] c.hash) name in
      (Dict.get stream_id c'.hash ≡ none)
      × ((w : Worker) × (Dict.get name c'.workers ≡ some w)
          × (w.inbox ≡ [])
          × (Dict.get stream_id w.configs ≡ some config))
unfolding subscribed
start_misses_clear n c name other stream_id config h =
    let after = change_config c other (cleared stream_id) in
    let w : Worker = record { configs = merge [] c.hash; inbox = [] } in
    reconciled-IsStale n (subscribed after name [] c.hash) name stream_id config (
      hash-cleared c other stream_id,
      (w, Dict.get-set_self name w after.workers, refl, merge_present stream_id [] c.hash config h),
    )
