-- ===== src/Filters/Settling.antt =====
-- What the messages on their way to a worker make of its configs.
use xstream_roll.Shared.{
  ◌≡◌, refl, ap, sym, ◌∙◌, inl, inr, ◌⊎◌, String, Option, none, some, List, [], ◌∷◌, ◌++◌, arith,
  ◌==◌, string_key, if◌then◌else◌, Bool-cases,
}
use xstream_roll.Shared.Dict
use xstream_roll.Shared.Dict.{Dict}
use xstream_roll.Filters.{
  FilterConfig, FilterChange, set_to, cleared, Configs, apply_change, merge, Worker, publish,
  write_hash,
}

-- The configs after all changes on their way.
unfoldable pub settled : Configs → List FilterChange → Configs
settled configs [] = configs
settled configs (change ∷ more) = settled (apply_change configs change) more

-- Where a change leaves the config of a stream.
unfoldable pub after : FilterChange → String → Option FilterConfig → Option FilterConfig
after (set_to stream_id config) s old = if stream_id == s then some config else old
after (cleared stream_id) s old = if stream_id == s then none else old

pub apply_change-get :
    (configs : Configs) (change : FilterChange) (s : String)
    → Dict.get s (apply_change configs change) ≡ after change s (Dict.get s configs)
unfolding apply_change after
apply_change-get configs (set_to x config) s = Dict.get-set s x config configs
apply_change-get configs (cleared x) s = Dict.get-delete s x configs

pub write_hash-get :
    (hash : Dict String FilterConfig) (change : FilterChange) (s : String)
    → Dict.get s (write_hash change hash) ≡ after change s (Dict.get s hash)
unfolding write_hash after
write_hash-get hash (set_to x config) s = Dict.get-set s x config hash
write_hash-get hash (cleared x) s = Dict.get-delete s x hash

pub settled-append :
    (more : List FilterChange) (configs : Configs) (change : FilterChange) (s : String)
    → Dict.get s (settled configs (more ++ change ∷ []))
      ≡ after change s (Dict.get s (settled configs more))
unfolding settled
settled-append [] configs change s = apply_change-get configs change s
settled-append (m ∷ more) configs change s = settled-append more (apply_change configs m) change s

-- Configs that find the same are settled to configs that find the same.
pub settled-ext :
    (more : List FilterChange) (a b : Configs) (s : String)
    → Dict.get s a ≡ Dict.get s b
    → Dict.get s (settled a more) ≡ Dict.get s (settled b more)
unfolding settled
settled-ext [] a b s h = h
settled-ext (m ∷ more) a b s h =
    settled-ext more (apply_change a m) (apply_change b m) s
      (apply_change-get a m s ∙ (ap (λ o. after m s o) h ∙ sym (apply_change-get b m s)))

-- A snapshot goes over the configs.
pub merge-get :
    (entries : Dict String FilterConfig) (configs : Configs) (s : String)
    → Dict.get s (merge configs entries)
      ≡ elim (Dict.get s entries) [ none ↦ Dict.get s configs | some config ↦ some config ]
unfolding merge Dict.get
merge-get [] configs s = refl
merge-get ((x, config) ∷ entries) configs s =
    ground (arith, merge-get entries configs s, Dict.get-set s x config (merge configs entries))

pub publish-get :
    (change : FilterChange) (ws : Dict String Worker) (name : String)
    → Dict.get name (publish change ws) ≡ elim (Dict.get name ws) [
      | none ↦ none
      | some w ↦ some (record w { inbox = w.inbox ++ change ∷ [] })
    ]
unfolding publish Dict.get
publish-get change [] name = refl
publish-get change ((x, w) ∷ ws) name = ground (arith, publish-get change ws name)

-- What a change adds to the messages decides over what an earlier local change has done.
pub after-settled :
    (more : List FilterChange) (configs : Configs) (change : FilterChange) (s : String)
    → after change s (Dict.get s (settled (apply_change configs change) more))
      ≡ after change s (Dict.get s (settled configs more))
unfolding after
after-settled more configs (set_to x config) s = ground (
  arith,
  settled-ext more (apply_change configs (set_to x config)) configs s,
  apply_change-get configs (set_to x config) s,
)
after-settled more configs (cleared x) s = ground (
  arith,
  settled-ext more (apply_change configs (cleared x)) configs s,
  apply_change-get configs (cleared x) s,
)

-- The messages either decide over the config of a stream or leave it as it is.
pub settled-cases :
    (more : List FilterChange) (a b : Configs) (s : String)
    → (Dict.get s (settled a more) ≡ Dict.get s (settled b more))
      ⊎ ((Dict.get s (settled a more) ≡ Dict.get s a)
          × (Dict.get s (settled b more) ≡ Dict.get s b))
unfolding settled after
settled-cases [] a b s = inr (refl, refl)
settled-cases (m ∷ more) a b s = elim (settled-cases more (apply_change a m) (apply_change b m) s) [
  | inl same ↦ inl same
  | inr (e, f) ↦ go m (e ∙ apply_change-get a m s) (f ∙ apply_change-get b m s)
]
  where
    go :
        (m : FilterChange)
        → Dict.get s (settled (apply_change a m) more) ≡ after m s (Dict.get s a)
        → Dict.get s (settled (apply_change b m) more) ≡ after m s (Dict.get s b)
        → (Dict.get s (settled (apply_change a m) more)
            ≡ Dict.get s (settled (apply_change b m) more))
          ⊎ ((Dict.get s (settled (apply_change a m) more) ≡ Dict.get s a)
              × (Dict.get s (settled (apply_change b m) more) ≡ Dict.get s b))
    go (set_to x config) e f = elim (Bool-cases (x == s)) [
      | inl hit ↦ inl (ground arith)
      | inr miss ↦ inr (ground arith, ground arith)
    ]
    go (cleared x) e f = elim (Bool-cases (x == s)) [
      | inl hit ↦ inl (ground arith)
      | inr miss ↦ inr (ground arith, ground arith)
    ]

-- A snapshot of the hash does not change what the messages lead to, if that is the hash.
pub merge-settled :
    (more : List FilterChange) (configs : Configs) (hash : Dict String FilterConfig) (s : String)
    → Dict.get s (settled configs more) ≡ Dict.get s hash
    → Dict.get s (settled (merge configs hash) more) ≡ Dict.get s hash
merge-settled more configs hash s h = elim (settled-cases more (merge configs hash) configs s) [
  | inl same ↦ same ∙ h
  | inr (e, f) ↦ ground (arith, merge-get hash configs s)
]

-- A change that comes after a local change decides over what that has done.
pub after-twice :
    (change : FilterChange) (s : String)
    → after change s (Dict.get s (apply_change [] change)) ≡ after change s none
unfolding after Dict.get
after-twice (set_to x config) s = ground (arith, apply_change-get [] (set_to x config) s)
after-twice (cleared x) s = ground (arith, apply_change-get [] (cleared x) s)
