-- ===== src/Streams.antt =====
-- `StreamsService` of api/src/streams/streams.service.ts and the repository of
-- api/src/streams/repository/streams.repository.ts. What the service asks of the webhooks and of the
-- gateway when a status changes goes to `effects`. `copies` says of the repository whether the stream
-- that `findById` gives is a copy, as from the Postgres repository, or the stored object itself, as
-- from the in-memory one. `trim` is a parameter. Texts are searched and tags looked up by tests that
-- come in as arguments of the listing.
pub mod Status
pub mod Listing
pub mod Client
pub mod Database
mod Tests
use xstream_roll.Shared.{
  ℕ, suc, ◌-◌, ◌*◌, String, Bool, true, false, not, ◌&&◌, ◌||◌, Option, none, some, List, [], ◌∷◌,
  ◌++◌, ltb, leb, filter, take, drop, length, sort_by, ◌==◌, number_key, if◌then◌else◌,
}
use xstream_roll.Shared.Dict
use xstream_roll.Shared.Dict.{Dict}

pub data StreamStatus : Type 0 where
  inactive active error : StreamStatus

pub data StreamVisibility : Type 0 where
  public private_ : StreamVisibility

abbrev pub status_code : StreamStatus → ℕ
status_code inactive = 0
status_code active = 1
status_code error = 2

abbrev pub same_status : StreamStatus → StreamStatus → Bool
same_status a b = status_code a == status_code b

abbrev pub is_public : StreamVisibility → Bool
is_public public = true
is_public private_ = false

abbrev pub same_visibility : StreamVisibility → StreamVisibility → Bool
same_visibility public v = is_public v
same_visibility private_ v = not (is_public v)

pub record Stream : Type 0 where
  pub id : ℕ
  pub user_id : ℕ
  pub name : String
  pub description : Option String
  pub status : StreamStatus
  pub visibility : StreamVisibility
  pub created_at : ℕ
  pub updated_at : ℕ

pub record StreamUpdateChanges : Type 0 where
  pub name : Option String
  pub description : Option String
  pub status : Option StreamStatus
  pub visibility : Option StreamVisibility

-- The webhook event of a stream, and the broadcast of the gateway, for a new status.
pub data Effect : Type 0 where
  webhook broadcast : ℕ → StreamStatus → Effect

pub record StreamsService : Type 0 where
  pub streams_by_id : Dict ℕ Stream
  pub next_id : ℕ
  pub effects : List Effect

pub create_service : StreamsService
create_service = record { streams_by_id = []; next_id = 1; effects = [] }

-- What the service says no with.
pub data Refusal : Type 0 where
  not_found conflict : Refusal

pub data Result : Type 0 where
  updated : Stream → Result
  refused : Refusal → Result

pub validate_status_transition : StreamStatus → StreamStatus → Bool
validate_status_transition inactive next = same_status next active || same_status next error
validate_status_transition active next = same_status next inactive || same_status next error
validate_status_transition error next = same_status next inactive

value_or : Option String → String → String
value_or none old = old
value_or (some new) old = new

-- `repo.update`, on a stream that is there.
pub changed : Stream → StreamUpdateChanges → ℕ → Stream
unfolding value_or
changed stream changes now = record stream {
  name = value_or changes.name stream.name;
  description = elim changes.description [ none ↦ stream.description | some d ↦ some d ];
  status = elim changes.status [ none ↦ stream.status | some s ↦ s ];
  visibility = elim changes.visibility [ none ↦ stream.visibility | some v ↦ v ];
  updated_at = now;
}

-- `dispatchStatusSideEffects`; each status has its event.
pub dispatch_status_side_effects : StreamsService → Stream → StreamStatus → StreamsService
dispatch_status_side_effects s stream new_status = record s {
  effects = s.effects ++ webhook stream.id new_status ∷ broadcast stream.id new_status ∷ [];
}

module _ (trim : String → String) where
  trimmed : Option String → Option String
  trimmed none = none
  trimmed (some text) = some (trim text)

  pub create :
      StreamsService
      → ℕ
      → String
      → Option String
      → Option StreamVisibility
      → ℕ
      → Stream × StreamsService
  unfolding trimmed
  create s user_id name description visibility now =
      let stream : Stream = record {
        id = s.next_id;
        user_id = user_id;
        name = trim name;
        description = trimmed description;
        status = inactive;
        visibility = elim visibility [ none ↦ private_ | some v ↦ v ];
        created_at = now;
        updated_at = now;
      } in
      (
        stream,
        record s {
          streams_by_id = Dict.set s.next_id stream s.streams_by_id;
          next_id = suc s.next_id;
        },
      )

  -- The part of `update` after its checks. `seen` is the status that the stream of `findById` has by
  -- the end: the old one if it is a copy, the new one if it is the object that was written to.
  apply_update :
      Bool → StreamsService → ℕ → Stream → StreamUpdateChanges → ℕ → Result × StreamsService
  unfolding trimmed changed dispatch_status_side_effects
  apply_update copies s id stream changes now =
      let stored =
        changed stream
          (record changes {
            name = trimmed changes.name;
            description = trimmed changes.description;
          })
          now in
      let s' = record s { streams_by_id = Dict.set id stored s.streams_by_id } in
      let seen = if copies then stream.status else stored.status in
      elim changes.status [
        | none ↦ (updated stored, s')
        | some next ↦ (
          updated stored,
          if not (same_status next seen) then dispatch_status_side_effects s' stored next else s',
        )
      ]

  pub update : Bool → StreamsService → ℕ → StreamUpdateChanges → ℕ → Result × StreamsService
  unfolding apply_update validate_status_transition
  update copies s id changes now = elim (Dict.get id s.streams_by_id) [
    | none ↦ (refused not_found, s)
    | some stream ↦ elim changes.status [
      | none ↦ apply_update copies s id stream changes now
      | some next ↦
          if validate_status_transition stream.status next
          then apply_update copies s id stream changes now
          else (refused conflict, s)
    ]
  ]

-- False is the 404.
pub delete : StreamsService → ℕ → Bool × StreamsService
delete s id =
    (Dict.has id s.streams_by_id, record s { streams_by_id = Dict.delete id s.streams_by_id })

-- The predicate of a listing; the last two are the search and the tag, as tests.
pub record StreamListPredicate : Type 0 where
  pub status : Option StreamStatus
  pub visibility : Option StreamVisibility
  pub owner_only : Bool
  pub q : Option (Stream → Bool)
  pub tag : Option (Stream → Bool)

narrow : {A : Type 0} → Option A → (A → Stream → Bool) → List Stream → List Stream
narrow none test streams = streams
narrow (some a) test streams = filter (test a) streams

pub list_filtered : StreamsService → ℕ → StreamListPredicate → List Stream
unfolding narrow
list_filtered s viewer p =
    let all = narrow p.status (λ x t. same_status t.status x) (Dict.values s.streams_by_id) in
    let seen =
      if p.owner_only
      then filter (λ t. t.user_id == viewer) all
      else filter (λ t. is_public t.visibility || t.user_id == viewer) all in
    let narrowed = narrow p.visibility (λ v t. same_visibility t.visibility v) seen in
    let found = narrow p.q (λ test t. test t) narrowed in
    let tagged = narrow p.tag (λ test t. test t) found in
    sort_by (λ a b. leb b.created_at a.created_at) tagged

pub record PagedStreams : Type 0 where
  pub items : List Stream
  pub total : ℕ
  pub has_more : Bool

-- A page from the first on, of the repository, with what the service makes of it.
pub list_page : StreamsService → ℕ → ℕ → ℕ → StreamListPredicate → PagedStreams
unfolding list_filtered
list_page s page limit viewer p =
    let filtered = list_filtered s viewer p in
    record {
      items = take limit (drop ((page - 1) * limit) filtered);
      total = length filtered;
      has_more = ltb (page * limit) (length filtered);
    }

-- `list` of the service, with the resolved predicate; `none` where the viewer is not one, which is the
-- 404. Before the first page there is nothing.
pub list : StreamsService → ℕ → ℕ → ℕ → StreamListPredicate → Option PagedStreams
unfolding list_page
list s page limit viewer p =
    let listed = list_page s page limit viewer p in
    if viewer == 0 then none else some (if page == 0 then record listed { items = [] } else listed)
