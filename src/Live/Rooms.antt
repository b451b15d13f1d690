-- ===== src/Live/Rooms.antt =====
-- `subscribeToStream` and `unsubscribeFromStream` of app/lib/websocket.ts, cut at the answer of the
-- gateway. A room is named by its stream. What the gateway sees of the socket is logged.
pub mod Counted
use xstream_roll.Shared.{
  ℕ, zero, suc, ◌+◌, ◌-◌, String, ◌≡◌, refl, ap, ◌∙◌, Bool, true, false, not, Option, none, some,
  List, [], ◌∷◌, ◌++◌, ltb, Bool-cases, Option-cases, inl, inr, arith, if◌then◌else◌, ◌==◌,
  string_key, eq_iff,
}
use xstream_roll.Shared.Dict
use xstream_roll.Shared.Dict.{Dict}

pub data Emission : Type 0 where
  subscribe_emitted unsubscribe_emitted : String → Emission
  -- The connection is lost and made anew; socket.io takes the socket out of its rooms.
  connection_lost : Emission

pub record Rooms : Type 0 where
  pub counts : Dict String ℕ
  pub emitted : List Emission

pub create : Rooms
create = record { counts = []; emitted = [] }

abbrev pub or_zero : Option ℕ → ℕ
or_zero none = 0
or_zero (some n) = n

abbrev pub count_of : Rooms → String → ℕ
count_of r room = or_zero (Dict.get room r.counts)

-- Both say whether they are done at once, and else wait for the gateway.
pub subscribe : Rooms → String → Bool × Rooms
subscribe r room =
    let prev = count_of r room in
    if ltb 0 prev
    then (true, record r { counts = Dict.set room (prev + 1) r.counts })
    else (false, record r { emitted = r.emitted ++ subscribe_emitted room ∷ [] })

pub subscribe_answered : Rooms → String → Bool → Rooms
subscribe_answered r room ok = if ok then record r { counts = Dict.set room 1 r.counts } else r

pub unsubscribe : Rooms → String → Bool × Rooms
unsubscribe r room =
    let prev = count_of r room in
    if ltb 1 prev
    then (true, record r { counts = Dict.set room (prev - 1) r.counts })
    else (false, record r { emitted = r.emitted ++ unsubscribe_emitted room ∷ [] })

pub unsubscribe_answered : Rooms → String → Rooms
unsubscribe_answered r room = record r { counts = Dict.delete room r.counts }

-- Whether the gateway has the socket in the room after these messages, if it answers each with success.
pub joined : String → List Emission → Bool → Bool
joined room [] now = now
joined room (subscribe_emitted other ∷ es) now =
    joined room es (if other == room then true else now)
joined room (unsubscribe_emitted other ∷ es) now =
    joined room es (if other == room then false else now)
joined room (connection_lost ∷ es) now = joined room es false

abbrev pub is_joined : Rooms → String → Bool
is_joined r room = joined room r.emitted false

pub data Use : Type 0 where
  mounts unmounts : String → Use
  reconnects : Use

-- One use that waits for its answer, which is that all is well. Nothing is done about a new connection.
pub use_room : Rooms → Use → Rooms
unfolding subscribe subscribe_answered unsubscribe unsubscribe_answered
use_room r (mounts room) =
    let s = subscribe r room in if s.0 then s.1 else subscribe_answered s.1 room true
use_room r (unmounts room) =
    let s = unsubscribe r room in if s.0 then s.1 else unsubscribe_answered s.1 room
use_room r reconnects = record r { emitted = r.emitted ++ connection_lost ∷ [] }

pub use_rooms : Rooms → List Use → Rooms
unfolding use_room
use_rooms r [] = r
use_rooms r (u ∷ us) = use_rooms (use_room r u) us

-- How many listeners a room has.
unfoldable pub holders : String → List Use → ℕ → ℕ
holders room [] n = n
holders room (mounts other ∷ us) n = holders room us (if other == room then suc n else n)
holders room (unmounts other ∷ us) n = holders room us (if other == room then n - 1 else n)
holders room (reconnects ∷ us) n = holders room us n
