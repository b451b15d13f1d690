-- ===== src/Live/Rooms/Counted.antt =====
-- The counts of the rooms against the listeners and against what the gateway knows.
use xstream_roll.Shared.{
  All, ◌<◌, ℕ, suc, ◌+◌, ◌-◌, String, ◌≡◌, refl, ap, ◌∙◌, Bool, true, false, lt→ltb, List, [], ◌∷◌,
  ◌++◌, ltb, Bool-cases, inl, inr, arith, if◌then◌else◌, ◌==◌, string_key, eq_iff,
}
use xstream_roll.Shared.Dict
use xstream_roll.Shared.Dict.{Dict}
use xstream_roll.Live.Rooms.{
  Emission, subscribe_emitted, unsubscribe_emitted, connection_lost, Rooms, create, count_of,
  subscribe, subscribe_answered, unsubscribe, unsubscribe_answered, joined, is_joined, Use, mounts,
  unmounts, reconnects, use_room, use_rooms, holders,
}

joined-append :
    (room : String) (es : List Emission) (now : Bool) (e : Emission)
    → joined room (es ++ e ∷ []) now ≡ joined room (e ∷ []) (joined room es now)
unfolding joined
joined-append room [] now e = refl
joined-append room (subscribe_emitted other ∷ es) now e = joined-append room es _ e
joined-append room (unsubscribe_emitted other ∷ es) now e = joined-append room es _ e
joined-append room (connection_lost ∷ es) now e = joined-append room es _ e

-- A room is joined just while its count is positive, and the count is the number of its listeners.
abbrev IsCounted : String → ℕ → Rooms → Type 0
IsCounted room n r = (count_of r room ≡ n) × (is_joined r room ≡ ltb 0 n)

use_room-mounts :
    (room other : String) (n : ℕ) (r : Rooms)
    → IsCounted room n r
    → IsCounted room (if other == room then suc n else n) (use_room r (mounts other))
unfolding use_room subscribe subscribe_answered joined
use_room-mounts room other n r h =
    let asked = joined-append room r.emitted false (subscribe_emitted other) in
    elim (Bool-cases (other == room)) [
      | inl e ↦
          let same : count_of r other ≡ count_of r room =
            ap (λ x. count_of r x) ((eq_iff other room).0 e) in
          elim (Bool-cases (ltb 0 (count_of r other))) [
            | inl some_ ↦
                rw (use_room, subscribe, some_, e)
                  (
                    ground (
                      arith,
                      Dict.get-set room other (count_of r other + 1) r.counts,
                      e,
                      same,
                      h.0,
                    ),
                    ground (arith, h.1, h.0, same, some_),
                  )
            | inr none_ ↦
                rw (use_room, subscribe, none_, e)
                  (
                    ground (arith, Dict.get-set room other 1 r.counts, e, same, h.0, none_),
                    asked ∙ rw e (ground arith),
                  )
          ]
      | inr e ↦ elim (Bool-cases (ltb 0 (count_of r other))) [
        | inl some_ ↦
            rw (use_room, subscribe, some_, e)
              (ground (arith, Dict.get-set room other (count_of r other + 1) r.counts, e, h.0), h.1)
        | inr none_ ↦
            rw (use_room, subscribe, none_, e)
              (ground (arith, Dict.get-set room other 1 r.counts, e, h.0), asked ∙ rw e h.1)
      ]
    ]

use_room-unmounts :
    (room other : String) (n : ℕ) (r : Rooms)
    → IsCounted room n r
    → IsCounted room (if other == room then n - 1 else n) (use_room r (unmounts other))
unfolding use_room unsubscribe unsubscribe_answered joined
use_room-unmounts room other n r h =
    let asked = joined-append room r.emitted false (unsubscribe_emitted other) in
    elim (Bool-cases (other == room)) [
      | inl e ↦
          let same : count_of r other ≡ count_of r room =
            ap (λ x. count_of r x) ((eq_iff other room).0 e) in
          elim (Bool-cases (ltb 1 (count_of r other))) [
            | inl some_ ↦
                rw (use_room, unsubscribe, some_, e)
                  (
                    ground (
                      arith,
                      Dict.get-set room other (count_of r other - 1) r.counts,
                      e,
                      same,
                      h.0,
                    ),
                    ground (arith, h.1, h.0, same, some_),
                  )
            | inr none_ ↦
                rw (use_room, unsubscribe, none_, e)
                  (
                    ground (arith, Dict.get-delete room other r.counts, e, same, h.0, none_),
                    asked ∙ rw e (ground (arith, same, none_, h.0)),
                  )
          ]
      | inr e ↦ elim (Bool-cases (ltb 1 (count_of r other))) [
        | inl some_ ↦
            rw (use_room, unsubscribe, some_, e)
              (ground (arith, Dict.get-set room other (count_of r other - 1) r.counts, e, h.0), h.1)
        | inr none_ ↦
            rw (use_room, unsubscribe, none_, e)
              (ground (arith, Dict.get-delete room other r.counts, e, h.0), asked ∙ rw e h.1)
      ]
    ]

-- The connection lasts.
abbrev pub IsKept : Use → Type 0
IsKept (mounts room) = Unit
IsKept (unmounts room) = Unit
IsKept reconnects = ⊥

use_rooms-IsCounted :
    (room : String) (us : List Use) (n : ℕ) (r : Rooms)
    → All IsKept us
    → IsCounted room n r
    → IsCounted room (holders room us n) (use_rooms r us)
unfolding use_rooms holders
use_rooms-IsCounted room [] n r k h = h
use_rooms-IsCounted room (mounts other ∷ us) n r k h =
    use_rooms-IsCounted room us _ (use_room r (mounts other)) k.1 (use_room-mounts room other n r h)
use_rooms-IsCounted room (unmounts other ∷ us) n r k h =
    use_rooms-IsCounted room us _ (use_room r (unmounts other)) k.1
      (use_room-unmounts room other n r h)
use_rooms-IsCounted room (reconnects ∷ us) n r k h = absurd k.0

-- As long as the connection lasts, when each subscription waits for its answer, and all are allowed, the
-- count of a room is the number of its listeners, and by the messages that it got the gateway has the
-- socket in the room just while there is a listener, after any listeners of any rooms have come and gone.
pub use_rooms-create :
    (room : String) (us : List Use)
    → All IsKept us
    → let r = use_rooms create us in
      let n = holders room us 0 in (count_of r room ≡ n) × (is_joined r room ≡ ltb 0 n)
unfolding create joined Dict.get
use_rooms-create room us k = use_rooms-IsCounted room us 0 create k (refl, refl)

mounts-counted :
    (room : String) (r : Rooms)
    → 0 < count_of r room
    → (use_room r (mounts room)).emitted ≡ r.emitted
unfolding use_room subscribe subscribe_answered
mounts-counted room r h = let held : ltb 0 (count_of r room) ≡ true = lt→ltb _ _ h in rw held refl

-- After the connection was lost and made anew, the listeners that there are are still counted, but the
-- gateway does not have the socket in their room, nor does it when another listener comes.
pub reconnects_left :
    (room : String) (us : List Use)
    → All IsKept us
    → 0 < holders room us 0
    → let r = use_room (use_rooms create us) reconnects in
      (count_of r room ≡ holders room us 0)
      × (is_joined r room ≡ false)
      × (is_joined (use_room r (mounts room)) room ≡ false)
unfolding use_room joined
reconnects_left room us k h =
    let before = use_rooms create us in
    let counted = use_rooms-create room us k in
    let r = use_room before reconnects in
    let lost : is_joined r room ≡ false = joined-append room before.emitted false connection_lost in
    let some_ : 0 < count_of before room = omega (arith, counted.0) in
    (counted.0, lost, ap (λ es. joined room es false) (mounts-counted room r some_) ∙ lost)
