-- ===== src/Streams/Status.antt =====
-- The statuses of the streams and what goes with their changes.
use xstream_roll.Shared.{
  ℕ, ◌≡◌, ◌≢◌, refl, inl, inr, String, Bool, true, false, none, some, [], ◌∷◌, ◌++◌, arith,
  if◌then◌else◌, Option-cases, number_key,
}
use xstream_roll.Shared.Dict
use xstream_roll.Streams.{
  StreamStatus, inactive, active, error, same_status, Stream, StreamUpdateChanges, webhook,
  broadcast, StreamsService, Refusal, not_found, conflict, refused, validate_status_transition,
  changed, dispatch_status_side_effects, apply_update, update,
}

valid-differs :
    (old next : StreamStatus)
    → validate_status_transition old next ≡ true
    → same_status next old ≡ false
unfolding validate_status_transition
valid-differs inactive next h = ground arith
valid-differs active next h = ground arith
valid-differs error next h = ground arith

module _ (trim : String → String) where
  update_missing :
      (copies : Bool) (s : StreamsService) (id : ℕ) (changes : StreamUpdateChanges) (now : ℕ)
      → Dict.get id s.streams_by_id ≡ none
      → update trim copies s id changes now ≡ (refused not_found, s)
  unfolding update
  update_missing copies s id changes now e = rw (e, update) refl

  update_found :
      (copies : Bool) (s : StreamsService) (id : ℕ) (changes : StreamUpdateChanges) (now : ℕ)
      (stream : Stream)
      → Dict.get id s.streams_by_id ≡ some stream
      → update trim copies s id changes now ≡ elim changes.status [
        | none ↦ apply_update trim copies s id stream changes now
        | some next ↦
            if validate_status_transition stream.status next
            then apply_update trim copies s id stream changes now
            else (refused conflict, s)
      ]
  unfolding update
  update_found copies s id changes now stream e = rw (e, update) refl

  apply_update-updates :
      (copies : Bool) (s : StreamsService) (id : ℕ) (stream : Stream)
      (changes : StreamUpdateChanges) (now : ℕ) (r : Refusal)
      → (apply_update trim copies s id stream changes now).0 ≢ refused r
  unfolding apply_update
  apply_update-updates copies s id stream changes now r h = ground arith

  -- A call of `update` that is refused, for want of the stream or for the change of status, changes
  -- nothing and notifies nobody.
  pub update_refused :
      (copies : Bool) (s : StreamsService) (id : ℕ) (changes : StreamUpdateChanges) (now : ℕ)
      (r : Refusal)
      → (update trim copies s id changes now).0 ≡ refused r
      → (update trim copies s id changes now).1 ≡ s
  update_refused copies s id changes now r h = elim (Option-cases (Dict.get id s.streams_by_id)) [
    | inl e ↦ rw (update_missing copies s id changes now e) refl
    | inr (stream, e) ↦
        let found = update_found copies s id changes now stream e in
        ground (arith, found, apply_update-updates copies s id stream changes now r)
  ]

  apply_update-silent :
      (s : StreamsService) (id : ℕ) (stream : Stream) (changes : StreamUpdateChanges) (now : ℕ)
      → (apply_update trim false s id stream changes now).1.effects ≡ s.effects
  unfolding apply_update changed
  apply_update-silent s id stream changes now = ground arith

  -- Over a repository that hands out its stored objects, no call of `update` ever notifies a webhook
  -- or the gateway, since the old status has been overwritten by the time it is compared.
  pub update_in_place_silent :
      (s : StreamsService) (id : ℕ) (changes : StreamUpdateChanges) (now : ℕ)
      → (update trim false s id changes now).1.effects ≡ s.effects
  update_in_place_silent s id changes now = elim (Option-cases (Dict.get id s.streams_by_id)) [
    | inl e ↦ rw (update_missing false s id changes now e) refl
    | inr (stream, e) ↦
        let found = update_found false s id changes now stream e in
        ground (arith, found, apply_update-silent s id stream changes now)
  ]

  apply_update-notifies :
      (s : StreamsService) (id : ℕ) (stream : Stream) (changes : StreamUpdateChanges) (now : ℕ)
      (next : StreamStatus)
      → changes.status ≡ some next
      → same_status next stream.status ≡ false
      → let s' = (apply_update trim true s id stream changes now).1 in
        (s'.effects ≡ s.effects ++ webhook stream.id next ∷ broadcast stream.id next ∷ [])
        × ((t : Stream) × (Dict.get id s'.streams_by_id ≡ some t) × (t.status ≡ next))
  unfolding apply_update changed dispatch_status_side_effects
  apply_update-notifies s id stream changes now next asks differs =
      rw (asks, apply_update)
        (rw differs (refl, (_, Dict.get-set_self id _ s.streams_by_id, rw asks refl)))

  -- Over a repository that hands out copies, a call of `update` that changes the status of a stream
  -- from one to another that the transitions allow stores the new status and notifies the webhooks and
  -- the gateway, once each.
  pub update_notifies :
      (s : StreamsService) (id : ℕ) (changes : StreamUpdateChanges) (now : ℕ) (stream : Stream)
      (next : StreamStatus)
      → Dict.get id s.streams_by_id ≡ some stream
      → changes.status ≡ some next
      → validate_status_transition stream.status next ≡ true
      → let s' = (update trim true s id changes now).1 in
        (s'.effects ≡ s.effects ++ webhook stream.id next ∷ broadcast stream.id next ∷ [])
        × ((t : Stream) × (Dict.get id s'.streams_by_id ≡ some t) × (t.status ≡ next))
  update_notifies s id changes now stream next e asks valid =
      let differs = valid-differs stream.status next valid in
      let found : update trim true s id changes now
          ≡ apply_update trim true s id stream changes now =
        ground (arith, update_found true s id changes now stream e, asks, valid) in
      rw found (apply_update-notifies s id stream changes now next asks differs)
