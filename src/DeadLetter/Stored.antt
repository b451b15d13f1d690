-- ===== src/DeadLetter/Stored.antt =====
-- The file holds what a map would.
use xstream_roll.Shared.{
  Bool, true, ◌≡◌, ◌≢◌, refl, ap, ◌∙◌, inl, inr, String, Option, none, some, List, [], ◌∷◌, sort_by,
  ◌&&◌, if◌then◌else◌, ◌==◌, Bool-cases, Option-cases, eq_iff, subst, sym, arith, string_key,
}
use xstream_roll.Shared.Dict
use xstream_roll.Session.Event.{StreamEvent}
use xstream_roll.DeadLetter.{
  FileDeadLetterStore, open_store, DeadLetterRecord, Records, Recording, event_key, upsert, earlier,
  read_records, record_event, list, run,
}

-- The record of a key after a recording of it.
abbrev pub updated : String → Recording → Option DeadLetterRecord → DeadLetterRecord
updated key r none = record {
  key = key;
  stream_id = r.event.stream_id;
  event = r.event;
  error = r.error;
  attempt_count = r.attempts;
  timestamp = r.now;
}
updated key r (some existing) = record existing {
  error = r.error;
  attempt_count = r.attempts;
  timestamp = r.now;
}

upsert-get_self :
    (key : String) (r : Recording) (records : Records)
    → Dict.get key (upsert key r records) ≡ some (updated key r (Dict.get key records))
unfolding upsert
upsert-get_self key r records = elim (Option-cases (Dict.get key records)) [
  | inl e ↦ rw (e, upsert) (Dict.get-set_self key (updated key r none) records)
  | inr (existing, e) ↦
      rw (e, upsert) (Dict.get-set_self key (updated key r (some existing)) records)
]

upsert-get_ne :
    (key own : String) (r : Recording) (records : Records)
    → own ≢ key
    → Dict.get key (upsert own r records) ≡ Dict.get key records
unfolding upsert
upsert-get_ne key own r records ne = elim (Option-cases (Dict.get own records)) [
  | inl e ↦ rw (e, upsert) (Dict.get-set_ne key own (updated own r none) records ne)
  | inr (existing, e) ↦
      rw (e, upsert) (Dict.get-set_ne key own (updated own r (some existing)) records ne)
]

module _ {Text : Type 0} (stringify : Records → Text) (parse : Text → Option Records)
    (digest : StreamEvent → String) where
  -- The records that are kept, without a file: those whose write was taken.
  pub kept : Records → List Recording → Records
  kept records [] = records
  kept records (r ∷ rs) =
      kept (if r.writable then upsert (event_key digest r.event) r records else records) rs

  -- Whether the last write was taken; at first there is none that was refused.
  pub last_taken : Bool → List Recording → Bool
  last_taken before [] = before
  last_taken before (r ∷ rs) = last_taken r.writable rs

  abbrev IsReadable : FileDeadLetterStore Text → Records → Bool → Type 0
  IsReadable s records taken =
      (read_records stringify parse digest s.file ≡ some records) × (s.written ≡ taken)

  record_event-reads :
      (s : FileDeadLetterStore Text) (r : Recording) (records : Records)
      → ((m : Records) → parse (stringify m) ≡ some m)
      → read_records stringify parse digest s.file ≡ some records
      → IsReadable
          (record_event stringify parse digest s r)
          (if r.writable then upsert (event_key digest r.event) r records else records)
          r.writable
  unfolding record_event read_records
  record_event-reads s r records back e = elim (Bool-cases r.writable) [
    | inl taken ↦
        rw (e, taken, record_event) (back (upsert (event_key digest r.event) r records), refl)
    | inr refused ↦ rw (e, refused, record_event) (e, refl)
  ]

  run-reads :
      (rs : List Recording) (s : FileDeadLetterStore Text) (records : Records) (taken : Bool)
      → ((m : Records) → parse (stringify m) ≡ some m)
      → IsReadable s records taken
      → IsReadable (run stringify parse digest s rs) (kept records rs) (last_taken taken rs)
  unfolding run kept last_taken
  run-reads [] s records taken back e = e
  run-reads (r ∷ rs) s records taken back e =
      run-reads rs (record_event stringify parse digest s r)
        (if r.writable then upsert (event_key digest r.event) r records else records) r.writable
        back (record_event-reads s r records back e.0)

  -- What the record of a key is: it has the event of its first recording, and the error, the attempts
  -- and the time of its last.
  pub track : String → Option DeadLetterRecord → List Recording → Option DeadLetterRecord
  track key o [] = o
  track key o (r ∷ rs) =
      track key
        (if event_key digest r.event == key && r.writable then some (updated key r o) else o) rs

  upsert-get :
      (r : Recording) (key : String) (records : Records)
      → Dict.get key (if r.writable then upsert (event_key digest r.event) r records else records)
        ≡ track key (Dict.get key records) (r ∷ [])
  unfolding track upsert
  upsert-get r key records =
      let own = event_key digest r.event in
      elim (Bool-cases r.writable) [
        | inr refused ↦ elim (Bool-cases (own == key)) [
          | inl hit ↦ rw (refused, hit) refl
          | inr other ↦ rw (refused, other) refl
        ]
        | inl taken ↦ elim (Bool-cases (own == key)) [
          | inr other ↦
              rw (taken, other)
                (upsert-get_ne key own r records
                  (λ same. ground (arith, other, same, eq_iff own key)))
          | inl hit ↦
              let same : own ≡ key = (eq_iff own key).0 hit in
              rw (taken, hit)
                (subst
                  (λ k.
                    Dict.get key (upsert k r records) ≡ some (updated key r (Dict.get key records)))
                  (sym same) (upsert-get_self key r records))
        ]
      ]

  kept-get :
      (rs : List Recording) (key : String) (records : Records)
      → Dict.get key (kept records rs) ≡ track key (Dict.get key records) rs
  unfolding kept track
  kept-get [] key records = refl
  kept-get (r ∷ rs) key records =
      kept-get rs key (if r.writable then upsert (event_key digest r.event) r records else records)
      ∙ ap (λ o. track key o rs) (upsert-get r key records)

  -- After any calls of `record`, one after another, from a file that is not there, the file can be read;
  -- its records are listed by their times, unless the last write was refused, in which case the listing
  -- rejects; and the record of a key has the event of the first recording of that key and the error, the
  -- attempts and the time of the last, of those whose write was taken; a key without such recordings
  -- has none. `JSON.parse` undoes `JSON.stringify`.
  pub run-tracks :
      (rs : List Recording) (key : String)
      → ((m : Records) → parse (stringify m) ≡ some m)
      → let s = run stringify parse digest (open_store stringify parse digest none) rs in
        (records : Records) × (read_records stringify parse digest s.file ≡ some records)
        × (list stringify parse digest s
            ≡ (if last_taken true rs then some (sort_by earlier (Dict.values records)) else none))
        × (Dict.get key records ≡ track key none rs)
  unfolding list read_records Dict.get
  run-tracks rs key back =
      let (reads, settled) =
        run-reads rs (open_store stringify parse digest none) [] true back (refl, refl) in
      (kept [] rs, reads, rw (reads, settled, list) refl, kept-get rs key [])
