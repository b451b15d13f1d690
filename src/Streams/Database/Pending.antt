-- ===== src/Streams/Database/Pending.antt =====
-- What a worker gets that pages through the pending events of `getPendingEvents`, while others go on
-- inserting events between two of its requests.
use mathlib.Core.List.{Memᴰ}
use mathlib.Core.List
use xstream_roll.Shared.{
  take_short, ℕ, ◌+◌, ◌≤◌, ◌<◌, ◌≡◌, ◌⊎◌, inl, inr, true, false, Option, none, some, List, [], ◌∷◌,
  ◌++◌, refl, ◌∙◌, subst, ltb, take, length, All, All-map, take-All, unsort_by-All, append-All,
  length-filter-le, Bool-cases, Option-cases, arith,
}
use xstream_roll.Streams.Database.{
  StreamData, StreamTables, ok, Cursor, cursor_of, is_after, is_wanted, row_le, last, page_after,
  get_pending_events,
}
use xstream_roll.Streams.Database.Order.{
  IsIncreasing, take-IsIncreasing, take-covers, append-IsIncreasing,
}
use xstream_roll.Streams.Database.Ingest.{
  Arrival, ingest, IsStored, ingest-IsStored, ingest_keeps, ingest_count,
}
use xstream_roll.Streams.Database.Paging.{
  rows_after, count_after, rows_after-IsIncreasing, rows_after-wanted, wanted_trans, unfilter-All,
  last-wanted, count_after-less, mems, All-both, last-none, found,
}

module _ {Text : Type 0} (print : Cursor → Text) (parse : Text → Option Cursor) where
  abbrev printed : Option Cursor → Option Text
  printed none = none
  printed (some c) = some (print c)

  -- One page after another, each after the events that arrive before it is asked for, until there is
  -- no next cursor; `none` if there is still one after the last of these requests.
  pub walk : ℕ → StreamTables → Option Text → List (List Arrival) → Option (List StreamData)
  walk limit db cursor [] = none
  walk limit db cursor (l ∷ ls) =
      let db' = ingest db l in
      elim (get_pending_events print parse true db' limit cursor) [
        | ok page ↦ elim page.next_cursor [
          | none ↦ some page.rows
          | some text ↦ elim (walk limit db' (some text) ls) [
            | none ↦ none
            | some more ↦ some (page.rows ++ more)
          ]
        ]
        | _ ↦ none
      ]

  abbrev pub arrivals : List (List Arrival) → ℕ
  arrivals [] = 0
  arrivals (l ∷ ls) = length l + arrivals ls

  -- What the worker has by the end: in order, nothing from before the cursor, and everything after it.
  abbrev IsWalked :
      ℕ → StreamTables → Option Cursor → List (List Arrival) → List StreamData → Type 0
  IsWalked limit db after ls rows =
      (walk limit db (printed after) ls ≡ some rows)
      × IsIncreasing rows
      × All (λ r. is_wanted after r ≡ true) rows
      × All (λ r. (is_wanted after r ≡ false) ⊎ Memᴰ r rows) db.stream_data

  get_printed :
      ((c : Cursor) → parse (print c) ≡ some c)
      → (db : StreamTables) (limit : ℕ) (after : Option Cursor)
      → get_pending_events print parse true db limit (printed after)
        ≡ page_after print parse db limit after
  unfolding get_pending_events
  get_printed reads db limit none = refl
  get_printed reads db limit (some c) = rw (reads c) refl

  -- The last page, and one that another follows.
  page-last :
      (db : StreamTables) (limit : ℕ) (after : Option Cursor)
      → length (take limit (rows_after db after)) < limit
      → page_after print parse db limit after
        ≡ ok (record { rows = take limit (rows_after db after); next_cursor = none })
  unfolding page_after
  page-last db limit after h =
      let short : ltb (length (take limit (rows_after db after))) limit ≡ true =
        ground (arith, h) in
      rw short refl

  page-full :
      (db : StreamTables) (limit : ℕ) (after : Option Cursor) (x : StreamData)
      → limit ≤ length (take limit (rows_after db after))
      → last (take limit (rows_after db after)) ≡ some x
      → page_after print parse db limit after
        ≡ ok (record {
          rows = take limit (rows_after db after);
          next_cursor = some (print (cursor_of x));
        })
  unfolding page_after
  page-full db limit after x h e =
      let full : ltb (length (take limit (rows_after db after))) limit ≡ false =
        ground (arith, h) in
      rw (full, e) refl

  covered :
      (after : Option Cursor) (x : StreamData) (page more : List StreamData) (r : StreamData)
      → (is_wanted after r ≡ false) ⊎ (Memᴰ r page ⊎ (is_after (cursor_of x) r ≡ true))
      → (is_after (cursor_of x) r ≡ false) ⊎ Memᴰ r more
      → (is_wanted after r ≡ false) ⊎ Memᴰ r (page ++ more)
  covered after x page more r (inl out) k = inl out
  covered after x page more r (inr (inl here)) k = inr (List.Memᴰ.append_left more here)
  covered after x page more r (inr (inr later)) (inr there) =
      inr (List.Memᴰ.append_right page there)
  covered after x page more r (inr (inr later)) (inl earlier) =
      absurd (ground (arith, later, earlier))

  walked :
      ((c : Cursor) → parse (print c) ≡ some c)
      → (limit : ℕ) (ls : List (List Arrival)) (db : StreamTables) (after : Option Cursor)
      → 0 < limit
      → IsStored db
      → count_after db after + arrivals ls < length ls
      → (rows : List StreamData) × IsWalked limit db after ls rows
  unfolding walk
  walked reads limit [] db after h s room = absurd (omega (arith, room))
  walked reads limit (l ∷ ls) db after h s room =
      let db' = ingest db l in
      let rows = rows_after db' after in
      let page = take limit rows in
      let stored = ingest-IsStored db l s in
      let got = get_printed reads db' limit after in
      let increasing = rows_after-IsIncreasing db' after stored in
      let page_wanted =
        take-All (λ r. is_wanted after r ≡ true) limit rows (rows_after-wanted db' after) in
      elim (Bool-cases (ltb (length page) limit)) [
        | inl short ↦
            let whole : page ≡ rows = take_short limit rows (ground (arith, short)) in
            (
              page,
              (
                rw (walk, got ∙ page-last db' limit after (ground (arith, short))) refl,
                take-IsIncreasing limit rows increasing,
                page_wanted,
                ingest_keeps (λ r. (is_wanted after r ≡ false) ⊎ Memᴰ r page) db l
                    (unfilter-All (λ r. Memᴰ r page) (is_wanted after) db'.stream_data
                      (unsort_by-All (λ r. Memᴰ r page) row_le _
                        (subst (λ k. All (λ r. Memᴰ r page) k) whole (mems page)))),
              ),
            )
        | inr full ↦ elim (Option-cases (last page)) [
          | inl nothing ↦ absurd (ground (arith, full, h, last-none page nothing))
          | inr (x, e) ↦
              let less = count_after-less db' after limit x e in
              let few = ingest_count (is_wanted after) db l in
              let rest =
                walked reads limit ls db' (some (cursor_of x)) h stored
                  (omega (arith, less, few, room)) in
              let wanted = last-wanted db' after limit x e in
              let paged = got ∙ page-full db' limit after x (ground (arith, full)) e in
              (
                page ++ rest.0,
                (
                  rw (walk, paged, rest.1.0) refl,
                  append-IsIncreasing page rest.0 x (take-IsIncreasing limit rows increasing)
                      rest.1.1 e rest.1.2,
                  append-All (λ r. is_wanted after r ≡ true) page rest.0 page_wanted
                      (All-map (λ r k. wanted_trans after x r wanted k) rest.0 rest.1.2),
                  ingest_keeps (λ r. (is_wanted after r ≡ false) ⊎ Memᴰ r (page ++ rest.0)) db l
                      (All-both (covered after x page rest.0) db'.stream_data
                        (unfilter-All (λ r. Memᴰ r page ⊎ (is_after (cursor_of x) r ≡ true))
                          (is_wanted after) db'.stream_data
                          (unsort_by-All (λ r. Memᴰ r page ⊎ (is_after (cursor_of x) r ≡ true))
                            row_le _
                            (take-covers (λ r. Memᴰ r page) limit rows x increasing e (mems page))))
                        rest.1.3),
                ),
              )
        ]
      ]

  -- A worker that pages through the pending events from the start, with a limit of at least one,
  -- comes to the end within as many requests as there are rows and new events, and one more, whatever
  -- is inserted between them. It has then each row at most once, in increasing order of time and id,
  -- and every row that was there at the start, if a cursor is read as it was printed and the ids in
  -- the table are distinct and below the next one.
  pub walk_complete :
      ((c : Cursor) → parse (print c) ≡ some c)
      → (limit : ℕ) (ls : List (List Arrival)) (db : StreamTables) → 0 < limit
      → IsStored db
      → length db.stream_data + arrivals ls < length ls
      → (rows : List StreamData) × (walk limit db none ls ≡ some rows)
        × IsIncreasing rows
        × All (λ r. Memᴰ r rows) db.stream_data
  walk_complete reads limit ls db h s room =
      let bound = length-filter-le (is_wanted none) db.stream_data in
      let all = walked reads limit ls db none h s (omega (arith, bound, room)) in
      (
        all.0,
        all.1.0,
        all.1.1,
        All-map (λ r (k : (true ≡ false) ⊎ Memᴰ r all.0). found r all.0 k) db.stream_data all.1.3,
      )
