-- ===== src/Streams/Client.antt =====
-- The listing of the streams as a client of xstreamroll-sdk/src/pagination.ts walks through it.
use xstream_roll.Shared.{
  ℕ, ◌*◌, ◌≤◌, ◌<◌, ◌≡◌, refl, ap, ◌∙◌, false, Option, none, some, length, ltb, arith,
  if◌then◌else◌, ◌==◌, number_key, same_number_iff,
}
use xstream_roll.Streams.{
  Stream, StreamsService, StreamListPredicate, list_filtered, list_page, list,
}
use xstream_roll.Pagination.{
  answers, fails, Fetcher, PaginatedIterator, collected, create, to_array,
}
use xstream_roll.Pagination.Complete.{IsHonest, to_array-create, create-first}

-- The answers of `StreamsService.list`, after the checks of `PaginationDto`.
abbrev pub list_fetcher : StreamsService → ℕ → StreamListPredicate → Fetcher Stream
list_fetcher s viewer p = λ page limit.
    (if page == 0
      then fails "page must be >= 1"
      else if limit == 0
      then fails "limit must be >= 1"
      else if ltb 100 limit
      then fails "limit must be <= 100"
      else elim (list s page limit viewer p) [
        | none ↦ fails "invalid viewer"
        | some listed ↦ answers (record { items = listed.items; total = some listed.total })
      ])

list_fetcher-IsHonest :
    (s : StreamsService) (viewer limit : ℕ) (p : StreamListPredicate)
    → 1 ≤ viewer
    → 1 ≤ limit
    → limit ≤ 100
    → IsHonest limit (list_filtered s viewer p) (list_fetcher s viewer p)
unfolding list list_page
list_fetcher-IsHonest s viewer limit p seen some_ few page first =
    let a : (page == 0) ≡ false = ground (arith, same_number_iff page 0) in
    let b : (limit == 0) ≡ false = ground (arith, same_number_iff limit 0) in
    let c : (viewer == 0) ≡ false = ground (arith, same_number_iff viewer 0) in
    let d : ltb 100 limit ≡ false = ground arith in rw (list, a, b, c, d) refl

-- A client that walks through the pages of the listing, with a limit of at most a hundred, gets each
-- stream that the filters of a viewer, who has an id of one or more, let through, once and in order, if
-- it may go to as many pages as there are and the streams do not change meanwhile.
pub to_array-list_page :
    (s : StreamsService) (viewer fuel : ℕ) (p : StreamListPredicate) (limit max_pages : Option ℕ)
    → let it : PaginatedIterator Stream = create limit none max_pages in
      1 ≤ viewer
      → it.limit ≤ 100
      → length (list_filtered s viewer p) ≤ it.max_pages * it.limit
      → length (list_filtered s viewer p) < fuel
      → to_array fuel (list_fetcher s viewer p) (create limit none max_pages)
        ≡ collected (list_filtered s viewer p)
unfolding create
to_array-list_page s viewer fuel p limit max_pages seen few room h =
    let all = list_filtered s viewer p in
    let it : PaginatedIterator Stream = create limit none max_pages in
    to_array-create all (list_fetcher s viewer p) limit none max_pages fuel
      (list_fetcher-IsHonest s viewer it.limit p seen (omega arith) few) room h
    ∙ ap (λ l. collected l) (create-first all limit max_pages)
