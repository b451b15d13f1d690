-- ===== src/Streams/Database/Swap/Listing.antt =====
-- The listing of the two repositories, with a search text.
use mathlib.Core.Path.{fun_ext}
use xstream_roll.Shared.{
  false, ℕ, String, ◌≡◌, refl, sym, ap, ◌∙◌, Bool, true, ◌||◌, Option, none, some, List, [], ◌∷◌,
  ◌++◌, filter, sort_by, length-sort_by, leb, Bool-cases, inl, inr, arith, if◌then◌else◌, ◌==◌,
  number_key,
}
use xstream_roll.Shared.Dict
use xstream_roll.Shared.Dict.{Dict}
use xstream_roll.Streams.{
  Stream, StreamsService, StreamListPredicate, is_public, same_status, same_visibility, narrow,
  list_filtered, list_page,
}
use xstream_roll.Streams.Database.{
  StreamTables, StreamsPage, ok, meets, condition, conditions, list_paginated,
}
use xstream_roll.Streams.Database.Search.{
  Matching, db_search, memory_search, db_search-memory_search,
}
use xstream_roll.Streams.Database.Swap.Mirror.{keyed}

values-keyed : (rows : List Stream) → Dict.values (keyed rows) ≡ rows
values-keyed [] = refl
values-keyed (x ∷ xs) = ap (λ l. x ∷ l) (values-keyed xs)

meets-cons :
    (c : Stream → Bool) (cs : List (Stream → Bool)) (xs : List Stream)
    → filter (meets (c ∷ cs)) xs ≡ filter (meets cs) (filter c xs)
unfolding meets
meets-cons c cs [] = refl
meets-cons c cs (x ∷ xs) = elim (Bool-cases (c x)) [
  | inl e ↦ rw (e, meets-cons c cs xs) refl
  | inr e ↦ rw (e, meets-cons c cs xs) refl
]

meets-condition :
    {A : Type 0} (o : Option A) (test : A → Stream → Bool) (cs : List (Stream → Bool))
    (xs : List Stream)
    → filter (meets (condition o test ++ cs)) xs ≡ filter (meets cs) (narrow o test xs)
unfolding condition narrow
meets-condition none test cs xs = refl
meets-condition (some a) test cs xs = meets-cons (test a) cs xs

meets-last :
    {A : Type 0} (o : Option A) (test : A → Stream → Bool) (xs : List Stream)
    → filter (meets (condition o test)) xs ≡ narrow o test xs
unfolding condition narrow meets
meets-last none test [] = refl
meets-last none test (x ∷ xs) = ap (λ l. x ∷ l) (meets-last none test xs)
meets-last (some a) test [] = refl
meets-last (some a) test (x ∷ xs) = elim (Bool-cases (test a x)) [
  | inl e ↦ rw (e, meets-last (some a) test xs) refl
  | inr e ↦ rw (e, meets-last (some a) test xs) refl
]

narrow-filter :
    {A : Type 0} (o : Option A) (test : A → Stream → Bool) (c : Stream → Bool) (xs : List Stream)
    → narrow o test (filter c xs) ≡ filter c (narrow o test xs)
unfolding narrow
narrow-filter none test c xs = refl
narrow-filter (some a) test c [] = refl
narrow-filter (some a) test c (x ∷ xs) = ground (arith, narrow-filter (some a) test c xs)

acl : ℕ → StreamListPredicate → Stream → Bool
acl viewer p = if p.owner_only then (λ row. row.user_id == viewer) else λ row.
    is_public row.visibility || row.user_id == viewer

by_status : StreamListPredicate → List Stream → List Stream
by_status p xs = narrow p.status (λ x t. same_status t.status x) xs

by_rest : StreamListPredicate → List Stream → List Stream
by_rest p xs =
    narrow p.tag (λ test t. test t)
      (narrow p.q (λ test t. test t)
        (narrow p.visibility (λ v t. same_visibility t.visibility v) xs))

filter-conditions :
    (viewer : ℕ) (p : StreamListPredicate) (xs : List Stream)
    → filter (meets (conditions viewer p)) xs ≡ by_rest p (filter (acl viewer p) (by_status p xs))
unfolding conditions acl by_status by_rest
filter-conditions viewer p xs =
    meets-cons (acl viewer p) _ xs
    ∙ meets-condition p.status (λ x t. same_status t.status x) _ (filter (acl viewer p) xs)
    ∙ meets-condition p.visibility (λ v t. same_visibility t.visibility v) _ _
    ∙ meets-condition p.q (λ test t. test t) _ _
    ∙ meets-last p.tag (λ test t. test t) _
    ∙ ap (λ l. by_rest p l)
        (narrow-filter p.status (λ x t. same_status t.status x) (acl viewer p) xs)

list_filtered-rest :
    (s : StreamsService) (viewer : ℕ) (p : StreamListPredicate)
    → list_filtered s viewer p
      ≡ sort_by
          (λ a b. leb b.created_at a.created_at)
          (by_rest p (filter (acl viewer p) (by_status p (Dict.values s.streams_by_id))))
unfolding list_filtered acl by_status by_rest
list_filtered-rest s viewer p = elim (Bool-cases p.owner_only) [
  | inl e ↦ rw e refl
  | inr e ↦ rw e refl
]

abbrev pub paged : StreamsService → ℕ → ℕ → ℕ → StreamListPredicate → StreamsPage
paged s page limit viewer p =
    let l = list_page s page limit viewer p in record { items = l.items; total = l.total }

list_paginated-list_page :
    (db : StreamTables) (s : StreamsService) (page limit viewer : ℕ) (p : StreamListPredicate)
    → s.streams_by_id ≡ keyed db.streams
    → (page == 0) ≡ false
    → list_paginated true db page limit viewer p ≡ ok (paged s page limit viewer p)
unfolding list_paginated list_page
list_paginated-list_page db s page limit viewer p e first =
    let order : Stream → Stream → Bool = λ a b. leb b.created_at a.created_at in
    let rows = filter (meets (conditions viewer p)) db.streams in
    let held : Dict.values s.streams_by_id ≡ db.streams =
      ap (λ (d : Dict ℕ Stream). Dict.values d) e ∙ values-keyed db.streams in
    let same : sort_by order rows ≡ list_filtered s viewer p =
      ap (λ l. sort_by order l) (filter-conditions viewer p db.streams)
      ∙ sym (
          list_filtered-rest s viewer p
          ∙ ap (λ l. sort_by order (by_rest p (filter (acl viewer p) (by_status p l)))) held) in
    rw (sym (length-sort_by order rows), same, first) refl

-- With the same streams the two repositories have the same page and the same total for every page from
-- the first on, limit, viewer and predicate, also for a search text that is not empty, which one looks
-- for by an escaped pattern and the other in the lower case of both texts, if rows of the same time come
-- in the order of their insertion and both have the same lower case of a character.
pub list_paginated-search :
    (m : Matching) (chars : String → List ℕ) (db : StreamTables) (s : StreamsService)
    (page limit viewer : ℕ) (p : StreamListPredicate) (c : ℕ) (q : List ℕ)
    → s.streams_by_id ≡ keyed db.streams
    → (page == 0) ≡ false
    → list_paginated true db page limit viewer (record p { q = some (db_search m chars (c ∷ q)) })
      ≡ ok (paged s page limit viewer (record p { q = some (memory_search m chars (c ∷ q)) }))
list_paginated-search m chars db s page limit viewer p c q e first =
    let same : db_search m chars (c ∷ q) ≡ memory_search m chars (c ∷ q) =
      fun_ext (λ row. db_search-memory_search m chars c q row) in
    ap (λ test. list_paginated true db page limit viewer (record p { q = some test })) same
    ∙ list_paginated-list_page db s page limit viewer
        (record p { q = some (memory_search m chars (c ∷ q)) }) e first
