-- ===== src/Streams/Listing.antt =====
-- Who sees which streams, and on which page.
use xstream_roll.Shared.{
  kept-All, take_fits, ℕ, zero, suc, ◌+◌, ◌-◌, ◌*◌, ◌≤◌, ◌≡◌, refl, ap, ◌∙◌, inl, inr, Bool, true,
  false, ◌||◌, Option, none, some, List, [], ◌∷◌, ◌++◌, length, take, drop, filter, All, take-All,
  drop-All, sort_by-All, filter-All, length-take, arith, if◌then◌else◌, Bool-cases, ◌==◌,
  number_key,
}
use xstream_roll.Shared.Dict
use xstream_roll.Streams.{
  Stream, is_public, same_status, StreamsService, StreamListPredicate, narrow, list_filtered,
  list_page,
}

-- The viewer owns the stream, or it is public.
abbrev pub is_visible : ℕ → Stream → Bool
is_visible viewer t = is_public t.visibility || t.user_id == viewer

narrow-keeps :
    (P : Stream → Type 0) {A : Type 0} (o : Option A) (test : A → Stream → Bool) (xs : List Stream)
    → All P xs
    → All P (narrow o test xs)
unfolding narrow
narrow-keeps P none test xs h = h
narrow-keeps P (some a) test xs h = kept-All P (test a) xs h

list_filtered-visible :
    (s : StreamsService) (viewer : ℕ) (p : StreamListPredicate)
    → All (λ t. is_visible viewer t ≡ true) (list_filtered s viewer p)
unfolding list_filtered
list_filtered-visible s viewer p =
    let P : Stream → Type 0 = λ t. is_visible viewer t ≡ true in
    let owned : (t : Stream) → (t.user_id == viewer) ≡ true → is_visible viewer t ≡ true =
      λ t h. ground arith in
    let all = narrow p.status (λ x t. same_status t.status x) (Dict.values s.streams_by_id) in
    let seen : All P (
        if p.owner_only
        then filter (λ t. t.user_id == viewer) all
        else filter (λ t. is_visible viewer t) all) =
      elim (Bool-cases p.owner_only) [
        | inl own ↦ rw own (filter-All P _ owned all)
        | inr any ↦ rw any (filter-All P (is_visible viewer) (λ t h. h) all)
      ] in
    sort_by-All P _ _
      (narrow-keeps P p.tag _ _ (narrow-keeps P p.q _ _ (narrow-keeps P p.visibility _ _ seen)))

take-more : (a b c : ℕ) (xs : List Stream) → c ≡ a + b → take a xs ++ take b (drop a xs) ≡ take c xs
take-more zero b c xs e = let same : b ≡ c = omega arith in ap (λ n. take n xs) same
take-more (suc a) b zero xs e = absurd (omega arith)
take-more (suc a) zero (suc c) [] e = refl
take-more (suc a) (suc b) (suc c) [] e = refl
take-more (suc a) b (suc c) (x ∷ xs) e = ap (λ l. x ∷ l) (take-more a b c xs (omega arith))

-- The items of the pages from 1 to `n`, one after another.
pub pages : StreamsService → ℕ → ℕ → StreamListPredicate → ℕ → List Stream
pages s limit viewer p zero = []
pages s limit viewer p (suc n) =
    pages s limit viewer p n ++ (list_page s (suc n) limit viewer p).items

pages-take :
    (s : StreamsService) (limit viewer : ℕ) (p : StreamListPredicate) (n : ℕ)
    → pages s limit viewer p n ≡ take (n * limit) (list_filtered s viewer p)
unfolding pages list_page
pages-take s limit viewer p zero =
    let none_yet : 0 ≡ 0 * limit = omega arith in
    ap (λ n. take n (list_filtered s viewer p)) none_yet
pages-take s limit viewer p (suc n) =
    let back : suc n - 1 ≡ n = omega arith in
    rw (back, pages-take s limit viewer p n)
      (take-more (n * limit) limit (suc n * limit) (list_filtered s viewer p) (omega arith))

-- A page has at most `limit` streams, each of them public or the viewer's own, whatever the filters.
pub list_page_visible :
    (s : StreamsService) (page limit viewer : ℕ) (p : StreamListPredicate)
    → All (λ t. is_visible viewer t ≡ true) (list_page s page limit viewer p).items
      × (length (list_page s page limit viewer p).items ≤ limit)
unfolding list_page
list_page_visible s page limit viewer p =
    let rest = drop ((page - 1) * limit) (list_filtered s viewer p) in
    (
      take-All (λ t. is_visible viewer t ≡ true) limit rest
          (drop-All (λ t. is_visible viewer t ≡ true) ((page - 1) * limit)
            (list_filtered s viewer p) (list_filtered-visible s viewer p)),
      omega (arith, length-take limit rest),
    )

-- If page `n` says that there is no more, the pages from 1 to `n`, one after another, are the whole
-- listing: each stream of it once, in its order, and as many as the total says.
pub pages_complete :
    (s : StreamsService) (limit viewer n : ℕ) (p : StreamListPredicate)
    → (list_page s n limit viewer p).has_more ≡ false
    → (pages s limit viewer p n ≡ list_filtered s viewer p)
      × (length (pages s limit viewer p n) ≡ (list_page s n limit viewer p).total)
unfolding list_page
pages_complete s limit viewer n p over =
    let enough : length (list_filtered s viewer p) ≤ n * limit = ground arith in
    let all =
      pages-take s limit viewer p n ∙ take_fits (n * limit) (list_filtered s viewer p) enough in
    (all, ap (λ (l : List Stream). length l) all)
