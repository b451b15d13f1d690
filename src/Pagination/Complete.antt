-- ===== src/Pagination/Complete.antt =====
-- The items of the iterator are those of the server.
use xstream_roll.Shared.{
  ℕ, zero, suc, ◌+◌, ◌-◌, ◌*◌, ◌≤◌, ◌<◌, ◌≡◌, refl, sym, subst, ap, ◌∙◌, ◌⊎◌, inl, inr, true, false,
  Option, none, some, List, [], ◌∷◌, ◌++◌, length, take, drop, arith, ltb, leb, Option-cases,
  Bool-cases,
}
use native.Mathlib.Nat.{mul-le-mul_right}
use xstream_roll.Pagination.{
  answers, Fetcher, PaginatedIterator, Next, yields, ends, collected, create, get_elem?, is_past,
  take_page, turn_page, next, to_array,
}

reached : (a b : ℕ) → ltb a b ≡ true → a ≤ b - 1
reached a b h = ground arith

module _ {ℓ} {A : Type ℓ} where
  drop-nil : (n : ℕ) → drop {A = A} n [] ≡ []
  drop-nil zero = refl
  drop-nil (suc n) = refl

  drop-drop : (m n k : ℕ) (xs : List A) → k ≡ m + n → drop n (drop m xs) ≡ drop k xs
  drop-drop zero n k xs e = let same : n ≡ k = omega arith in ap (λ i. drop i xs) same
  drop-drop (suc m) n zero xs e = absurd (omega arith)
  drop-drop (suc m) n (suc k) [] e = drop-nil n
  drop-drop (suc m) n (suc k) (x ∷ xs) e = drop-drop m n k xs (omega arith)

  take-drop : (n : ℕ) (xs : List A) → take n xs ++ drop n xs ≡ xs
  take-drop zero xs = refl
  take-drop (suc n) [] = refl
  take-drop (suc n) (x ∷ xs) = ap (λ l. x ∷ l) (take-drop n xs)

  get_elem?-some :
      (xs : List A) (i : ℕ) (x : A) → get_elem? xs i ≡ some x → drop i xs ≡ x ∷ drop (suc i) xs
  unfolding get_elem?
  get_elem?-some [] i x h = absurd (ground (arith, h))
  get_elem?-some (y ∷ xs) zero x h = ap (λ o. elim o [ none ↦ y ∷ xs | some z ↦ z ∷ xs ]) h
  get_elem?-some (y ∷ xs) (suc i) x h = get_elem?-some xs i x h

  get_elem?-none : (xs : List A) (i : ℕ) → get_elem? xs i ≡ none → drop i xs ≡ []
  unfolding get_elem?
  get_elem?-none [] zero h = refl
  get_elem?-none [] (suc i) h = refl
  get_elem?-none (y ∷ xs) zero h = absurd (ground (arith, h))
  get_elem?-none (y ∷ xs) (suc i) h = get_elem?-none xs i h

  drop-length : (n : ℕ) (xs : List A) → length (drop n xs) ≡ length xs - n
  drop-length zero xs = omega arith
  drop-length (suc n) [] = omega arith
  drop-length (suc n) (x ∷ xs) = omega (arith, drop-length n xs)

  drop-all : (n : ℕ) (xs : List A) → length xs ≤ n → drop n xs ≡ []
  drop-all zero [] h = refl
  drop-all zero (x ∷ xs) h = absurd (omega arith)
  drop-all (suc n) [] h = refl
  drop-all (suc n) (x ∷ xs) h = drop-all n xs (omega arith)

  -- A page is empty only where nothing is left.
  take-cases :
      (n : ℕ) (xs : List A)
      → 1 ≤ n
      → ((take n xs ≡ []) × (xs ≡ []))
        ⊎ ((x : A) × (ys : List A) × (take n xs ≡ x ∷ ys) × (xs ≡ x ∷ ys ++ drop n xs))
  take-cases zero xs h = absurd (omega arith)
  take-cases (suc n) [] h = inl (refl, refl)
  take-cases (suc n) (x ∷ xs) h = inr (x, take n xs, refl, ap (λ l. x ∷ l) (sym (take-drop n xs)))

  -- A server with this listing, whatever the limit.
  abbrev pub IsHonest : ℕ → List A → Fetcher A → Type ℓ
  IsHonest limit all fetcher =
      (page : ℕ)
      → 1 ≤ page
      → fetcher page limit
        ≡ answers (record {
          items = take limit (drop ((page - 1) * limit) all);
          total = some (length all);
        })

  -- What is left of the page, and of the listing after it.
  abbrev left : List A → PaginatedIterator A → List A
  left all it = drop it.offset it.current_page ++ drop ((it.page - 1) * it.limit) all

  abbrev IsUnderWay : ℕ → List A → PaginatedIterator A → Type 0
  IsUnderWay limit all it =
      (it.exhausted ≡ false)
      × (1 ≤ it.limit)
      × (1 ≤ it.page)
      × (length all ≤ it.max_pages * it.limit)
      × ((it.total ≡ none) ⊎ (it.total ≡ some (length all)))
      × (it.limit ≡ limit)

  -- `next` ends where nothing is left, and else yields the first of what is left.
  abbrev IsNext : ℕ → List A → PaginatedIterator A → Next A × PaginatedIterator A → Type ℓ
  IsNext limit all it (step, it') =
      ((step ≡ ends) × (left all it ≡ []))
      ⊎ ((x : A) × (step ≡ yields x) × (left all it ≡ x ∷ left all it') × IsUnderWay limit all it')

  take_page-IsNext :
      (limit : ℕ) (all : List A) (it : PaginatedIterator A)
      → IsUnderWay limit all it
      → drop it.offset it.current_page ≡ []
      → IsNext limit all it (
          take_page it (record {
            items = take it.limit (drop ((it.page - 1) * it.limit) all);
            total = some (length all);
          }))
  unfolding take_page
  take_page-IsNext limit all it ready none_here =
      let rest = drop ((it.page - 1) * it.limit) all in
      elim (take-cases it.limit rest ready.1) [
        | inl (empty, over) ↦ rw (empty, take_page) (inl (refl, rw (none_here, over) refl))
        | inr (x, ys, here, split) ↦
            let p = it.page - 1 in
            let next_page : suc it.page - 1 ≡ suc p = omega arith in
            let further : drop it.limit rest ≡ drop ((suc it.page - 1) * it.limit) all =
              drop-drop (p * it.limit) it.limit ((suc it.page - 1) * it.limit) all
                (ap (λ q. q * it.limit) next_page ∙ omega arith) in
            rw (here, take_page)
              (inr (
                x,
                refl,
                rw (none_here, here) (split ∙ ap (λ l. x ∷ ys ++ l) further),
                (ready.0, ready.1, omega arith, ready.3, inr refl, ready.5),
              ))
      ]

  is_past-le :
      (it : PaginatedIterator A) (n : ℕ)
      → is_past it ≡ true
      → (it.total ≡ none) ⊎ (it.total ≡ some n)
      → n ≤ (it.page - 1) * it.limit
  unfolding is_past
  is_past-le it n past (inl e) = absurd (ground (arith, past, e))
  is_past-le it n past (inr e) =
      let reached : leb n ((it.page - 1) * it.limit) ≡ true = ground (arith, past, e) in
      ground arith

  turn_page-IsNext :
      (limit : ℕ) (all : List A) (fetcher : Fetcher A) (it : PaginatedIterator A)
      → IsHonest limit all fetcher
      → IsUnderWay limit all it
      → drop it.offset it.current_page ≡ []
      → IsNext limit all it (turn_page fetcher it)
  unfolding turn_page
  turn_page-IsNext limit all fetcher it honest ready none_here =
      let over : length all ≤ (it.page - 1) * it.limit → left all it ≡ [] =
        λ h. rw (none_here, drop-all ((it.page - 1) * it.limit) all h) refl in
      elim (Bool-cases (is_past it)) [
        | inl past ↦
            rw (ready.0, past, turn_page)
              (inl (refl, over (is_past-le it (length all) past ready.4)))
        | inr before ↦ elim (Bool-cases (ltb it.max_pages it.page)) [
          | inl last ↦
              rw (ready.0, before, last, turn_page)
                (inl (
                  refl,
                  over (
                      omega (
                        arith,
                        ready.3,
                        mul-le-mul_right it.limit (reached it.max_pages it.page last),
                      )),
                ))
          | inr more ↦
              let answer =
                subst (λ n. IsHonest n all fetcher) (sym ready.5) honest it.page ready.2 in
              rw (ready.0, before, more, answer, turn_page)
                (take_page-IsNext limit all it ready none_here)
        ]
      ]

  next-IsNext :
      (limit : ℕ) (all : List A) (fetcher : Fetcher A) (it : PaginatedIterator A)
      → IsHonest limit all fetcher
      → IsUnderWay limit all it
      → IsNext limit all it (next fetcher false it)
  unfolding next
  next-IsNext limit all fetcher it honest ready =
      elim (Option-cases (get_elem? it.current_page it.offset)) [
        | inl e ↦
            rw (e, next)
              (turn_page-IsNext limit all fetcher it honest ready
                (get_elem?-none it.current_page it.offset e))
        | inr (x, e) ↦
            rw (e, next)
              (inr (x, refl, rw (get_elem?-some it.current_page it.offset x e) refl, ready))
      ]

  -- From an iterator under way, what is left.
  to_array-left :
      (fuel limit : ℕ) (all : List A) (fetcher : Fetcher A) (it : PaginatedIterator A)
      → IsHonest limit all fetcher
      → IsUnderWay limit all it
      → length (left all it) < fuel
      → to_array fuel fetcher it ≡ collected (left all it)
  unfolding to_array
  to_array-left zero limit all fetcher it honest ready h = absurd (omega arith)
  to_array-left (suc fuel) limit all fetcher it honest ready h =
      elim (next-IsNext limit all fetcher it honest ready) [
        | inl (e, over) ↦ rw (e, to_array) (rw over refl)
        | inr (x, e, split, ready') ↦
            let it' = (next fetcher false it).1 in
            let shorter : length (left all it') < fuel =
              omega (arith, h, ap (λ (l : List A). length l) split) in
            rw (e, to_array)
              (rw (to_array-left fuel limit all fetcher it' honest ready' shorter) (rw split refl))
      ]

  -- Over a server with a listing, `toArray` ends, and returns the listing from the start page on, each
  -- item once and in its order, if the listing has no more pages than the iterator may go to.
  pub to_array-create :
      (all : List A) (fetcher : Fetcher A) (limit start_page max_pages : Option ℕ) (fuel : ℕ)
      → let it : PaginatedIterator A = create limit start_page max_pages in
        IsHonest it.limit all fetcher
        → length all ≤ it.max_pages * it.limit
        → length all < fuel
        → let it : PaginatedIterator A = create limit start_page max_pages in
          to_array fuel fetcher it ≡ collected (drop ((it.page - 1) * it.limit) all)
  unfolding create
  to_array-create all fetcher limit start_page max_pages fuel honest room h =
      let it : PaginatedIterator A = create limit start_page max_pages in
      to_array-left fuel it.limit all fetcher it honest
        (refl, omega arith, omega arith, room, inl refl, refl)
        (omega (arith, h, drop-length ((it.page - 1) * it.limit) all))

  -- Without a start page, from the first.
  pub create-first :
      (all : List A) (limit max_pages : Option ℕ)
      → let it : PaginatedIterator A = create limit none max_pages in
        drop ((it.page - 1) * it.limit) all ≡ all
  unfolding create
  create-first all limit max_pages =
      let it : PaginatedIterator A = create limit none max_pages in
      let start : (it.page - 1) * it.limit ≡ 0 = omega arith in ap (λ n. drop n all) start
