-- ===== src/Streams/Database/Paging.antt =====
-- The rows that a page of `getPendingEvents` has, and those that are left after it.
use mathlib.Core.List.{Memᴰ}
use mathlib.Core.List
use xstream_roll.Shared.{
  ℕ, suc, ◌≤◌, ◌≡◌, ◌⊎◌, inl, inr, Bool, true, false, Option, none, some, List, [], ◌∷◌, refl,
  subst, ltb, take, filter, sort_by, length, All, All-map, take-All, filter-All, sort_by-All,
  Bool-cases, arith, if◌then◌else◌,
}
use xstream_roll.Streams.Database.{
  StreamData, StreamTables, Cursor, cursor_of, is_after, is_wanted, row_le, last,
}
use xstream_roll.Streams.Database.Order.{
  IsIncreasing, is_after_trans, sort_by-IsIncreasing, filter-HasDistinctIds, last-All,
}
use xstream_roll.Streams.Database.Ingest.{IsStored}

-- The rows after a cursor, in order.
abbrev pub rows_after : StreamTables → Option Cursor → List StreamData
rows_after db after = sort_by row_le (filter (is_wanted after) db.stream_data)

abbrev pub count_after : StreamTables → Option Cursor → ℕ
count_after db after = length (filter (is_wanted after) db.stream_data)

pub rows_after-IsIncreasing :
    (db : StreamTables) (after : Option Cursor) → IsStored db → IsIncreasing (rows_after db after)
rows_after-IsIncreasing db after s =
    sort_by-IsIncreasing (filter (is_wanted after) db.stream_data)
      (filter-HasDistinctIds (is_wanted after) db.stream_data s.0)

pub rows_after-wanted :
    (db : StreamTables) (after : Option Cursor)
    → All (λ r. is_wanted after r ≡ true) (rows_after db after)
rows_after-wanted db after =
    sort_by-All (λ r. is_wanted after r ≡ true) row_le (filter (is_wanted after) db.stream_data)
      (filter-All (λ r. is_wanted after r ≡ true) (is_wanted after) (λ r h. h) db.stream_data)

pub wanted_trans :
    (after : Option Cursor) (x y : StreamData)
    → is_wanted after x ≡ true
    → is_after (cursor_of x) y ≡ true
    → is_wanted after y ≡ true
wanted_trans none x y h k = refl
wanted_trans (some c) x y h k = is_after_trans c x y h k

pub unfilter-All :
    (P : StreamData → Type 0) (p : StreamData → Bool) (xs : List StreamData)
    → All P (filter p xs)
    → All (λ r. (p r ≡ false) ⊎ P r) xs
unfilter-All P p [] h = tt
unfilter-All P p (x ∷ xs) h = elim (Bool-cases (p x)) [
  | inl e ↦
      let l : All P (x ∷ filter p xs) =
        subst (λ b. All P (if b then x ∷ filter p xs else filter p xs)) e h in
      (inr l.0, unfilter-All P p xs l.1)
  | inr e ↦
      let l : All P (filter p xs) =
        subst (λ b. All P (if b then x ∷ filter p xs else filter p xs)) e h in
      (inl e, unfilter-All P p xs l)
]

filter-fewer :
    (p q : StreamData → Bool) (xs : List StreamData)
    → ((r : StreamData) → p r ≡ true → q r ≡ true)
    → length (filter p xs) ≤ length (filter q xs)
filter-fewer p q [] h = omega arith
filter-fewer p q (x ∷ xs) h = elim (Bool-cases (p x)) [
  | inl e ↦ ground (arith, filter-fewer p q xs h, h x e)
  | inr e ↦ ground (arith, filter-fewer p q xs h)
]

-- If the weaker test lets no more through, all it lets through passes the stronger one.
filter-no_fewer :
    (p q : StreamData → Bool) (xs : List StreamData)
    → ((r : StreamData) → p r ≡ true → q r ≡ true)
    → length (filter q xs) ≤ length (filter p xs)
    → All (λ r. p r ≡ true) (filter q xs)
filter-no_fewer p q [] h few = tt
filter-no_fewer p q (x ∷ xs) h few = elim (Bool-cases (q x)) [
  | inl e ↦ elim (Bool-cases (p x)) [
    | inl both ↦ rw e (both, filter-no_fewer p q xs h (ground (arith, few, e, both)))
    | inr dropped ↦ absurd (ground (arith, few, e, dropped, filter-fewer p q xs h))
  ]
  | inr e ↦
      let out : p x ≡ false = elim (Bool-cases (p x)) [
        | inl k ↦ absurd (ground (arith, h x k, e))
        | inr k ↦ k
      ] in
      rw e (filter-no_fewer p q xs h (ground (arith, few, e, out)))
]

pub last-wanted :
    (db : StreamTables) (after : Option Cursor) (n : ℕ) (x : StreamData)
    → last (take n (rows_after db after)) ≡ some x
    → is_wanted after x ≡ true
last-wanted db after n x e =
    last-All (λ r. is_wanted after r ≡ true) (take n (rows_after db after)) x
      (take-All (λ r. is_wanted after r ≡ true) n (rows_after db after)
        (rows_after-wanted db after))
      e

-- After a row that was wanted fewer rows are wanted.
pub count_after-less :
    (db : StreamTables) (after : Option Cursor) (n : ℕ) (x : StreamData)
    → last (take n (rows_after db after)) ≡ some x
    → suc (count_after db (some (cursor_of x))) ≤ count_after db after
count_after-less db after n x e =
    let p = is_wanted (some (cursor_of x)) in
    let q = is_wanted after in
    let wanted = last-wanted db after n x e in
    elim (Bool-cases (ltb (count_after db (some (cursor_of x))) (count_after db after))) [
      | inl less ↦ ground (arith, less)
      | inr not_less ↦
          let all : All (λ r. p r ≡ true) (filter q db.stream_data) =
            filter-no_fewer p q db.stream_data (λ r k. wanted_trans after x r wanted k)
              (ground (arith, not_less)) in
          let self : is_after (cursor_of x) x ≡ true =
            last-All (λ r. p r ≡ true) (take n (rows_after db after)) x
              (take-All (λ r. p r ≡ true) n (rows_after db after)
                (sort_by-All (λ r. p r ≡ true) row_le (filter q db.stream_data) all))
              e in
          absurd (ground (arith, self))
    ]

pub mems : (xs : List StreamData) → All (λ r. Memᴰ r xs) xs
mems [] = tt
mems (x ∷ xs) = (List.Memᴰ.head refl, All-map (λ r (h : Memᴰ r xs). List.Memᴰ.tail h) xs (mems xs))

pub All-both :
    {P Q R : StreamData → Type 0} (f : (r : StreamData) → P r → Q r → R r) (xs : List StreamData)
    → All P xs
    → All Q xs
    → All R xs
All-both f [] h k = tt
All-both f (x ∷ xs) h k = (f x h.0 k.0, All-both f xs h.1 k.1)

pub last-none : (xs : List StreamData) → last xs ≡ none → length xs ≡ 0
last-none [] h = refl
last-none (x ∷ []) h = absurd (ground (arith, h))
last-none (x ∷ y ∷ xs) h = absurd (ground (arith, last-none (y ∷ xs) h))

pub found : (r : StreamData) (xs : List StreamData) → (true ≡ false) ⊎ Memᴰ r xs → Memᴰ r xs
found r xs (inl never) = absurd (ground (arith, never))
found r xs (inr m) = m
