-- ===== src/Streams/Database/Order.antt =====
-- The order of `getPendingEvents`, by time and then by id, and what a page of it leaves out.
use xstream_roll.Shared.{
  ℕ, zero, suc, ◌≡◌, ◌≢◌, subst, inl, inr, ◌⊎◌, Bool, true, some, List, [], ◌∷◌, ◌++◌, take, filter,
  sort_by, insert_by, All, All-map, insert_by-All, sort_by-All, take-All, kept-All, append-All,
  Bool-cases, arith,
}
use xstream_roll.Streams.Database.{StreamData, Cursor, cursor_of, is_after, row_le, last}

-- Each row comes strictly before those that follow it.
abbrev pub IsIncreasing : List StreamData → Type 0
IsIncreasing [] = Unit
IsIncreasing (x ∷ xs) = All (λ y. is_after (cursor_of x) y ≡ true) xs × IsIncreasing xs

abbrev pub HasDistinctIds : List StreamData → Type 0
HasDistinctIds [] = Unit
HasDistinctIds (x ∷ xs) = All (λ y. y.id ≢ x.id) xs × HasDistinctIds xs

pub is_after_trans :
    (c : Cursor) (y z : StreamData)
    → is_after c y ≡ true
    → is_after (cursor_of y) z ≡ true
    → is_after c z ≡ true
is_after_trans c y z h k = ground arith

insert_by-IsIncreasing :
    (x : StreamData) (ys : List StreamData)
    → All (λ y. y.id ≢ x.id) ys
    → IsIncreasing ys
    → IsIncreasing (insert_by row_le x ys)
insert_by-IsIncreasing x [] d inc = (tt, tt)
insert_by-IsIncreasing x (y ∷ ys) d inc = elim (Bool-cases (row_le x y)) [
  | inl e ↦
      let xy : is_after (cursor_of x) y ≡ true = ground (arith, e, d.0) in
      rw e ((xy, All-map (λ z h. is_after_trans (cursor_of x) y z xy h) ys inc.0), inc)
  | inr e ↦
      let yx : is_after (cursor_of y) x ≡ true = ground (arith, e, d.0) in
      rw e (
        insert_by-All (λ z. is_after (cursor_of y) z ≡ true) row_le x ys yx inc.0,
        insert_by-IsIncreasing x ys d.1 inc.1,
      )
]

pub sort_by-IsIncreasing :
    (xs : List StreamData) → HasDistinctIds xs → IsIncreasing (sort_by row_le xs)
sort_by-IsIncreasing [] d = tt
sort_by-IsIncreasing (x ∷ xs) d =
    insert_by-IsIncreasing x (sort_by row_le xs) (sort_by-All (λ y. y.id ≢ x.id) row_le xs d.0)
      (sort_by-IsIncreasing xs d.1)

pub filter-HasDistinctIds :
    (p : StreamData → Bool) (xs : List StreamData)
    → HasDistinctIds xs
    → HasDistinctIds (filter p xs)
filter-HasDistinctIds p [] d = tt
filter-HasDistinctIds p (x ∷ xs) d = elim (Bool-cases (p x)) [
  | inl e ↦ rw e (kept-All (λ y. y.id ≢ x.id) p xs d.0, filter-HasDistinctIds p xs d.1)
  | inr e ↦ rw e (filter-HasDistinctIds p xs d.1)
]

pub take-IsIncreasing : (n : ℕ) (xs : List StreamData) → IsIncreasing xs → IsIncreasing (take n xs)
take-IsIncreasing zero xs inc = tt
take-IsIncreasing (suc n) [] inc = tt
take-IsIncreasing (suc n) (x ∷ xs) inc =
    (take-All (λ y. is_after (cursor_of x) y ≡ true) n xs inc.0, take-IsIncreasing n xs inc.1)

pub last-All :
    (P : StreamData → Type 0) (xs : List StreamData) (x : StreamData)
    → All P xs
    → last xs ≡ some x
    → P x
last-All P [] x h e = absurd (ground (arith, e))
last-All P (y ∷ []) x h e = let hit : y ≡ x = ground (arith, e) in subst P hit h.0
last-All P (y ∷ z ∷ xs) x h e = last-All P (z ∷ xs) x h.1 e

-- A row of an increasing list is on the page or comes after the page's last row.
pub take-covers :
    (P : StreamData → Type 0) (n : ℕ) (xs : List StreamData) (x : StreamData)
    → IsIncreasing xs
    → last (take n xs) ≡ some x
    → All P (take n xs)
    → All (λ r. P r ⊎ (is_after (cursor_of x) r ≡ true)) xs
take-covers P zero xs x inc e h = absurd (ground (arith, e))
take-covers P (suc n) [] x inc e h = tt
take-covers P (suc zero) (y ∷ xs) x inc e h =
    let hit : y ≡ x = ground (arith, e) in
    (
      inl h.0,
      All-map (λ r k. inr k) xs
          (subst (λ w. All (λ r. is_after (cursor_of w) r ≡ true) xs) hit inc.0),
    )
take-covers P (suc (suc n)) (y ∷ []) x inc e h = (inl h.0, tt)
take-covers P (suc (suc n)) (y ∷ z ∷ xs) x inc e h =
    (inl h.0, take-covers P (suc n) (z ∷ xs) x inc.1 e h.1)

-- What comes after the last row comes after the first.
after_last :
    (w : StreamData) (xs ys : List StreamData) (x : StreamData)
    → IsIncreasing (w ∷ xs)
    → last (w ∷ xs) ≡ some x
    → All (λ y. is_after (cursor_of x) y ≡ true) ys
    → All (λ y. is_after (cursor_of w) y ≡ true) ys
after_last w [] ys x inc e h =
    let hit : x ≡ w = ground (arith, e) in
    subst (λ v. All (λ y. is_after (cursor_of v) y ≡ true) ys) hit h
after_last w (z ∷ xs) ys x inc e h =
    let wx : is_after (cursor_of w) x ≡ true =
      last-All (λ r. is_after (cursor_of w) r ≡ true) (z ∷ xs) x inc.0 e in
    All-map (λ y k. is_after_trans (cursor_of w) x y wx k) ys h

pub append-IsIncreasing :
    (xs ys : List StreamData) (x : StreamData)
    → IsIncreasing xs
    → IsIncreasing ys
    → last xs ≡ some x
    → All (λ y. is_after (cursor_of x) y ≡ true) ys
    → IsIncreasing (xs ++ ys)
append-IsIncreasing [] ys x a b e h = b
append-IsIncreasing (w ∷ []) ys x a b e h = (after_last w [] ys x a e h, b)
append-IsIncreasing (w ∷ z ∷ xs) ys x a b e h = (
  append-All (λ y. is_after (cursor_of w) y ≡ true) (z ∷ xs) ys a.0
      (after_last w (z ∷ xs) ys x a e h),
  append-IsIncreasing (z ∷ xs) ys x a.1 b e h,
)
