-- ===== src/Shared/Sort.antt =====
-- `Array.prototype.sort`, which is stable, by a Boolean order.
use mathlib.Core.Path.{◌≡◌, subst}
use mathlib.Core.Logic.{inl, inr}
use mathlib.Core.Bool.{Bool, true}
use mathlib.Core.List.{List, [], ◌∷◌, ◌++◌}
use Prim.Native.Nat.{ℕ, zero, suc}
use native.Mathlib.Omega.{arith}
use xstream_roll.Shared.Tests.{if◌then◌else◌, Bool-cases}
use xstream_roll.Shared.Lists.{All, length, filter, take, drop}

module _ {ℓ} {A : Type ℓ} (le : A → A → Bool) where
  abbrev pub insert_by : A → List A → List A
  insert_by x [] = x ∷ []
  insert_by x (y ∷ ys) = if le x y then x ∷ y ∷ ys else y ∷ insert_by x ys

  abbrev pub sort_by : List A → List A
  sort_by [] = []
  sort_by (x ∷ xs) = insert_by x (sort_by xs)

  pub length-insert_by : (x : A) (xs : List A) → length (insert_by x xs) ≡ suc (length xs)
  length-insert_by x [] = omega arith
  length-insert_by x (y ∷ ys) = ground (arith, length-insert_by x ys)

  pub length-sort_by : (xs : List A) → length (sort_by xs) ≡ length xs
  length-sort_by [] = omega arith
  length-sort_by (x ∷ xs) = ground (arith, length-insert_by x (sort_by xs), length-sort_by xs)

module _ {ℓ κ} {A : Type ℓ} (P : A → Type κ) where
  pub insert_by-All :
      (le : A → A → Bool) (x : A) (xs : List A) → P x → All P xs → All P (insert_by le x xs)
  insert_by-All le x [] px h = (px, h)
  insert_by-All le x (y ∷ ys) px h = elim (Bool-cases (le x y)) [
    | inl e ↦ rw e (px, h)
    | inr e ↦ rw e (h.0, insert_by-All le x ys px h.1)
  ]

  pub sort_by-All : (le : A → A → Bool) (xs : List A) → All P xs → All P (sort_by le xs)
  sort_by-All le [] h = h
  sort_by-All le (x ∷ xs) h = insert_by-All le x _ h.0 (sort_by-All le xs h.1)

  pub take-All : (n : ℕ) (xs : List A) → All P xs → All P (take n xs)
  take-All zero xs h = tt
  take-All (suc n) [] h = tt
  take-All (suc n) (x ∷ xs) h = (h.0, take-All n xs h.1)

  pub drop-All : (n : ℕ) (xs : List A) → All P xs → All P (drop n xs)
  drop-All zero xs h = h
  drop-All (suc n) [] h = tt
  drop-All (suc n) (x ∷ xs) h = drop-All n xs h.1

  pub kept-All : (p : A → Bool) (xs : List A) → All P xs → All P (filter p xs)
  kept-All p [] h = tt
  kept-All p (x ∷ xs) h = elim (Bool-cases (p x)) [
    | inl e ↦ rw e (h.0, kept-All p xs h.1)
    | inr e ↦ rw e (kept-All p xs h.1)
  ]

  pub append-All : (xs ys : List A) → All P xs → All P ys → All P (xs ++ ys)
  append-All [] ys h k = k
  append-All (x ∷ xs) ys h k = (h.0, append-All xs ys h.1 k)

  pub uninsert_by-All :
      (le : A → A → Bool) (x : A) (xs : List A) → All P (insert_by le x xs) → P x × All P xs
  uninsert_by-All le x [] h = (h.0, tt)
  uninsert_by-All le x (y ∷ ys) h = elim (Bool-cases (le x y)) [
    | inl e ↦
        let l : All P (x ∷ y ∷ ys) =
          subst (λ b. All P (if b then x ∷ y ∷ ys else y ∷ insert_by le x ys)) e h in
        (l.0, l.1)
    | inr e ↦
        let l : All P (y ∷ insert_by le x ys) =
          subst (λ b. All P (if b then x ∷ y ∷ ys else y ∷ insert_by le x ys)) e h in
        let rest = uninsert_by-All le x ys l.1 in (rest.0, (l.0, rest.1))
  ]

  pub unsort_by-All : (le : A → A → Bool) (xs : List A) → All P (sort_by le xs) → All P xs
  unsort_by-All le [] h = h
  unsort_by-All le (x ∷ xs) h =
      let rest = uninsert_by-All le x (sort_by le xs) h in (rest.0, unsort_by-All le xs rest.1)

  pub filter-All :
      (p : A → Bool) → ((x : A) → p x ≡ true → P x) → (xs : List A) → All P (filter p xs)
  filter-All p f [] = tt
  filter-All p f (x ∷ xs) = elim (Bool-cases (p x)) [
    | inl e ↦ rw e (f x e, filter-All p f xs)
    | inr e ↦ rw e (filter-All p f xs)
  ]

pub All-map {ℓ κ μ} :
    {A : Type ℓ} {P : A → Type κ} {Q : A → Type μ}
    → ((x : A) → P x → Q x)
    → (xs : List A) → All P xs
    → All Q xs
All-map f [] h = tt
All-map f (x ∷ xs) h = (f x h.0, All-map f xs h.1)
