-- ===== src/Streams/Database/Swap/Mirror.antt =====
-- A table of streams and the map with the same streams by their ids.
use xstream_roll.Shared.{
  ℕ, ◌<◌, ◌≡◌, refl, sym, ap, subst, Bool, false, not, some, List, [], ◌∷◌, ◌++◌, map, filter, All,
  append-All, kept-All, Bool-cases, inl, inr, arith, ◌==◌, number_key, same_number_iff,
}
use xstream_roll.Shared.Dict
use xstream_roll.Shared.Dict.{Dict}
use xstream_roll.Streams.{Stream, StreamUpdateChanges, changed}
use xstream_roll.Streams.Database.{first, set_columns}

abbrev pub keyed : List Stream → Dict ℕ Stream
keyed rows = map (λ t. (t.id, t)) rows

abbrev pub IsUnique : List Stream → Type 0
IsUnique [] = Unit
IsUnique (x ∷ xs) = All (λ y. (y.id == x.id) ≡ false) xs × IsUnique xs

pub get-keyed :
    (id : ℕ) (rows : List Stream) → Dict.get id (keyed rows) ≡ first (filter (λ r. r.id == id) rows)
unfolding Dict.get
get-keyed id [] = refl
get-keyed id (x ∷ xs) = elim (Bool-cases (x.id == id)) [
  | inl e ↦ rw e refl
  | inr e ↦ rw e (get-keyed id xs)
]

pub set-keyed_new :
    (id : ℕ) (t : Stream) (rows : List Stream)
    → t.id ≡ id
    → All (λ r. (r.id == id) ≡ false) rows
    → Dict.set id t (keyed rows) ≡ keyed (rows ++ t ∷ [])
unfolding Dict.set
set-keyed_new id t [] e h = ap (λ n. (n, t) ∷ []) (sym e)
set-keyed_new id t (x ∷ xs) e h = rw h.0 (ap (λ l. (x.id, x) ∷ l) (set-keyed_new id t xs e h.1))

pub set_columns-absent :
    (id : ℕ) (c : StreamUpdateChanges) (now : ℕ) (rows : List Stream)
    → All (λ r. (r.id == id) ≡ false) rows
    → set_columns id c now rows ≡ rows
unfolding set_columns
set_columns-absent id c now [] h = refl
set_columns-absent id c now (x ∷ xs) h =
    rw h.0 (ap (λ l. x ∷ l) (set_columns-absent id c now xs h.1))

pub set-keyed_old :
    (id : ℕ) (c : StreamUpdateChanges) (now : ℕ) (rows : List Stream) (t : Stream)
    → IsUnique rows
    → first (filter (λ r. r.id == id) rows) ≡ some t
    → Dict.set id (changed t c now) (keyed rows) ≡ keyed (set_columns id c now rows)
unfolding Dict.set set_columns changed
set-keyed_old id c now [] t u e = absurd (ground (arith, e))
set-keyed_old id c now (x ∷ xs) t u e = elim (Bool-cases (x.id == id)) [
  | inl same ↦
      let hit : x ≡ t = ground (arith, e, same) in
      let others : All (λ r. (r.id == id) ≡ false) xs =
        subst (λ n. All (λ r. (r.id == n) ≡ false) xs) ((same_number_iff x.id id).0 same) u.0 in
      rw (same, set_columns-absent id c now xs others)
        (ap (λ (w : Stream). (x.id, changed w c now) ∷ keyed xs) (sym hit))
  | inr other ↦
      rw other
        (ap (λ l. (x.id, x) ∷ l) (set-keyed_old id c now xs t u.1 (ground (arith, e, other))))
]

pub delete-keyed :
    (id : ℕ) (rows : List Stream)
    → Dict.delete id (keyed rows) ≡ keyed (filter (λ r. not (r.id == id)) rows)
unfolding Dict.delete
delete-keyed id [] = refl
delete-keyed id (x ∷ xs) = elim (Bool-cases (x.id == id)) [
  | inl e ↦ rw e (delete-keyed id xs)
  | inr e ↦ rw e (ap (λ l. (x.id, x) ∷ l) (delete-keyed id xs))
]

pub filter-IsUnique :
    (p : Stream → Bool) (rows : List Stream) → IsUnique rows → IsUnique (filter p rows)
filter-IsUnique p [] u = tt
filter-IsUnique p (x ∷ xs) u = elim (Bool-cases (p x)) [
  | inl e ↦ rw e (kept-All (λ y. (y.id == x.id) ≡ false) p xs u.0, filter-IsUnique p xs u.1)
  | inr e ↦ rw e (filter-IsUnique p xs u.1)
]

pub append-IsUnique :
    (t : Stream) (rows : List Stream)
    → IsUnique rows
    → All (λ r. r.id < t.id) rows
    → IsUnique (rows ++ t ∷ [])
append-IsUnique t [] u h = (tt, tt)
append-IsUnique t (x ∷ xs) u h =
    let other : (t.id == x.id) ≡ false = ground (arith, h.0) in
    (
      append-All (λ r. (r.id == x.id) ≡ false) xs (t ∷ []) u.0 (other, tt),
      append-IsUnique t xs u.1 h.1,
    )

-- The columns that are set keep the id.
pub set_columns-All :
    (P : ℕ → Type 0) (id : ℕ) (c : StreamUpdateChanges) (now : ℕ) (rows : List Stream)
    → All (λ r. P r.id) rows
    → All (λ r. P r.id) (set_columns id c now rows)
unfolding set_columns changed
set_columns-All P id c now [] h = tt
set_columns-All P id c now (x ∷ xs) h = elim (Bool-cases (x.id == id)) [
  | inl e ↦ rw e (h.0, set_columns-All P id c now xs h.1)
  | inr e ↦ rw e (h.0, set_columns-All P id c now xs h.1)
]

pub set_columns-IsUnique :
    (id : ℕ) (c : StreamUpdateChanges) (now : ℕ) (rows : List Stream)
    → IsUnique rows
    → IsUnique (set_columns id c now rows)
unfolding set_columns changed
set_columns-IsUnique id c now [] u = tt
set_columns-IsUnique id c now (x ∷ xs) u =
    let rest = set_columns-All (λ n. (n == x.id) ≡ false) id c now xs u.0 in
    elim (Bool-cases (x.id == id)) [
      | inl e ↦ rw e (rest, set_columns-IsUnique id c now xs u.1)
      | inr e ↦ rw e (rest, set_columns-IsUnique id c now xs u.1)
    ]

pub first-set_columns :
    (id : ℕ) (c : StreamUpdateChanges) (now : ℕ) (rows : List Stream) (t : Stream)
    → first (filter (λ r. r.id == id) rows) ≡ some t
    → first (filter (λ r. r.id == id) (set_columns id c now rows)) ≡ some (changed t c now)
unfolding set_columns changed
first-set_columns id c now [] t e = absurd (ground (arith, e))
first-set_columns id c now (x ∷ xs) t e = elim (Bool-cases (x.id == id)) [
  | inl same ↦
      let hit : x ≡ t = ground (arith, e, same) in
      rw same (rw same (ap (λ (w : Stream). some (changed w c now)) hit))
  | inr other ↦ rw other (rw other (first-set_columns id c now xs t (ground (arith, e, other))))
]
