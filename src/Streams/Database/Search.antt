-- ===== src/Streams/Database/Search.antt =====
-- The search of a listing: by `ILIKE` with an escaped pattern in streams-db.repository.ts, and by
-- `includes` in streams.repository.ts. A text is the list of its characters' codes. `ILIKE` is the
-- database's, with what its documentation says of `%` (37), of the escape `\` (92) and of any character
-- but these and `_` (95); characters that have the same lower case are taken to be the same.
use xstream_roll.Shared.{
  ℕ, String, ◌≡◌, refl, ◌∙◌, Option-cases, Bool, true, false, ◌&&◌, ◌||◌, none, some, List, [], ◌∷◌,
  ◌++◌, map, Bool-cases, inl, inr, arith, if◌then◌else◌, ◌==◌, number_key,
}
use xstream_roll.Streams.{Stream}

abbrev pub is_special : ℕ → Bool
is_special c = c == 92 || c == 37 || c == 95

pub escape_like_pattern : List ℕ → List ℕ
escape_like_pattern [] = []
escape_like_pattern (c ∷ cs) =
    if is_special c then 92 ∷ c ∷ escape_like_pattern cs else c ∷ escape_like_pattern cs

-- What the database does with a pattern.
pub record Matching : Type 0 where
  pub lower : ℕ → ℕ
  pub ilike : List ℕ → List ℕ → Bool
  pub empty_empty : ilike [] [] ≡ true
  pub empty_more : (d : ℕ) (t : List ℕ) → ilike [] (d ∷ t) ≡ false
  pub any_empty : (p : List ℕ) → ilike (37 ∷ p) [] ≡ ilike p []
  pub any_more :
      (p : List ℕ) (d : ℕ) (t : List ℕ)
      → ilike (37 ∷ p) (d ∷ t) ≡ (ilike p (d ∷ t) || ilike (37 ∷ p) t)
  pub escaped_empty : (p : List ℕ) (c : ℕ) → ilike (92 ∷ c ∷ p) [] ≡ false
  pub escaped_more :
      (p : List ℕ) (c d : ℕ) (t : List ℕ)
      → ilike (92 ∷ c ∷ p) (d ∷ t) ≡ (lower c == lower d && ilike p t)
  pub plain_empty : (p : List ℕ) (c : ℕ) → is_special c ≡ false → ilike (c ∷ p) [] ≡ false
  pub plain_more :
      (p : List ℕ) (c d : ℕ) (t : List ℕ)
      → is_special c ≡ false
      → ilike (c ∷ p) (d ∷ t) ≡ (lower c == lower d && ilike p t)

pub starts_with : List ℕ → List ℕ → Bool
starts_with [] t = true
starts_with (c ∷ q) [] = false
starts_with (c ∷ q) (d ∷ t) = c == d && starts_with q t

-- `String.prototype.includes`.
pub includes : List ℕ → List ℕ → Bool
unfolding starts_with
includes q [] = starts_with q []
includes q (d ∷ t) = starts_with q (d ∷ t) || includes q t

module _ (m : Matching) (chars : String → List ℕ) where
  open m use {
    lower, ilike, empty_empty, empty_more, any_empty, any_more, escaped_empty, escaped_more,
    plain_empty, plain_more,
  }

  -- The condition of the listing of the database; a description that is null does not match.
  pub db_search : List ℕ → Stream → Bool
  unfolding escape_like_pattern
  db_search q row =
      let pattern = 37 ∷ escape_like_pattern q ++ 37 ∷ [] in
      ilike pattern (chars row.name)
      || (elim row.description [ none ↦ false | some d ↦ ilike pattern (chars d) ])

  -- The filter of the listing in memory; a description that is null is the empty text.
  pub memory_search : List ℕ → Stream → Bool
  unfolding includes
  memory_search q s =
      let needle = map lower q in
      includes needle (map lower (chars s.name)) || (elim s.description [
        | none ↦ includes needle []
        | some d ↦ includes needle (map lower (chars d))
      ])

  ilike-any : (t : List ℕ) → ilike (37 ∷ []) t ≡ true
  ilike-any [] = any_empty [] ∙ empty_empty
  ilike-any (d ∷ t) = ground (arith, any_more [] d t, ilike-any t)

  ilike-escaped :
      (q t : List ℕ)
      → ilike (escape_like_pattern q ++ 37 ∷ []) t ≡ starts_with (map lower q) (map lower t)
  unfolding escape_like_pattern starts_with
  ilike-escaped [] t = ilike-any t
  ilike-escaped (c ∷ q) [] = elim (Bool-cases (is_special c)) [
    | inl e ↦ rw e (escaped_empty (escape_like_pattern q ++ 37 ∷ []) c)
    | inr e ↦ rw e (plain_empty (escape_like_pattern q ++ 37 ∷ []) c e)
  ]
  ilike-escaped (c ∷ q) (d ∷ t) =
      let p = escape_like_pattern q ++ 37 ∷ [] in
      elim (Bool-cases (is_special c)) [
        | inl e ↦ rw (e, escaped_more p c d t, ilike-escaped q t) refl
        | inr e ↦ rw (e, plain_more p c d t e, ilike-escaped q t) refl
      ]

  -- The pattern matches the texts that have the search text in them, whatever their case, and
  -- whichever characters of the search text are wildcards elsewhere.
  pub ilike-includes :
      (q t : List ℕ)
      → ilike (37 ∷ escape_like_pattern q ++ 37 ∷ []) t ≡ includes (map lower q) (map lower t)
  unfolding includes
  ilike-includes q [] = any_empty _ ∙ ilike-escaped q []
  ilike-includes q (d ∷ t) =
      rw
        (
          any_more (escape_like_pattern q ++ 37 ∷ []) d t,
          ilike-escaped q (d ∷ t),
          ilike-includes q t,
        )
        refl

  pub db_search-memory_search :
      (c : ℕ) (q : List ℕ) (row : Stream) → db_search (c ∷ q) row ≡ memory_search (c ∷ q) row
  unfolding db_search memory_search
  db_search-memory_search c q row = elim (Option-cases row.description) [
    | inl e ↦ rw (e, ilike-includes (c ∷ q) (chars row.name)) refl
    | inr (d, e) ↦
        rw (e, ilike-includes (c ∷ q) (chars row.name), ilike-includes (c ∷ q) (chars d)) refl
  ]
