-- ===== src/Tags/Slug.antt =====
-- `slugify` of api/src/tags/slugify.ts, on a text's codes. `nfd` is the normalization and `lower` the
-- lower case of the platform.
use xstream_roll.Shared.{
  take_fits, take_short, ℕ, zero, suc, ◌≤◌, ◌<◌, ◌≡◌, ◌⊎◌, refl, ap, sym, ◌∙◌, inl, inr, Bool, true,
  false, not, ◌&&◌, ◌||◌, List, [], ◌∷◌, leb, filter, take, length, length-take, Bool-cases, arith,
  if◌then◌else◌, ◌==◌, number_key,
}

-- \u0300 to \u036f.
abbrev pub is_combining : ℕ → Bool
is_combining c = leb 768 c && leb c 879

abbrev pub is_alphanumeric : ℕ → Bool
is_alphanumeric c = leb 97 c && leb c 122 || leb 48 c && leb c 57

-- `.replace(/[^a-z0-9]+/g, "-")`; the flag says that a run has its dash already.
unfoldable pub replace_runs : Bool → List ℕ → List ℕ
replace_runs in_run [] = []
replace_runs in_run (c ∷ cs) =
    let after = replace_runs true cs in
    let next = replace_runs false cs in
    if is_alphanumeric c then c ∷ next else (if in_run then after else 45 ∷ after)

unfoldable pub trim_left : List ℕ → List ℕ
trim_left [] = []
trim_left (c ∷ cs) = let rest = trim_left cs in if c == 45 then rest else c ∷ cs

-- A dash at the end is dropped.
unfoldable pub dashless : ℕ → List ℕ → List ℕ
dashless c [] = if c == 45 then [] else c ∷ []
dashless c (d ∷ ds) = c ∷ d ∷ ds

unfoldable pub trim_right : List ℕ → List ℕ
unfolding dashless
trim_right [] = []
trim_right (c ∷ cs) = dashless c (trim_right cs)

-- Codes that are alphanumeric or single dashes; the flag says that no dash may come first.
abbrev pub IsSlug : Bool → List ℕ → Type 0
IsSlug dashed [] = Unit
IsSlug dashed (c ∷ cs) =
    ((is_alphanumeric c ≡ true) × IsSlug false cs) ⊎ ((c ≡ 45) × (dashed ≡ false) × IsSlug true cs)

replace_runs-IsSlug : (in_run : Bool) (cs : List ℕ) → IsSlug in_run (replace_runs in_run cs)
unfolding replace_runs
replace_runs-IsSlug in_run [] = tt
replace_runs-IsSlug true (c ∷ cs) = elim (Bool-cases (is_alphanumeric c)) [
  | inl e ↦ rw e (inl (e, replace_runs-IsSlug false cs))
  | inr e ↦ rw e (replace_runs-IsSlug true cs)
]
replace_runs-IsSlug false (c ∷ cs) = elim (Bool-cases (is_alphanumeric c)) [
  | inl e ↦ rw e (inl (e, replace_runs-IsSlug false cs))
  | inr e ↦ rw e (inr (refl, refl, replace_runs-IsSlug true cs))
]

take-IsSlug : (n : ℕ) (dashed : Bool) (s : List ℕ) → IsSlug dashed s → IsSlug dashed (take n s)
take-IsSlug zero dashed s h = tt
take-IsSlug (suc n) dashed [] h = tt
take-IsSlug (suc n) dashed (c ∷ cs) (inl h) = inl (h.0, take-IsSlug n false cs h.1)
take-IsSlug (suc n) dashed (c ∷ cs) (inr h) = inr (h.0, h.1, take-IsSlug n true cs h.2)

trim_left-fixed : (s : List ℕ) → IsSlug true s → trim_left s ≡ s
unfolding trim_left
trim_left-fixed [] h = refl
trim_left-fixed (c ∷ cs) (inl h) =
    let letter : (c == 45) ≡ false = ground (arith, h.0) in rw letter refl
trim_left-fixed (c ∷ cs) (inr h) = absurd (ground (arith, h.1))

trim_left-IsSlug : (s : List ℕ) → IsSlug false s → IsSlug true (trim_left s)
unfolding trim_left
trim_left-IsSlug [] h = tt
trim_left-IsSlug (c ∷ cs) (inl h) =
    let letter : (c == 45) ≡ false = ground (arith, h.0) in rw letter (inl h)
trim_left-IsSlug (c ∷ cs) (inr h) =
    let dash : (c == 45) ≡ true = ground (arith, h.0) in rw (dash, trim_left-fixed cs h.2) h.2

dashless-IsSlug :
    (dashed : Bool) (c : ℕ) (l : List ℕ) → IsSlug dashed (c ∷ l) → IsSlug dashed (dashless c l)
unfolding dashless
dashless-IsSlug dashed c [] h = elim (Bool-cases (c == 45)) [ inl e ↦ rw e tt | inr e ↦ rw e h ]
dashless-IsSlug dashed c (d ∷ ds) h = h

trim_right-IsSlug : (dashed : Bool) (s : List ℕ) → IsSlug dashed s → IsSlug dashed (trim_right s)
unfolding trim_right
trim_right-IsSlug dashed [] h = tt
trim_right-IsSlug dashed (c ∷ cs) (inl h) =
    dashless-IsSlug dashed c (trim_right cs) (inl (h.0, trim_right-IsSlug false cs h.1))
trim_right-IsSlug dashed (c ∷ cs) (inr h) =
    dashless-IsSlug dashed c (trim_right cs) (inr (h.0, h.1, trim_right-IsSlug true cs h.2))

replace_runs-fixed : (dashed : Bool) (s : List ℕ) → IsSlug dashed s → replace_runs dashed s ≡ s
unfolding replace_runs
replace_runs-fixed dashed [] h = refl
replace_runs-fixed dashed (c ∷ cs) (inl h) =
    rw h.0 (ap (λ l. c ∷ l) (replace_runs-fixed false cs h.1))
replace_runs-fixed dashed (c ∷ cs) (inr h) =
    let dash : is_alphanumeric c ≡ false = ground (arith, h.0) in
    rw (dash, h.1) (ground (arith, h.0, replace_runs-fixed true cs h.2))

dashless-fixed : (c : ℕ) (l : List ℕ) → trim_right l ≡ l → trim_right (dashless c l) ≡ dashless c l
unfolding dashless trim_right
dashless-fixed c [] e = elim (Bool-cases (c == 45)) [
  | inl dash ↦ rw dash refl
  | inr other ↦ rw other (rw other refl)
]
dashless-fixed c (d ∷ ds) e = ap (λ l. dashless c l) e

trim_right-twice : (s : List ℕ) → trim_right (trim_right s) ≡ trim_right s
unfolding trim_right
trim_right-twice [] = refl
trim_right-twice (c ∷ cs) = dashless-fixed c (trim_right cs) (trim_right-twice cs)

loosened : (s : List ℕ) → IsSlug true s → IsSlug false s
loosened [] h = tt
loosened (c ∷ cs) (inl h) = inl h
loosened (c ∷ cs) (inr h) = inr (h.0, refl, h.2)

-- The letters and digits of slugs are no combining marks.
filter-fixed :
    (dashed : Bool) (s : List ℕ) → IsSlug dashed s → filter (λ c. not (is_combining c)) s ≡ s
filter-fixed dashed [] h = refl
filter-fixed dashed (c ∷ cs) (inl h) =
    let kept : not (is_combining c) ≡ true = ground (arith, h.0) in
    rw kept (ap (λ l. c ∷ l) (filter-fixed false cs h.1))
filter-fixed dashed (c ∷ cs) (inr h) =
    let kept : not (is_combining c) ≡ true = ground (arith, h.0) in
    rw kept (ap (λ l. c ∷ l) (filter-fixed true cs h.2))

module _ (nfd lower : List ℕ → List ℕ) where
  unfoldable pub slugify : List ℕ → List ℕ
  unfolding replace_runs trim_left trim_right
  slugify input = take 64 (
      trim_right
        (trim_left (replace_runs false (lower (filter (λ c. not (is_combining c)) (nfd input))))))

  untrimmed : List ℕ → List ℕ
  untrimmed input =
      trim_left (replace_runs false (lower (filter (λ c. not (is_combining c)) (nfd input))))

  -- A slug has at most 64 characters, all of them lower case letters of a to z, digits and dashes, and
  -- no dash comes first or after another, whatever the text.
  pub slugify-IsSlug :
      (input : List ℕ) → IsSlug true (slugify input) × (length (slugify input) ≤ 64)
  unfolding slugify untrimmed
  slugify-IsSlug input =
      let text = lower (filter (λ c. not (is_combining c)) (nfd input)) in
      let trimmed = trim_right (untrimmed input) in
      (
        take-IsSlug 64 true trimmed (
            trim_right-IsSlug true (untrimmed input)
              (trim_left-IsSlug (replace_runs false text) (replace_runs-IsSlug false text))),
        omega (arith, length-take 64 trimmed),
      )

  -- A slug of less than 64 characters is its own slug, if the normalization and the lower case leave
  -- slugs as they are. One that was cut at 64 may end in a dash, which would be trimmed.
  pub slugify_idempotent :
      ((s : List ℕ) → IsSlug true s → nfd s ≡ s)
      → ((s : List ℕ) → IsSlug true s → lower s ≡ s)
      → (input : List ℕ) → length (slugify input) < 64
      → slugify (slugify input) ≡ slugify input
  unfolding slugify untrimmed
  slugify_idempotent plain lowered input short =
      let s = slugify input in
      let fine = (slugify-IsSlug input).0 in
      let whole : s ≡ trim_right (untrimmed input) =
        take_short 64 (trim_right (untrimmed input)) short in
      let ended : trim_right s ≡ s =
        ap (λ l. trim_right l) whole ∙ trim_right-twice (untrimmed input) ∙ sym whole in
      let runs : replace_runs false s ≡ s = replace_runs-fixed false s (loosened s fine) in
      ap
        (λ l. take 64 (
          trim_right
            (trim_left (replace_runs false (lower (filter (λ c. not (is_combining c)) l))))))
        (plain s fine)
      ∙ ap (λ l. take 64 (trim_right (trim_left (replace_runs false (lower l)))))
          (filter-fixed true s fine)
      ∙ ap (λ l. take 64 (trim_right (trim_left (replace_runs false l)))) (lowered s fine)
      ∙ ap (λ l. take 64 (trim_right (trim_left l))) runs
      ∙ ap (λ l. take 64 (trim_right l)) (trim_left-fixed s fine)
      ∙ ap (λ l. take 64 l) ended
      ∙ take_fits 64 s (slugify-IsSlug input).1
