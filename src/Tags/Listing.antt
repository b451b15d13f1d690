-- ===== src/Tags/Listing.antt =====
-- Which tags `listForStreamIds` lists for a stream.
use xstream_roll.Shared.{
  ℕ, ◌≡◌, refl, sym, ap, ◌∙◌, subst, Bool, true, false, ◌&&◌, ◌||◌, Option, none, some, List, [],
  ◌∷◌, ◌++◌, map, sort_by, insert_by, is_some, Bool-cases, Option-cases, inl, inr, arith, All, ◌==◌,
  string_key, number_key, pair_key, same_number_iff, String,
}
use xstream_roll.Shared.Dict
use xstream_roll.Shared.Dict.{Dict}
use xstream_roll.Tags.{
  Tag, StreamTag, TagsRepository, first_with, find_by_id, is_attached, requested, indexed, push_tag,
  pushed, tag_le, list_for_stream_ids,
}

-- The tag is one of these.
pub shows : ℕ → List Tag → Bool
shows id [] = false
shows id (tag ∷ tags) = tag.id == id || shows id tags

shows_option : ℕ → Option Tag → Bool
shows_option id none = false
shows_option id (some tag) = tag.id == id

shows-append :
    (id : ℕ) (xs : List Tag) (tag : Tag) → shows id (xs ++ tag ∷ []) ≡ (shows id xs || tag.id == id)
unfolding shows
shows-append id [] tag = ground arith
shows-append id (x ∷ xs) tag = ground (arith, shows-append id xs tag)

shows-insert_by :
    (le : Tag → Tag → Bool) (id : ℕ) (x : Tag) (xs : List Tag)
    → shows id (insert_by le x xs) ≡ (x.id == id || shows id xs)
unfolding shows
shows-insert_by le id x [] = refl
shows-insert_by le id x (y ∷ ys) = elim (Bool-cases (le x y)) [
  | inl e ↦ rw e refl
  | inr e ↦ rw e (ground (arith, shows-insert_by le id x ys))
]

shows-sort_by :
    (le : Tag → Tag → Bool) (id : ℕ) (xs : List Tag) → shows id (sort_by le xs) ≡ shows id xs
unfolding shows
shows-sort_by le id [] = refl
shows-sort_by le id (x ∷ xs) =
    shows-insert_by le id x (sort_by le xs) ∙ ap (λ b. x.id == id || b) (shows-sort_by le id xs)

-- The tags by their ids.
indexed-get :
    (k id : ℕ) (tags : List Tag) (m : Dict ℕ Tag)
    → shows_option id (Dict.get k m) ≡ (k == id && is_some (Dict.get k m))
    → shows_option id (Dict.get k (indexed tags m))
      ≡ (k == id && (is_some (first_with k tags) || is_some (Dict.get k m)))
unfolding indexed first_with shows_option
indexed-get k id [] m h = h
indexed-get k id (tag ∷ tags) m h =
    let m' : Dict ℕ Tag = Dict.set tag.id tag m in
    elim (Bool-cases (tag.id == k)) [
      | inl e ↦
          let found : Dict.get k m' ≡ some tag = ground (arith, Dict.get-set k tag.id tag m, e) in
          let start : shows_option id (Dict.get k m') ≡ (k == id && is_some (Dict.get k m')) =
            rw found (ground (arith, e)) in
          indexed-get k id tags m' start ∙ ground (arith, e, found)
      | inr e ↦
          let same : Dict.get k m' ≡ Dict.get k m =
            ground (arith, Dict.get-set k tag.id tag m, e) in
          let start : shows_option id (Dict.get k m') ≡ (k == id && is_some (Dict.get k m')) =
            rw same h in
          indexed-get k id tags m' start ∙ ground (arith, e, same)
    ]

-- A row lists its tag for its stream.
shown : ℕ → ℕ → Dict ℕ Tag → List StreamTag → Bool
unfolding shows_option
shown sid id by_id [] = false
shown sid id by_id (row ∷ rows) =
    row.stream_id == sid && shows_option id (Dict.get row.tag_id by_id) || shown sid id by_id rows

push_tag-other :
    (by_id : Dict ℕ Tag) (row : StreamTag) (m : Dict ℕ (List Tag)) (sid : ℕ) (l : List Tag)
    → Dict.get sid m ≡ some l
    → (row.stream_id == sid) ≡ false
    → Dict.get sid (push_tag by_id row m) ≡ some l
unfolding push_tag
push_tag-other by_id row m sid l h e = elim (Option-cases (Dict.get row.stream_id m)) [
  | inl gone ↦ rw (push_tag, gone) h
  | inr (tags, there) ↦ elim (Option-cases (Dict.get row.tag_id by_id)) [
    | inl gone ↦ rw (push_tag, there) (rw gone h)
    | inr (tag, found) ↦
        rw (push_tag, there)
          (rw found (ground (arith, Dict.get-set sid row.stream_id (tags ++ tag ∷ []) m, e, h)))
  ]
]

push_tag-get :
    (by_id : Dict ℕ Tag) (row : StreamTag) (m : Dict ℕ (List Tag)) (sid id : ℕ) (l : List Tag)
    → Dict.get sid m ≡ some l
    → (k : List Tag) × (Dict.get sid (push_tag by_id row m) ≡ some k)
      × (shows id k
          ≡ (shows id l || row.stream_id == sid && shows_option id (Dict.get row.tag_id by_id)))
unfolding push_tag shows_option
push_tag-get by_id row m sid id l h = elim (Bool-cases (row.stream_id == sid)) [
  | inl e ↦
      let here : Dict.get row.stream_id m ≡ some l =
        subst (λ n. Dict.get n m ≡ some l) (sym ((same_number_iff row.stream_id sid).0 e)) h in
      elim (Option-cases (Dict.get row.tag_id by_id)) [
        | inl gone ↦ (l, rw (push_tag, here) (rw gone h), ground (arith, gone))
        | inr (tag, there) ↦ (
          l ++ tag ∷ [],
          rw (push_tag, here)
              (rw there (ground (arith, Dict.get-set sid row.stream_id (l ++ tag ∷ []) m, e))),
          shows-append id l tag ∙ rw (e, there) refl,
        )
      ]
  | inr e ↦ (l, push_tag-other by_id row m sid l h e, ground (arith, e))
]

pushed-get :
    (by_id : Dict ℕ Tag) (rows : List StreamTag) (m : Dict ℕ (List Tag)) (sid id : ℕ) (l : List Tag)
    → Dict.get sid m ≡ some l
    → (k : List Tag) × (Dict.get sid (pushed by_id rows m) ≡ some k)
      × (shows id k ≡ (shows id l || shown sid id by_id rows))
unfolding pushed shown
pushed-get by_id [] m sid id l h = (l, h, ground arith)
pushed-get by_id (row ∷ rows) m sid id l h =
    let one = push_tag-get by_id row m sid id l h in
    let rest = pushed-get by_id rows (push_tag by_id row m) sid id one.0 one.1 in
    (rest.0, rest.1, ground (arith, rest.2, one.2))

-- Each row stands under its stream and its tag, which is there.
abbrev pub IsFiled : TagsRepository → (ℕ × ℕ) × StreamTag → Type 0
IsFiled r e = (e.0 ≡ (e.1.stream_id, e.1.tag_id)) × (is_some (find_by_id r e.1.tag_id) ≡ true)

abbrev pub IsStored : TagsRepository → Type 0
IsStored r = All (IsFiled r) r.stream_tags

shown-has :
    (r : TagsRepository) (sid id : ℕ) (rows : Dict (ℕ × ℕ) StreamTag)
    → All (IsFiled r) rows
    → shown sid id (indexed (Dict.values r.tags_by_slug) []) (Dict.values rows)
      ≡ Dict.has (sid, id) rows
unfolding shown Dict.get find_by_id
shown-has r sid id [] h = refl
shown-has r sid id ((k, row) ∷ rows) h =
    let by_id = indexed (Dict.values r.tags_by_slug) [] in
    let tag = indexed-get row.tag_id id (Dict.values r.tags_by_slug) [] (ground arith) in
    let shown_tag : shows_option id (Dict.get row.tag_id by_id) ≡ (row.tag_id == id) =
      tag ∙ ground (arith, h.0.1) in
    let rest = shown-has r sid id rows h.1 in
    subst
      (λ key.
        (row.stream_id == sid && shows_option id (Dict.get row.tag_id by_id)
          || shown sid id by_id (Dict.values rows))
        ≡ Dict.has (sid, id) ((key, row) ∷ rows))
      (sym h.0.0) (rw (shown_tag, rest) (ground arith))

get-map_sorted :
    (le : Tag → Tag → Bool) (sid : ℕ) (m : Dict ℕ (List Tag)) (l : List Tag)
    → Dict.get sid m ≡ some l
    → Dict.get sid (map (λ e. (e.0, sort_by le e.1)) m) ≡ some (sort_by le l)
unfolding Dict.get
get-map_sorted le sid [] l h = absurd (ground (arith, h))
get-map_sorted le sid ((j, v) ∷ m) l h = elim (Bool-cases (j == sid)) [
  | inl e ↦ let hit : v ≡ l = ground (arith, h, e) in rw (e, hit) refl
  | inr e ↦ rw e (get-map_sorted le sid m l (ground (arith, h, e)))
]

module _ (slug_le : String → String → Bool) where
  -- In a repository whose rows stand under their streams and tags, all of which are there, the listing
  -- of a stream is there, and it shows a tag just if the tag is attached to the stream.
  pub list_for_stream_ids-is_attached :
      (r : TagsRepository) (sid id : ℕ)
      → IsStored r
      → (tags : List Tag) × (Dict.get sid (list_for_stream_ids slug_le r (sid ∷ [])) ≡ some tags)
        × (shows id tags ≡ is_attached r sid id)
  unfolding list_for_stream_ids requested shown shows
  list_for_stream_ids-is_attached r sid id s =
      let by_id = indexed (Dict.values r.tags_by_slug) [] in
      let start : Dict ℕ (List Tag) = Dict.set sid [] [] in
      let all =
        pushed-get by_id (Dict.values r.stream_tags) start sid id []
          (Dict.get-set_self sid [] []) in
      (
        sort_by (tag_le slug_le) all.0,
        get-map_sorted (tag_le slug_le) sid (pushed by_id (Dict.values r.stream_tags) start) all.0
            all.1,
        shows-sort_by (tag_le slug_le) id all.0 ∙ all.2 ∙ shown-has r sid id r.stream_tags s,
      )
