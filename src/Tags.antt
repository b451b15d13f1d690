-- ===== src/Tags.antt =====
-- `TagsService` of api/src/tags/tags.service.ts with the repository of
-- api/src/tags/repository/tags.repository.ts. `slug_of` is `slugify` (Tags.Slug), `trim` and the order
-- of slugs are the platform's, and `number_of` reads a text of digits.
pub mod Slug
pub mod Listing
pub mod Attached
mod Tests
use xstream_roll.Shared.{
  ℕ, suc, ◌-◌, ◌*◌, String, Bool, true, false, Option, none, some, List, [], ◌∷◌, ◌++◌, map, ltb,
  take, drop, length, sort_by, is_some, if◌then◌else◌, ◌==◌, string_key, number_key, pair_key,
}
use xstream_roll.Shared.Dict
use xstream_roll.Shared.Dict.{Dict}

pub record Tag : Type 0 where
  pub id : ℕ
  pub name : String
  pub slug : String
  pub created_at : ℕ

pub record StreamTag : Type 0 where
  pub stream_id : ℕ
  pub tag_id : ℕ
  pub created_at : ℕ

pub record TagsRepository : Type 0 where
  pub tags_by_slug : Dict String Tag
  pub stream_tags : Dict (ℕ × ℕ) StreamTag
  pub next_id : ℕ

pub create : TagsRepository
create = record { tags_by_slug = []; stream_tags = []; next_id = 1 }

abbrev pub find_by_slug : TagsRepository → String → Option Tag
find_by_slug r slug = Dict.get slug r.tags_by_slug

pub first_with : ℕ → List Tag → Option Tag
first_with id [] = none
first_with id (tag ∷ tags) = if tag.id == id then some tag else first_with id tags

pub find_by_id : TagsRepository → ℕ → Option Tag
unfolding first_with
find_by_id r id = first_with id (Dict.values r.tags_by_slug)

pub upsert_by_slug : TagsRepository → String → String → ℕ → Tag × TagsRepository
upsert_by_slug r name slug now =
    let tag : Tag = record { id = r.next_id; name = name; slug = slug; created_at = now } in
    elim (find_by_slug r slug) [
      | some existing ↦ (existing, r)
      | none ↦ (
        tag,
        record r { tags_by_slug = Dict.set slug tag r.tags_by_slug; next_id = suc r.next_id },
      )
    ]

pub attach_to_stream : TagsRepository → ℕ → ℕ → ℕ → StreamTag × TagsRepository
attach_to_stream r stream_id tag_id now =
    let row : StreamTag = record { stream_id = stream_id; tag_id = tag_id; created_at = now } in
    elim (Dict.get (stream_id, tag_id) r.stream_tags) [
      | some existing ↦ (existing, r)
      | none ↦ (row, record r { stream_tags = Dict.set (stream_id, tag_id) row r.stream_tags })
    ]

pub detach_from_stream : TagsRepository → ℕ → ℕ → Bool × TagsRepository
detach_from_stream r stream_id tag_id = (
  Dict.has (stream_id, tag_id) r.stream_tags,
  record r { stream_tags = Dict.delete (stream_id, tag_id) r.stream_tags },
)

abbrev pub is_attached : TagsRepository → ℕ → ℕ → Bool
is_attached r stream_id tag_id = Dict.has (stream_id, tag_id) r.stream_tags

-- `for (const id of streamIds) result.set(id, [])`.
pub requested : List ℕ → Dict ℕ (List Tag) → Dict ℕ (List Tag)
requested [] result = result
requested (id ∷ ids) result = requested ids (Dict.set id [] result)

pub indexed : List Tag → Dict ℕ Tag → Dict ℕ Tag
indexed [] by_id = by_id
indexed (tag ∷ tags) by_id = indexed tags (Dict.set tag.id tag by_id)

pub push_tag : Dict ℕ Tag → StreamTag → Dict ℕ (List Tag) → Dict ℕ (List Tag)
push_tag by_id row result = elim (Dict.get row.stream_id result) [
  | none ↦ result
  | some tags ↦ elim (Dict.get row.tag_id by_id) [
    | none ↦ result
    | some tag ↦ Dict.set row.stream_id (tags ++ tag ∷ []) result
  ]
]

pub pushed : Dict ℕ Tag → List StreamTag → Dict ℕ (List Tag) → Dict ℕ (List Tag)
unfolding push_tag
pushed by_id [] result = result
pushed by_id (row ∷ rows) result = pushed by_id rows (push_tag by_id row result)

pub list_stream_ids_for_tag : List StreamTag → ℕ → List ℕ
list_stream_ids_for_tag [] tag_id = []
list_stream_ids_for_tag (row ∷ rows) tag_id =
    let rest = list_stream_ids_for_tag rows tag_id in
    if row.tag_id == tag_id then row.stream_id ∷ rest else rest

pub record PagedTags : Type 0 where
  pub items : List Tag
  pub page : ℕ
  pub limit : ℕ
  pub total : ℕ
  pub has_more : Bool

abbrev page_of : List Tag → ℕ → ℕ → PagedTags
page_of tags page limit = record {
  items = take limit (drop ((page - 1) * limit) tags);
  page = page;
  limit = limit;
  total = length tags;
  has_more = ltb (page * limit) (length tags);
}

-- What the service throws.
pub data Refused : Type 0 where
  bad_request tag_not_found not_attached : Refused

pub data Result (A : Type 0) : Type 0 where
  done : A → Result A
  refused : Refused → Result A

module _ (slug_le : String → String → Bool) where
  abbrev pub tag_le : Tag → Tag → Bool
  tag_le a b = slug_le a.slug b.slug

  pub list_for_stream_ids : TagsRepository → List ℕ → Dict ℕ (List Tag)
  unfolding requested indexed pushed
  list_for_stream_ids r ids =
      let by_id = indexed (Dict.values r.tags_by_slug) [] in
      let result = pushed by_id (Dict.values r.stream_tags) (requested ids []) in
      map (λ e. (e.0, sort_by tag_le e.1)) result

  pub list : TagsRepository → ℕ → ℕ → PagedTags
  list r page limit = page_of (sort_by tag_le (Dict.values r.tags_by_slug)) page limit

  pub list_for_stream : TagsRepository → ℕ → ℕ → ℕ → PagedTags
  unfolding list_for_stream_ids
  list_for_stream r stream_id page limit =
      let tags : List Tag = elim (Dict.get stream_id (list_for_stream_ids r (stream_id ∷ []))) [
        | none ↦ []
        | some found ↦ found
      ] in
      page_of tags page limit

module _ (slug_of trim : String → String) (number_of : String → Option ℕ) where
  -- A text that is missing is the empty one.
  pub resolve_tag : TagsRepository → String → Option Tag
  unfolding find_by_id
  resolve_tag r raw =
      let value = trim raw in
      if raw == ""
      then none
      else (if value == ""
          then none
          else elim (number_of value) [ some id ↦ find_by_id r id | none ↦ find_by_slug r value ])

  pub attach : TagsRepository → ℕ → String → ℕ → Result Tag × TagsRepository
  unfolding upsert_by_slug attach_to_stream
  attach r stream_id raw_name now =
      let slug = slug_of raw_name in
      let upserted = upsert_by_slug r (trim raw_name) slug now in
      if slug == ""
      then (refused bad_request, r)
      else (done upserted.0, (attach_to_stream upserted.1 stream_id upserted.0.id now).1)

pub detach : TagsRepository → ℕ → ℕ → Result Unit × TagsRepository
unfolding find_by_id detach_from_stream
detach r stream_id tag_id =
    let removed = detach_from_stream r stream_id tag_id in
    elim (find_by_id r tag_id) [
      | none ↦ (refused tag_not_found, r)
      | some tag ↦ if removed.0 then (done tt, removed.1) else (refused not_attached, removed.1)
    ]
