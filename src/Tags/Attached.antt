-- ===== src/Tags/Attached.antt =====
-- Attaching and detaching tags, and what is listed afterwards.
use xstream_roll.Shared.{
  ℕ, String, Bool, true, false, if◌then◌else◌, Option, List, [], ◌∷◌, string_key, number_key,
  pair_key, same_pair,
}
use xstream_roll.Shared.Dict
use xstream_roll.Shared.Dict.{Dict}
use xstream_roll.Tags.{done, refused, TagsRepository, attach, detach}

pub data Call : Type 0 where
  attaches : ℕ → String → ℕ → Call
  detaches : ℕ → ℕ → Call

module _ (slug_of trim : String → String) (number_of : String → Option ℕ) where
  pub step : TagsRepository → Call → TagsRepository
  unfolding attach detach
  step r (attaches sid raw_name now) = (attach slug_of trim number_of r sid raw_name now).1
  step r (detaches sid id) = (detach r sid id).1

  pub run : TagsRepository → List Call → TagsRepository
  unfolding step
  run r [] = r
  run r (c ∷ cs) = run (step r c) cs

  -- Whether a tag is attached to a stream, by the answers that the service has given.
  pub answered : TagsRepository → Call → ℕ → ℕ → Bool → Bool
  answered r (attaches s raw_name now) sid id before =
      elim (attach slug_of trim number_of r s raw_name now).0 [
        | refused why ↦ before
        | done tag ↦ if same_pair (s, tag.id) (sid, id) then true else before
      ]
  answered r (detaches s t) sid id before = elim (detach r s t).0 [
    | refused why ↦ before
    | done unit ↦ if same_pair (s, t) (sid, id) then false else before
  ]

  pub tracked : TagsRepository → List Call → ℕ → ℕ → Bool → Bool
  unfolding answered step
  tracked r [] sid id before = before
  tracked r (c ∷ cs) sid id before = tracked (step r c) cs sid id (answered r c sid id before)
