-- ===== src/Tags/Tests.antt =====
-- A tag on two streams, and the theorems about it.
use xstream_roll.Shared.{
  ℕ, String, ◌≡◌, ◌≤◌, refl, true, Option, none, List, [], ◌∷◌, length, string_key, number_key,
  pair_key,
}
use xstream_roll.Shared.Dict
use xstream_roll.Tags.Slug.{
  IsSlug, replace_runs, trim_left, trim_right, dashless, slugify, slugify-IsSlug,
}
use xstream_roll.Tags.Attached.{Call, attaches, detaches}

abbrev as_is : List ℕ → List ℕ
as_is text = text

-- ` c++`
abbrev raw : List ℕ
raw = 32 ∷ 99 ∷ 43 ∷ 43 ∷ []

slugified : slugify as_is as_is raw ≡ 99 ∷ []
unfolding slugify replace_runs trim_left trim_right dashless
slugified = refl

slugify-IsSlug_example :
    IsSlug true (slugify as_is as_is raw) × (length (slugify as_is as_is raw) ≤ 64)
slugify-IsSlug_example = slugify-IsSlug as_is as_is raw

abbrev same : String → String
same text = text

abbrev unread : String → Option ℕ
unread text = none

abbrev calls : List Call
calls = attaches 1 "live" 10 ∷ attaches 2 "live" 11 ∷ detaches 1 1 ∷ []
