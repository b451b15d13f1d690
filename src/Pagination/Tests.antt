-- ===== src/Pagination/Tests.antt =====
-- A listing of five items, and the theorem about it.
use xstream_roll.Shared.{ℕ, ◌-◌, ◌*◌, ◌≡◌, refl, some, List, [], ◌∷◌, length, take, drop, arith}
use xstream_roll.Pagination.{Fetcher, answers, PaginatedIterator, collected, create, to_array}
use xstream_roll.Pagination.Complete.{to_array-create}

abbrev five : List ℕ
five = 10 ∷ 20 ∷ 30 ∷ 40 ∷ 50 ∷ []

abbrev server : Fetcher ℕ
server = λ page limit.
    answers
      (record { items = take limit (drop ((page - 1) * limit) five); total = some (length five) })

abbrev from_second : PaginatedIterator ℕ
from_second = create (some 2) (some 2) (some 3)

to_array-create_example :
    to_array 6 server from_second
    ≡ collected (drop ((from_second.page - 1) * from_second.limit) five)
unfolding create
to_array-create_example =
    to_array-create five server (some 2) (some 2) (some 3) 6 (λ page limit. refl) (omega arith)
      (omega arith)
