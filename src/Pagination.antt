-- ===== src/Pagination.antt =====
-- `PaginatedIterator` of xstreamroll-sdk/src/pagination.ts. The fetcher is a function of the page and
-- the limit; whether the signal is aborted comes in with each call of `next`. The extra parameters of a
-- query are part of the fetcher.
pub mod Complete
mod Tests
use xstream_roll.Shared.{
  ℕ, zero, suc, ◌+◌, ◌-◌, ◌*◌, max, String, Bool, true, false, Option, none, some, List, [], ◌∷◌,
  length, ltb, leb, if◌then◌else◌,
}

-- `PaginatedResponse`; its `page` and `limit` are not read.
pub record PaginatedResponse {ℓ} (A : Type ℓ) : Type ℓ where
  pub items : List A
  pub total : Option ℕ

-- What the promise of the fetcher comes to.
pub data Fetched {ℓ} (A : Type ℓ) : Type ℓ where
  answers : PaginatedResponse A → Fetched A
  fails : String → Fetched A

abbrev pub Fetcher {ℓ} : Type ℓ → Type ℓ
Fetcher A = ℕ → ℕ → Fetched A

pub record PaginatedIterator {ℓ} (A : Type ℓ) : Type ℓ where
  pub limit : ℕ
  pub max_pages : ℕ
  pub page : ℕ
  pub offset : ℕ
  pub current_page : List A
  pub exhausted : Bool
  pub total : Option ℕ

pub data Next {ℓ} (A : Type ℓ) : Type ℓ where
  yields : A → Next A
  ends : Next A
  throws : String → Next A

-- What `toArray` comes to; `unfinished` where the fuel is used up.
pub data Collected {ℓ} (A : Type ℓ) : Type ℓ where
  collected : List A → Collected A
  threw : String → Collected A
  unfinished : Collected A

abbrev pub value_or : ℕ → Option ℕ → ℕ
value_or default none = default
value_or default (some n) = n

module _ {ℓ} {A : Type ℓ} where
  -- The constructor, with the options for the limit, the start page and the pages.
  unfoldable pub create : Option ℕ → Option ℕ → Option ℕ → PaginatedIterator A
  create limit start_page max_pages = record {
    limit = max 1 (value_or 50 limit);
    max_pages = max 1 (value_or 1000 max_pages);
    page = max 1 (value_or 1 start_page);
    offset = 0;
    current_page = [];
    exhausted = false;
    total = none;
  }

  -- `currentPage[offset]`.
  pub get_elem? : List A → ℕ → Option A
  get_elem? [] i = none
  get_elem? (x ∷ xs) zero = some x
  get_elem? (x ∷ xs) (suc i) = get_elem? xs i

  -- `cursor`.
  pub cursor : PaginatedIterator A → Option ℕ
  cursor it = if it.exhausted then none else some it.page

  abbrev exhaust : PaginatedIterator A → Next A × PaginatedIterator A
  exhaust it = (ends, record it { exhausted = true })

  -- The response of the fetcher, and the first item of its page.
  pub take_page : PaginatedIterator A → PaginatedResponse A → Next A × PaginatedIterator A
  take_page it response =
      let it' = record it {
        current_page = response.items;
        total = some (value_or (length response.items) response.total);
        page = suc it.page;
        offset = 0;
      } in
      elim response.items [ [] ↦ exhaust it' | x ∷ xs ↦ (yields x, record it' { offset = 1 }) ]

  pub is_past : PaginatedIterator A → Bool
  is_past it = elim it.total [ none ↦ false | some total ↦ leb total ((it.page - 1) * it.limit) ]

  -- The body of the loop in `next`. It runs once: after it the page has an item, or all is over.
  pub turn_page : Fetcher A → PaginatedIterator A → Next A × PaginatedIterator A
  unfolding is_past take_page
  turn_page fetcher it =
      if it.exhausted
      then (ends, it)
      else if is_past it
      then exhaust it
      else if ltb it.max_pages it.page
      then exhaust it
      else elim (fetcher it.page it.limit) [
        | fails message ↦ (throws message, it)
        | answers response ↦ take_page it response
      ]

  pub next : Fetcher A → Bool → PaginatedIterator A → Next A × PaginatedIterator A
  unfolding turn_page get_elem?
  next fetcher aborted it =
      if aborted then exhaust it else elim (get_elem? it.current_page it.offset) [
        | some item ↦ (yields item, record it { offset = suc it.offset })
        | none ↦ turn_page fetcher it
      ]

  abbrev pub prepend : A → Collected A → Collected A
  prepend x (collected xs) = collected (x ∷ xs)
  prepend x (threw message) = threw message
  prepend x unfinished = unfinished

  -- `toArray` on fuel, with a signal that is not aborted.
  pub to_array : ℕ → Fetcher A → PaginatedIterator A → Collected A
  unfolding next
  to_array zero fetcher it = unfinished
  to_array (suc fuel) fetcher it =
      let (step, it') = next fetcher false it in
      let rest = to_array fuel fetcher it' in
      elim step [ yields x ↦ prepend x rest | ends ↦ collected [] | throws message ↦ threw message ]
