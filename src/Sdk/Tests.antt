-- ===== src/Sdk/Tests.antt =====
-- A server with an old and a new access token, and the theorems about a client of it.
use xstream_roll.Shared.{
  ℕ, String, ◌≡◌, ◌≤◌, ◌+◌, refl, Bool, true, false, Option, none, some, List, [], ◌∷◌, length,
  arith, if◌then◌else◌, ◌==◌, string_key,
}
use xstream_roll.Shared.Dict
use xstream_roll.Retry.{resolved, is_retry_status}
use xstream_roll.Sdk.{get, Request, Response}
use xstream_roll.Sdk.Http.{Fetch, create, add_request_interceptor}
use xstream_roll.Sdk.Client
use xstream_roll.Sdk.Client.{AuthTokens, StreamingClient, Texts, plain, settled, request_json}
use xstream_roll.Sdk.Client.Bounds.{defaults, request_json_bounded}
use xstream_roll.Sdk.Client.Refresh.{ready, IsFor, request_json_refreshes}

abbrev tokens : String → AuthTokens
tokens text = record { access_token = text; refresh_token = some "refresh" }

abbrev texts : Texts
texts = record {
  bearer = λ token. token;
  is_json = λ text. true;
  tokens_of = tokens;
  credentials = λ email password. email;
  event = λ stream payload. payload;
  query = λ params. [];
}

is_refresh : List String → Bool
is_refresh [] = false
is_refresh (base ∷ []) = false
is_refresh (base ∷ path ∷ rest) = path == "/auth/refresh"

abbrev answer : ℕ → String → Option Response
answer status text = some (record { status = status; text = text })

serve : Option String → List String → Option Response
unfolding is_refresh
serve none url = none
serve (some token) url =
    if token == "new"
    then answer 200 "{}"
    else (if is_refresh url then answer 200 "new" else answer 401 "expired")

abbrev server : Fetch
server n r = serve (Dict.get "Authorization" r.headers) r.url

abbrev client : StreamingClient
client = ready texts "https://api" "client-1" none (tokens "old") []

abbrev listing : List String
listing = "/webhooks" ∷ []

request_json_bounded_example :
    (length (request_json texts server (λ n. 0) client listing (plain get)).1.http.sent
      ≤ length client.http.sent + 9)
    × ((request_json texts server (λ n. 0) client listing (plain get)).1.http.retry_options
        ≡ some defaults)
unfolding ready Client.create create add_request_interceptor
request_json_bounded_example =
    request_json_bounded texts server (λ n. 0) (λ n. omega arith) client listing (plain get) refl

expired :
    (n : ℕ) (r : Request)
    → IsFor texts "https://api" listing (tokens "old") r
    → server n r ≡ answer 401 "expired"
unfolding serve is_refresh
expired n r h = rw (h.0, h.1) refl

renews :
    (n : ℕ) (r : Request)
    → IsFor texts "https://api" ("/auth/refresh" ∷ []) (tokens "old") r
    → server n r ≡ answer 200 "new"
unfolding serve is_refresh
renews n r h = rw (h.0, h.1) refl

serves :
    (n : ℕ) (r : Request)
    → IsFor texts "https://api" listing (tokens "new") r
    → server n r ≡ answer 200 "{}"
unfolding serve is_refresh
serves n r h = rw (h.0, h.1) refl

request_json_refreshes_example :
    (first : Request) × (second : Request) × (third : Request) × (request_json texts server
        (λ n. 0)
        client
        listing
        (plain get)
      ≡ (
        settled texts server (λ n. 0) (resolved (record { status = 200; text = "{}" })),
        ready texts "https://api" "client-1" none (tokens "new") (first ∷ second ∷ third ∷ []),
      ))
    × IsFor texts "https://api" listing (tokens "old") first
    × IsFor texts "https://api" ("/auth/refresh" ∷ []) (tokens "old") second
    × IsFor texts "https://api" listing (tokens "new") third
unfolding is_retry_status
request_json_refreshes_example =
    request_json_refreshes texts server (λ n. 0) "https://api" "client-1" none (tokens "old")
      "refresh" "new" "expired" [] listing (plain get) (record { status = 200; text = "{}" }) refl
      refl refl refl expired renews serves
