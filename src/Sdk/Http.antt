-- ===== src/Sdk/Http.antt =====
-- `HttpClient` of xstreamroll-sdk/src/http.ts. `fetch` is the network: what it answers to a request may
-- depend on how many were sent before. An interceptor of requests may read the state `S` of whoever
-- registered it. The requests that were sent are logged. The waits between retries are those of
-- Retry; `draw` is their jitter.
use xstream_roll.Shared.{
  ℕ, zero, suc, ◌+◌, String, Bool, true, Option, none, some, List, [], ◌∷◌, ◌++◌, length,
  if◌then◌else◌, string_key, number_key,
}
use xstream_roll.Shared.Dict
use xstream_roll.Shared.Dict.{Dict}
use xstream_roll.Retry.{
  Outcome, resolved, rejected, RetryOptions, Retried, is_retry_status, with_retry,
}
use xstream_roll.Sdk.{Method, Request, Response, RequestInit}

-- What an attempt throws: the error for a status that is retried, with its response, or that of the
-- network.
pub data SendError : Type 0 where
  status_error : Response → SendError
  network_error : SendError

pub record HttpClient (S : Type 0) : Type 0 where
  pub base_url : String
  pub next_id : ℕ
  pub request_interceptors : Dict ℕ (S → Request → Request)
  pub response_interceptors : Dict ℕ (Response → Response)
  pub retry_options : Option RetryOptions
  pub sent : List Request

abbrev pub Fetch : Type 0
Fetch = ℕ → Request → Option Response

-- Retries of an error of the network and of the statuses of `DEFAULT_RETRY_STATUSES`.
pub default_should_retry : SendError → ℕ → Bool
default_should_retry network_error attempt = true
default_should_retry (status_error r) attempt = is_retry_status r.status

unfoldable pub copies : ℕ → Request → List Request
copies zero r = []
copies (suc n) r = r ∷ copies n r

module _ {S : Type 0} where
  -- `retry_options` is `none` where retries are disabled.
  unfoldable pub create : String → Option RetryOptions → HttpClient S
  create base_url retry_options = record {
    base_url = base_url;
    next_id = 0;
    request_interceptors = [];
    response_interceptors = [];
    retry_options = retry_options;
    sent = [];
  }

  unfoldable pub add_request_interceptor : HttpClient S → (S → Request → Request) → ℕ × HttpClient S
  add_request_interceptor c f = (
    c.next_id,
    record c {
      next_id = suc c.next_id;
      request_interceptors = Dict.set c.next_id f c.request_interceptors;
    },
  )

  pub add_response_interceptor : HttpClient S → (Response → Response) → ℕ × HttpClient S
  add_response_interceptor c f = (
    c.next_id,
    record c {
      next_id = suc c.next_id;
      response_interceptors = Dict.set c.next_id f c.response_interceptors;
    },
  )

  pub remove_interceptor : HttpClient S → ℕ → HttpClient S
  remove_interceptor c handle = record c {
    request_interceptors = Dict.delete handle c.request_interceptors;
    response_interceptors = Dict.delete handle c.response_interceptors;
  }

  unfoldable pub intercepted : S → List (S → Request → Request) → Request → Request
  intercepted s [] config = config
  intercepted s (f ∷ fs) config = intercepted s fs (f s config)

unfoldable pub received : List (Response → Response) → Response → Response
received [] r = r
received (f ∷ fs) r = received fs (f r)

-- One attempt, after those of `before`.
unfoldable pub send :
    Fetch → List (Response → Response) → ℕ → Request → ℕ → Outcome Response SendError
unfolding received
send fetch fs before config attempt = elim (fetch (before + attempt) config) [
  | none ↦ rejected network_error
  | some answer ↦
      let r = received fs answer in
      if is_retry_status r.status then rejected (status_error r) else resolved r
]

module _ {S : Type 0} (fetch : Fetch) (draw : ℕ → ℕ) where
  -- The request as the interceptors leave it.
  unfoldable pub config_of : HttpClient S → S → List String → Method → RequestInit → Request
  unfolding intercepted
  config_of c s path method init =
      let config : Request = record {
        url = c.base_url ∷ path;
        method = method;
        headers = init.headers;
        body = init.body;
      } in
      intercepted s (Dict.values c.request_interceptors) config

  unfoldable pub attempts_of : HttpClient S → Request → Retried Response SendError
  unfolding send
  attempts_of c config =
      let attempt = send fetch (Dict.values c.response_interceptors) (length c.sent) config in
      elim c.retry_options [
        | none ↦ record { outcome = attempt 1; attempts = 1; calls = 1; delays = [] }
        | some o ↦ with_retry attempt default_should_retry draw o
      ]

  unfoldable pub request :
      HttpClient S
      → S
      → List String
      → Method
      → RequestInit
      → Outcome Response SendError × HttpClient S
  unfolding config_of attempts_of copies
  request c s path method init =
      let config = config_of c s path method init in
      let r = attempts_of c config in
      (r.outcome, record c { sent = c.sent ++ copies r.calls config })

  -- `sendWithBody`.
  unfoldable pub send_with_body :
      HttpClient S
      → S
      → Method
      → List String
      → Option String
      → Dict String String
      → Outcome Response SendError × HttpClient S
  send_with_body c s method path none headers =
      request c s path method (record { headers = headers; body = none })
  send_with_body c s method path (some text) headers =
      let typed : Dict String String = elim (Dict.get "Content-Type" headers) [
        | none ↦ Dict.set "Content-Type" "application/json" headers
        | some given ↦ headers
      ] in
      request c s path method (record { headers = typed; body = some text })
