-- ===== src/Sdk/Client/Bounds.antt =====
-- How many requests a call of the client makes.
use xstream_roll.Shared.{
  ℕ, zero, suc, ◌+◌, ◌≤◌, String, ◌≡◌, refl, ◌∙◌, ap, Option, none, some, List, [], ◌∷◌, length,
  length-append, arith, Bool-cases, inl, inr, string_key, number_key,
}
use xstream_roll.Shared.Dict
use xstream_roll.Shared.Dict.{Dict}
use xstream_roll.Retry.{resolved, rejected, RetryOptions, max_attempts_of, jitter_of, with_retry}
use xstream_roll.Retry.Budget.{with_retry-IsFinal}
use xstream_roll.Sdk.{Method, get, post, patch, delete, Request, RequestInit}
use xstream_roll.Sdk.Http.{
  HttpClient, Fetch, default_should_retry, copies, send, config_of, attempts_of, request,
  send_with_body,
}
use xstream_roll.Sdk.Client.{
  AuthTokens, StreamingClient, Texts, Init, Answered, plain, dispatch, request_once, store_tokens,
  refresh_token, again, needs_refresh, request_json,
}

length-copies : (n : ℕ) (r : Request) → length (copies n r) ≡ n
unfolding copies
length-copies zero r = refl
length-copies (suc n) r = omega (arith, length-copies n r)

-- The options of retries that the client has.
abbrev pub defaults : RetryOptions
defaults = record {
  max_attempts = none;
  base_delay_ms = none;
  max_delay_ms = none;
  jitter_ms = none;
}

abbrev IsFrugal : HttpClient (Option AuthTokens) → HttpClient (Option AuthTokens) → Type 0
IsFrugal c d = (length d.sent ≤ length c.sent + 3) × (d.retry_options ≡ some defaults)

module _ (t : Texts) (fetch : Fetch) (draw : ℕ → ℕ) (h : (n : ℕ) → draw n ≤ 100) where
  request_sent :
      (c : HttpClient (Option AuthTokens)) (s : Option AuthTokens) (path : List String)
      (method : Method) (init : RequestInit)
      → c.retry_options ≡ some defaults
      → IsFrugal c (request fetch draw c s path method init).1
  unfolding request attempts_of max_attempts_of jitter_of
  request_sent c s path method init e =
      let config = config_of fetch draw c s path method init in
      let attempt = send fetch (Dict.values c.response_interceptors) (length c.sent) config in
      let final = with_retry-IsFinal attempt default_should_retry draw defaults h in
      let few = final.1 in
      (
        rw e (
            omega (
              arith,
              few,
              length-append c.sent
                  (copies (with_retry attempt default_should_retry draw defaults).calls config),
              length-copies (with_retry attempt default_should_retry draw defaults).calls config,
            )),
        e,
      )

  send_with_body_sent :
      (c : HttpClient (Option AuthTokens)) (s : Option AuthTokens) (method : Method)
      (path : List String) (body : Option String) (headers : Dict String String)
      → c.retry_options ≡ some defaults
      → IsFrugal c (send_with_body fetch draw c s method path body headers).1
  unfolding send_with_body
  send_with_body_sent c s method path none headers e = request_sent c s path method _ e
  send_with_body_sent c s method path (some text) headers e = request_sent c s path method _ e

  dispatch_sent :
      (c : StreamingClient) (path : List String) (method : Method) (body : Option String)
      (headers : Dict String String)
      → c.http.retry_options ≡ some defaults
      → IsFrugal c.http
          (dispatch t fetch draw c path
            (record { method = method; body = body; headers = headers })).1.http
  unfolding dispatch
  dispatch_sent c path get body headers e = request_sent c.http c.tokens path get _ e
  dispatch_sent c path post body headers e =
      send_with_body_sent c.http c.tokens post path body headers e
  dispatch_sent c path patch body headers e =
      send_with_body_sent c.http c.tokens patch path body headers e
  dispatch_sent c path delete body headers e =
      send_with_body_sent c.http c.tokens delete path body headers e

  request_once_sent :
      (c : StreamingClient) (path : List String) (init : Init)
      → c.http.retry_options ≡ some defaults
      → IsFrugal c.http (request_once t fetch draw c path init).1.http
  unfolding request_once
  request_once_sent c path init e = dispatch_sent c path init.method init.body init.headers e

  store_tokens_http : (a : Answered) → (store_tokens t fetch draw a).1.http ≡ a.1.http
  unfolding store_tokens
  store_tokens_http (rejected e, c) = refl
  store_tokens_http (resolved none, c) = refl
  store_tokens_http (resolved (some text), c) = refl

  again_sent :
      (a : Answered) (path : List String) (init : Init)
      → a.1.http.retry_options ≡ some defaults
      → IsFrugal a.1.http (again t fetch draw a path init).1.http
  unfolding again
  again_sent (rejected x, c) path init e = (omega arith, e)
  again_sent (resolved x, c) path init e = request_once_sent c path init e

  -- A call of the client makes at most nine requests, whatever the network answers, however the
  -- tokens are refreshed, and however often a request is retried, if the client has the retries that
  -- its constructor gives it, which it keeps, and the jitter is at most 100 ms.
  pub request_json_bounded :
      (c : StreamingClient) (path : List String) (init : Init)
      → c.http.retry_options ≡ some defaults
      → (length (request_json t fetch draw c path init).1.http.sent ≤ length c.http.sent + 9)
        × ((request_json t fetch draw c path init).1.http.retry_options ≡ some defaults)
  unfolding request_json refresh_token
  request_json_bounded c path init e =
      let first = dispatch t fetch draw c path init in
      let one = dispatch_sent c path init.method init.body init.headers e in
      let refresh = request_once t fetch draw first.1 ("/auth/refresh" ∷ []) (plain post) in
      let two = request_once_sent first.1 ("/auth/refresh" ∷ []) (plain post) one.1 in
      let stored = store_tokens t fetch draw refresh in
      let same = store_tokens_http refresh in
      let kept : stored.1.http.retry_options ≡ some defaults =
        ap (λ (d : HttpClient (Option AuthTokens)). d.retry_options) same ∙ two.1 in
      let as_many : length stored.1.http.sent ≡ length refresh.1.http.sent =
        ap (λ (d : HttpClient (Option AuthTokens)). length d.sent) same in
      let three = again_sent stored path init kept in
      elim (Bool-cases (needs_refresh t fetch draw first.0 first.1)) [
        | inl refreshed ↦ rw refreshed (omega (arith, one.0, two.0, three.0, as_many), three.1)
        | inr settled ↦ rw settled (omega (arith, one.0), one.1)
      ]
