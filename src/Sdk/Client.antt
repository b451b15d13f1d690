-- ===== src/Sdk/Client.antt =====
-- `StreamingClient` of xstreamroll-sdk/src/client.ts. What it makes of texts stands in `Texts`: the
-- header of a token, JSON, and the query of a URL. A URL's `?` is part of that query, which is none
-- where there are no parameters. An answer's body is `none` where it is empty.
pub mod Bounds
pub mod Refresh
use xstream_roll.Shared.{
  ℕ, String, Bool, true, false, not, ◌&&◌, ◌||◌, Option, none, some, List, [], ◌∷◌, ◌++◌, leb, ltb,
  is_some, if◌then◌else◌, ◌==◌, string_key, number_key,
}
use xstream_roll.Shared.Dict
use xstream_roll.Shared.Dict.{Dict}
use xstream_roll.Retry.{Outcome, resolved, rejected, RetryOptions}
use xstream_roll.Sdk.{Method, get, post, patch, delete, Request, Response}
use xstream_roll.Sdk.Http
use xstream_roll.Sdk.Http.{
  SendError, status_error, network_error, HttpClient, Fetch, request, send_with_body,
  add_request_interceptor,
}

-- `refresh_token` is `none` where it is missing or empty.
pub record AuthTokens : Type 0 where
  pub access_token : String
  pub refresh_token : Option String

pub record StreamingClient : Type 0 where
  pub client_id : String
  pub api_key : Option String
  pub http : HttpClient (Option AuthTokens)
  pub tokens : Option AuthTokens

-- What a request throws: an `ApiError` with its status, the error of the network, or that of a body
-- that is not JSON.
pub data Failure : Type 0 where
  api_error : ℕ → Failure
  no_response bad_json : Failure

pub record Texts : Type 0 where
  pub bearer : String → String
  pub is_json : String → Bool
  pub tokens_of : String → AuthTokens
  pub credentials : String → String → String
  pub event : String → String → String
  pub query : Dict String String → List String

abbrev pub Answered : Type 0
Answered = Outcome (Option String) Failure × StreamingClient

-- The options of `requestJson`, without `retried`: a request that is made a second time is one that
-- skips the refresh.
pub record Init : Type 0 where
  pub method : Method
  pub body : Option String
  pub headers : Dict String String

abbrev pub plain : Method → Init
plain method = record { method = method; body = none; headers = [] }

abbrev pub with_body : Method → String → Init
with_body method text = record { method = method; body = some text; headers = [] }

module _ (t : Texts) where
  -- The interceptor of the constructor.
  pub authorize : Option AuthTokens → Request → Request
  authorize none config = config
  authorize (some tokens) config = record config {
    headers = Dict.set "Authorization" (t.bearer tokens.access_token) config.headers;
  }

  -- The base URL and the client id are those that the configuration comes to.
  unfoldable pub create : String → String → Option String → StreamingClient
  unfolding authorize add_request_interceptor Http.create
  create base_url client_id api_key =
      let defaults : RetryOptions = record {
        max_attempts = none;
        base_delay_ms = none;
        max_delay_ms = none;
        jitter_ms = none;
      } in
      record {
        client_id = client_id;
        api_key = api_key;
        http = (add_request_interceptor (Http.create base_url (some defaults)) authorize).1;
        tokens = none;
      }

  pub parse_json_body : Response → Outcome (Option String) Failure
  parse_json_body r =
      if r.text == ""
      then resolved none
      else (if t.is_json r.text then resolved (some r.text) else rejected bad_json)

  is_ok : Response → Bool
  is_ok r = leb 200 r.status && ltb r.status 300

  module _ (fetch : Fetch) (draw : ℕ → ℕ) where
    pub dispatch :
        StreamingClient → List String → Init → Outcome Response SendError × StreamingClient
    unfolding request send_with_body
    dispatch c path init =
        let r =
          elim init.method as (λ m. Outcome Response SendError × HttpClient (Option AuthTokens)) [
            | get ↦
                request fetch draw c.http c.tokens path get
                  (record { headers = init.headers; body = none })
            | post ↦ send_with_body fetch draw c.http c.tokens post path init.body init.headers
            | patch ↦ send_with_body fetch draw c.http c.tokens patch path init.body init.headers
            | delete ↦ send_with_body fetch draw c.http c.tokens delete path init.body init.headers
          ] in
        (r.0, record c { http = r.1 })

    -- The end of `requestJson`, where no token is refreshed.
    pub settled : Outcome Response SendError → Outcome (Option String) Failure
    unfolding is_ok parse_json_body
    settled (rejected network_error) = rejected no_response
    settled (rejected (status_error r)) = rejected (api_error r.status)
    settled (resolved r) = if is_ok r then parse_json_body r else rejected (api_error r.status)

    -- `requestJson` with `skipAuthRefresh` or `retried`.
    pub request_once : StreamingClient → List String → Init → Answered
    unfolding dispatch settled
    request_once c path init = let r = dispatch c path init in (settled r.0, r.1)

    -- What stores the tokens of an answer.
    pub store_tokens : Answered → Answered
    store_tokens (rejected e, c) = (rejected e, c)
    store_tokens (resolved none, c) = (resolved none, record c { tokens = none })
    store_tokens (resolved (some text), c) =
        (resolved (some text), record c { tokens = some (t.tokens_of text) })

    pub refresh_token : StreamingClient → Answered
    unfolding request_once store_tokens
    refresh_token c = store_tokens (request_once c ("/auth/refresh" ∷ []) (plain post))

    pub login : StreamingClient → String → String → Answered
    unfolding request_once store_tokens
    login c email password =
        store_tokens
          (request_once c ("/auth/login" ∷ []) (with_body post (t.credentials email password)))

    pub register : StreamingClient → String → Answered
    unfolding request_once store_tokens
    register c dto = store_tokens (request_once c ("/auth/register" ∷ []) (with_body post dto))

    -- The answer to the request does not matter.
    pub logout : StreamingClient → StreamingClient
    unfolding request_once
    logout c =
        let c' : StreamingClient = elim c.tokens [
          | none ↦ c
          | some tokens ↦ (request_once c ("/auth/logout" ∷ []) (plain post)).1
        ] in
        record c' { tokens = none }

    abbrev pub can_refresh : StreamingClient → Bool
    can_refresh c = elim c.tokens [ none ↦ false | some tokens ↦ is_some tokens.refresh_token ]

    again : Answered → List String → Init → Answered
    unfolding request_once
    again (rejected e, c) path init = (rejected e, c)
    again (resolved a, c) path init = request_once c path init

    -- A 401 is the chance to refresh the tokens and to ask again.
    needs_refresh : Outcome Response SendError → StreamingClient → Bool
    needs_refresh (rejected e) c = false
    needs_refresh (resolved r) c = r.status == 401 && can_refresh c

    pub request_json : StreamingClient → List String → Init → Answered
    unfolding dispatch settled needs_refresh again refresh_token
    request_json c path init =
        let r = dispatch c path init in
        if needs_refresh r.0 r.1 then again (refresh_token r.1) path init else (settled r.0, r.1)

    pub publish_event : StreamingClient → String → String → Answered
    unfolding request_json
    publish_event c stream_id payload =
        let headers : Dict String String = elim c.api_key [
          | none ↦ []
          | some key ↦ ("X-Stream-Api-Key", key) ∷ []
        ] in
        request_json c ("/streams/events" ∷ [])
          (record { method = post; body = some (t.event stream_id payload); headers = headers })

    pub get_stream_status : StreamingClient → String → Answered
    unfolding request_json
    get_stream_status c id = request_json c ("/streams/" ∷ id ∷ []) (plain get)

    pub get_stream_tags : StreamingClient → String → Answered
    unfolding request_json
    get_stream_tags c id = request_json c ("/streams/" ∷ id ∷ "/tags" ∷ []) (plain get)

    pub get_stream_analytics : StreamingClient → String → Answered
    unfolding request_json
    get_stream_analytics c id = request_json c ("/streams/" ∷ id ∷ "/analytics" ∷ []) (plain get)

    -- `params` are the parameters that are given, in their order.
    pub list_stream_events : StreamingClient → String → Dict String String → Answered
    unfolding request_json
    list_stream_events c id params =
        request_json c ("/streams/" ∷ id ∷ "/events" ∷ t.query params) (plain get)

    pub list_notifications : StreamingClient → Dict String String → Answered
    unfolding request_json
    list_notifications c params = request_json c ("/notifications" ∷ t.query params) (plain get)

    pub subscribe_webhook : StreamingClient → String → Answered
    unfolding request_json
    subscribe_webhook c dto = request_json c ("/webhooks" ∷ []) (with_body post dto)

    pub list_webhooks : StreamingClient → Dict String String → Answered
    unfolding request_json
    list_webhooks c params = request_json c ("/webhooks" ∷ t.query params) (plain get)

    pub update_webhook : StreamingClient → String → String → Answered
    unfolding request_json
    update_webhook c id changes = request_json c ("/webhooks/" ∷ id ∷ []) (with_body patch changes)

    pub delete_webhook : StreamingClient → String → Answered
    unfolding request_json
    delete_webhook c id = request_json c ("/webhooks/" ∷ id ∷ []) (plain delete)

    pub list_deliveries : StreamingClient → String → Dict String String → Answered
    unfolding request_json
    list_deliveries c id params =
        request_json c ("/webhooks/" ∷ id ∷ "/deliveries" ∷ t.query params) (plain get)

    pub retry_webhook_delivery : StreamingClient → String → String → Answered
    unfolding request_json
    retry_webhook_delivery c id delivery =
        request_json c ("/webhooks/" ∷ id ∷ "/deliveries/" ∷ delivery ∷ "/retry" ∷ []) (plain post)
