-- ===== src/Sdk/Client/Refresh.antt =====
-- What a client does when its access token has expired.
use xstream_roll.Shared.{
  ℕ, ◌+◌, String, ◌≡◌, refl, ◌∙◌, ap, true, false, Option, none, some, List, [], ◌∷◌, ◌++◌, length,
  if◌then◌else◌, ◌==◌, string_key, number_key,
}
use xstream_roll.Shared.Dict
use xstream_roll.Shared.Dict.{Dict}
use xstream_roll.Retry.{
  Outcome, resolved, Retried, is_retry_status, with_retry, loop, max_attempts_of,
}
use xstream_roll.Sdk.{Method, get, post, patch, delete, Request, Response, RequestInit}
use xstream_roll.Sdk.Http
use xstream_roll.Sdk.Http.{
  SendError, HttpClient, Fetch, default_should_retry, copies, send, received, intercepted,
  config_of, attempts_of, request, send_with_body, add_request_interceptor,
}
use xstream_roll.Sdk.Client.Bounds.{defaults}
use xstream_roll.Sdk.Client.{
  AuthTokens, StreamingClient, Texts, Init, Answered, Failure, authorize, create, dispatch, settled,
  request_once, store_tokens, refresh_token, again, needs_refresh, request_json, parse_json_body,
  is_ok,
}

-- A client after its constructor, with these tokens and these requests made.
unfoldable pub ready :
    Texts → String → String → Option String → AuthTokens → List Request → StreamingClient
ready t base_url client_id api_key tokens sent =
    let c = create t base_url client_id api_key in
    record c { tokens = some tokens; http = record c.http { sent = sent } }

-- The request goes to this path with the header of this token.
abbrev pub IsFor : Texts → String → List String → AuthTokens → Request → Type 0
IsFor t base_url path tokens r =
    (r.url ≡ base_url ∷ path)
    × (Dict.get "Authorization" r.headers ≡ some (t.bearer tokens.access_token))

append-three :
    (l : List Request) (a b c : Request)
    → (((l ++ a ∷ []) ++ b ∷ []) ++ c ∷ []) ≡ l ++ a ∷ b ∷ c ∷ []
append-three [] a b c = refl
append-three (x ∷ l) a b c = ap (λ k. x ∷ k) (append-three l a b c)

with_retry-first :
    (f : ℕ → Outcome Response SendError) (draw : ℕ → ℕ) (answer : Response)
    → f 1 ≡ resolved answer
    → with_retry f default_should_retry draw defaults
      ≡ record { outcome = resolved answer; attempts = 1; calls = 1; delays = [] }
unfolding with_retry loop max_attempts_of
with_retry-first f draw answer e = rw (with_retry, loop, e) refl

send-answered :
    (fetch : Fetch) (before : ℕ) (config : Request) (answer : Response)
    → fetch (before + 1) config ≡ some answer
    → is_retry_status answer.status ≡ false
    → send fetch [] before config 1 ≡ resolved answer
unfolding send received
send-answered fetch before config answer e final = rw (send, e) (rw final refl)

module _ (t : Texts) (fetch : Fetch) (draw : ℕ → ℕ) (base_url client_id : String)
    (api_key : Option String) where
  request-answered :
      (tokens : AuthTokens) (sent : List Request) (path : List String) (method : Method)
      (init : RequestInit) (answer : Response)
      → is_retry_status answer.status ≡ false
      → ((n : ℕ) (r : Request) → IsFor t base_url path tokens r → fetch n r ≡ some answer)
      → (r : Request) × (request fetch draw
            (ready t base_url client_id api_key tokens sent).http
            (some tokens)
            path
            method
            init
          ≡ (resolved answer, (ready t base_url client_id api_key tokens (sent ++ r ∷ [])).http))
        × IsFor t base_url path tokens r
  unfolding ready create Http.create add_request_interceptor authorize request config_of attempts_of
      send received intercepted with_retry loop max_attempts_of copies Dict.set Dict.get
  request-answered tokens sent path method init answer final serves =
      let config : Request = record {
        url = base_url ∷ path;
        method = method;
        headers = Dict.set "Authorization" (t.bearer tokens.access_token) init.headers;
        body = init.body;
      } in
      let right : IsFor t base_url path tokens config =
        (refl, Dict.get-set_self "Authorization" (t.bearer tokens.access_token) init.headers) in
      let got =
        send-answered fetch (length sent) config answer (serves (length sent + 1) config right)
          final in
      let retried = with_retry-first (send fetch [] (length sent) config) draw answer got in
      (
        config,
        ap
            (λ (x : Retried Response SendError). (
              x.outcome,
              record (ready t base_url client_id api_key tokens sent).http {
                sent = sent ++ copies x.calls config;
              },
            ))
            retried,
        right,
      )

  abbrev IsAnswered : AuthTokens → List Request → List String → Init → Response → Type 0
  IsAnswered tokens sent path init answer =
      (r : Request) × (dispatch t fetch draw (ready t base_url client_id api_key tokens sent) path
          init
        ≡ (resolved answer, ready t base_url client_id api_key tokens (sent ++ r ∷ [])))
      × IsFor t base_url path tokens r

  dispatch-request :
      (tokens : AuthTokens) (sent : List Request) (path : List String) (method : Method)
      (body : Option String) (headers : Dict String String) (init : RequestInit) (answer : Response)
      → dispatch t fetch draw
          (ready t base_url client_id api_key tokens sent)
          path
          (record { method = method; body = body; headers = headers })
        ≡ (let q =
              request fetch draw
                (ready t base_url client_id api_key tokens sent).http
                (some tokens)
                path
                method
                init in
            (q.0, record (ready t base_url client_id api_key tokens sent) { http = q.1 }))
      → is_retry_status answer.status ≡ false
      → ((n : ℕ) (r : Request) → IsFor t base_url path tokens r → fetch n r ≡ some answer)
      → IsAnswered tokens sent path
          (record { method = method; body = body; headers = headers })
          answer
  unfolding ready
  dispatch-request tokens sent path method body headers init answer same final serves =
      let q = request-answered tokens sent path method init answer final serves in
      (
        q.0,
        same
            ∙ ap
                (λ (x : Outcome Response SendError × HttpClient (Option AuthTokens)).
                  (x.0, record (ready t base_url client_id api_key tokens sent) { http = x.1 }))
                q.1,
        q.2,
      )

  dispatch-IsAnswered :
      (tokens : AuthTokens) (sent : List Request) (path : List String) (method : Method)
      (body : Option String) (headers : Dict String String) (answer : Response)
      → is_retry_status answer.status ≡ false
      → ((n : ℕ) (r : Request) → IsFor t base_url path tokens r → fetch n r ≡ some answer)
      → IsAnswered tokens sent path
          (record { method = method; body = body; headers = headers })
          answer
  unfolding dispatch send_with_body ready
  dispatch-IsAnswered tokens sent path get body headers answer final serves =
      dispatch-request tokens sent path get body headers _ answer refl final serves
  dispatch-IsAnswered tokens sent path post none headers answer final serves =
      dispatch-request tokens sent path post none headers _ answer refl final serves
  dispatch-IsAnswered tokens sent path post (some text) headers answer final serves =
      dispatch-request tokens sent path post (some text) headers _ answer refl final serves
  dispatch-IsAnswered tokens sent path patch none headers answer final serves =
      dispatch-request tokens sent path patch none headers _ answer refl final serves
  dispatch-IsAnswered tokens sent path patch (some text) headers answer final serves =
      dispatch-request tokens sent path patch (some text) headers _ answer refl final serves
  dispatch-IsAnswered tokens sent path delete none headers answer final serves =
      dispatch-request tokens sent path delete none headers _ answer refl final serves
  dispatch-IsAnswered tokens sent path delete (some text) headers answer final serves =
      dispatch-request tokens sent path delete (some text) headers _ answer refl final serves

  refresh-answered :
      (old : AuthTokens) (sent : List Request) (text : String)
      → t.is_json text ≡ true
      → (text == "") ≡ false
      → ((n : ℕ) (r : Request)
          → IsFor t base_url ("/auth/refresh" ∷ []) old r
          → fetch n r ≡ some (record { status = 200; text = text }))
      → (r : Request) × (refresh_token t fetch draw (ready t base_url client_id api_key old sent)
          ≡ (
            resolved (some text),
            ready t base_url client_id api_key (t.tokens_of text) (sent ++ r ∷ []),
          ))
        × IsFor t base_url ("/auth/refresh" ∷ []) old r
  unfolding refresh_token request_once store_tokens settled is_ok parse_json_body ready
      is_retry_status
  refresh-answered old sent text json filled renews =
      let ok : Response = record { status = 200; text = text } in
      let d = dispatch-IsAnswered old sent ("/auth/refresh" ∷ []) post none [] ok refl renews in
      let after = ready t base_url client_id api_key old (sent ++ d.0 ∷ []) in
      let parsed : parse_json_body t ok ≡ resolved (some text) = rw (filled, json) refl in
      (
        d.0,
        ap
              (λ (r : Outcome Response SendError × StreamingClient).
                store_tokens t fetch draw (settled t fetch draw r.0, r.1))
              d.1
            ∙ ap (λ (o : Outcome (Option String) Failure). store_tokens t fetch draw (o, after))
                parsed,
        d.2,
      )

  -- A request whose access token has expired is made again with the tokens that the refresh gives: the
  -- client sends the request, the refresh with the old access token, and the request with the new one,
  -- in this order, and nothing else; it answers what the last of these is answered; and it keeps
  -- the new tokens. The server answers 401 to the request with the old token and 200 to the refresh,
  -- with tokens in its body, and its answer to the request with the new token is no status that is
  -- retried.
  pub request_json_refreshes :
      (old : AuthTokens) (refresh text refusal : String) (sent : List Request) (path : List String)
      (init : Init) (answer : Response)
      → old.refresh_token ≡ some refresh
      → t.is_json text ≡ true
      → (text == "") ≡ false
      → is_retry_status answer.status ≡ false
      → ((n : ℕ) (r : Request)
          → IsFor t base_url path old r
          → fetch n r ≡ some (record { status = 401; text = refusal }))
      → ((n : ℕ) (r : Request)
          → IsFor t base_url ("/auth/refresh" ∷ []) old r
          → fetch n r ≡ some (record { status = 200; text = text }))
      → ((n : ℕ) (r : Request)
          → IsFor t base_url path (t.tokens_of text) r
          → fetch n r ≡ some answer)
      → (first : Request) × (second : Request) × (third : Request) × (request_json t fetch draw
            (ready t base_url client_id api_key old sent)
            path
            init
          ≡ (
            settled t fetch draw (resolved answer),
            ready t base_url client_id api_key
                (t.tokens_of text)
                (sent ++ first ∷ second ∷ third ∷ []),
          ))
        × IsFor t base_url path old first
        × IsFor t base_url ("/auth/refresh" ∷ []) old second
        × IsFor t base_url path (t.tokens_of text) third
  unfolding request_json needs_refresh again request_once ready is_retry_status
  request_json_refreshes old refresh text refusal sent path init answer has json filled final
        expired renews serves =
      let new = t.tokens_of text in
      let denied : Response = record { status = 401; text = refusal } in
      let a =
        dispatch-IsAnswered old sent path init.method init.body init.headers denied refl expired in
      let b = refresh-answered old (sent ++ a.0 ∷ []) text json filled renews in
      let c =
        dispatch-IsAnswered new ((sent ++ a.0 ∷ []) ++ b.0 ∷ []) path init.method init.body
          init.headers answer final serves in
      let asked : Outcome Response SendError × StreamingClient → Answered = λ r.
        (if needs_refresh t fetch draw r.0 r.1
          then again t fetch draw (refresh_token t fetch draw r.1) path init
          else (settled t fetch draw r.0, r.1)) in
      let client : List Request → StreamingClient = λ l. ready t base_url client_id api_key old l in
      let refreshes : needs_refresh t fetch draw (resolved denied) (client (sent ++ a.0 ∷ []))
          ≡ true =
        rw has refl in
      let taken : asked (resolved denied, client (sent ++ a.0 ∷ []))
          ≡ again t fetch draw (refresh_token t fetch draw (client (sent ++ a.0 ∷ []))) path init =
        rw refreshes refl in
      let all : (((sent ++ a.0 ∷ []) ++ b.0 ∷ []) ++ c.0 ∷ []) ≡ sent ++ a.0 ∷ b.0 ∷ c.0 ∷ [] =
        append-three sent a.0 b.0 c.0 in
      (
        a.0,
        b.0,
        c.0,
        ap asked a.1
            ∙ taken
            ∙ ap (λ x. again t fetch draw x path init) b.1
            ∙ ap
                (λ (r : Outcome Response SendError × StreamingClient).
                  (settled t fetch draw r.0, r.1))
                c.1
            ∙ ap
                (λ l. (
                  settled t fetch draw (resolved answer),
                  ready t base_url client_id api_key new l,
                ))
                all,
        a.2,
        b.2,
        c.2,
      )
