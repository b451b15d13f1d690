-- ===== src/Auth.antt =====
-- `AuthService` with `TokenDenylistService`, `UsersRepository` (api/src/auth) and
-- `JwtExtractorService` (api/src/common/guards). The JWT services, bcrypt and SHA-256 are parameters,
-- and so is `lasts now ttl`, the time until which the cache keeps what is set at `now` with `ttl`. Of a
-- header only the bearer token comes in, if there is one. A call is one step, from its first await to its
-- last: calls do not overlap. Times are in milliseconds, the `exp` claim in
-- seconds.
pub mod Reset
pub mod Logout
pub mod Renewal
pub mod Profile
mod Tests
use xstream_roll.Shared.{
  ℕ, zero, suc, ◌+◌, ◌-◌, ◌*◌, ◌/◌, String, Bool, true, false, not, ◌&&◌, Option, none, some, List,
  [], ◌∷◌, ◌++◌, is_some, ltb, leb, if◌then◌else◌, ◌==◌, number_key, string_key,
}
use xstream_roll.Shared.Dict
use xstream_roll.Shared.Dict.{Dict}

pub record User : Type 0 where
  pub id : ℕ
  pub username : String
  pub email : String
  pub password_hash : String
  pub created_at : ℕ
  pub password_changed_at : Option ℕ
  pub is_admin : Bool

-- The payload of a token; a claim that is missing, or is not of its type, is `none`.
pub record Claims : Type 0 where
  pub sub : Option ℕ
  pub jti : Option String
  pub exp : Option ℕ
  pub password_changed_at : Option ℕ
  pub is_admin : Bool

-- `JwtService`: what it signs at a time, what it decodes, and what it verifies at a time.
pub record Jwt : Type 0 where
  pub sign : Claims → ℕ → String
  pub decode : String → Option Claims
  pub verify : String → ℕ → Option Claims

pub data AuditAction : Type 0 where
  auth_login_success auth_login_failure auth_register_success auth_register_failure : AuditAction

pub record AuthService : Type 0 where
  pub users : Dict ℕ User
  pub next_id : ℕ
  -- the keys of the denylist, each with the time until which the cache has it
  pub denylist : Dict String ℕ
  pub audits : List (Option ℕ × AuditAction)

-- What a call comes to: a value, or the message of an exception.
pub data Answer (A : Type 0) : Type 0 where
  done : A → Answer A
  refused : String → Answer A

pub record AuthResponse : Type 0 where
  pub user : User
  pub access_token : String
  pub refresh_token : String

-- Who a request comes from.
pub record Identity : Type 0 where
  pub user_id : ℕ
  pub is_admin : Bool

abbrev pub changed_at : User → ℕ
changed_at user = elim user.password_changed_at [ none ↦ user.created_at | some t ↦ t ]

pub find_by : (User → Bool) → Dict ℕ User → Option User
find_by p [] = none
find_by p ((id, user) ∷ users) = if p user then some user else find_by p users

-- A text that is not empty.
abbrev pub present : Option String → Option String
present none = none
present (some jti) = if jti == "" then none else some jti

abbrev pub audit : Option ℕ → AuditAction → AuthService → AuthService
audit user action s = record s { audits = s.audits ++ (user, action) ∷ [] }

pub is_done : {A : Type 0} → Answer A → Bool
is_done (done value) = true
is_done (refused message) = false

-- The `UPDATE users` of a change of password.
pub set_password : AuthService → ℕ → String → ℕ → AuthService
set_password s user_id hashed now = elim (Dict.get user_id s.users) [
  | none ↦ s
  | some user ↦ record s {
    users =
        Dict.set user_id (record user { password_hash = hashed; password_changed_at = some now })
          s.users;
  }
]

module _ (hash : String → String) where
  abbrev pub denylist_key : String → String
  denylist_key jti = hash jti

  pub is_revoked : AuthService → String → ℕ → Bool
  is_revoked s jti now = elim (Dict.get (denylist_key jti) s.denylist) [
    | none ↦ false
    | some until ↦ ltb now until
  ]

  pub revoke : (ℕ → ℕ → ℕ) → AuthService → String → ℕ → ℕ → AuthService
  revoke lasts s jti ttl_seconds now =
      if ttl_seconds == 0
      then s
      else record s { denylist = Dict.set (denylist_key jti) (lasts now ttl_seconds) s.denylist }

-- `Math.floor(exp - Date.now() / 1000)`, where 0 also stands for what is below.
abbrev pub seconds_left : ℕ → ℕ → ℕ
seconds_left exp now = (exp * 1000 - now) / 1000

-- A claim of 0 counts as missing.
abbrev pub nonzero : Option ℕ → Option ℕ
nonzero none = none
nonzero (some zero) = none
nonzero (some (suc n)) = some (suc n)

abbrev pub exp_of : Option Claims → Option ℕ
exp_of none = none
exp_of (some claims) = nonzero claims.exp

abbrev pub jti_of : Option Claims → Option String
jti_of none = none
jti_of (some claims) = present claims.jti

-- What is signed in an access token, and in a refresh token.
abbrev pub access_claims : User → String → Claims
access_claims user uuid = record {
  sub = some user.id;
  jti = some uuid;
  exp = none;
  password_changed_at = some (changed_at user);
  is_admin = user.is_admin;
}

abbrev pub refresh_claims : User → String → Claims
refresh_claims user uuid = record (access_claims user uuid) { is_admin = false }

module _ (access refresh : Jwt) (hash : String → String) where
  -- A pair of tokens, with the two UUIDs.
  pub respond : User → String → String → ℕ → AuthResponse
  respond user uuid₁ uuid₂ now = record {
    user = user;
    access_token = access.sign (access_claims user uuid₁) now;
    refresh_token = refresh.sign (refresh_claims user uuid₂) now;
  }

  -- `register`; `hashed` is what bcrypt makes of the password.
  pub register :
      AuthService
      → String
      → String
      → String
      → String
      → String
      → ℕ
      → Answer AuthResponse × AuthService
  unfolding find_by respond
  register s username email hashed uuid₁ uuid₂ now =
      if is_some (find_by (λ u. u.email == email) s.users)
      then (refused "email is already registered", audit none auth_register_failure s)
      else if is_some (find_by (λ u. u.username == username) s.users)
      then (refused "username is already taken", audit none auth_register_failure s)
      else let user : User = record {
        id = s.next_id;
        username = username;
        email = email;
        password_hash = hashed;
        created_at = now;
        password_changed_at = none;
        is_admin = false;
      } in
        (
          done (respond user uuid₁ uuid₂ now),
          audit none auth_register_success
              (record s { users = Dict.set s.next_id user s.users; next_id = suc s.next_id }),
        )

  -- `login`; `compare` is that of bcrypt.
  pub login :
      (String → String → Bool)
      → AuthService
      → String
      → String
      → String
      → String
      → ℕ
      → Answer AuthResponse × AuthService
  unfolding find_by respond
  login compare s email password uuid₁ uuid₂ now = elim (find_by (λ u. u.email == email) s.users) [
    | none ↦ (refused "invalid email or password", audit none auth_login_failure s)
    | some user ↦
        if compare password user.password_hash
        then (done (respond user uuid₁ uuid₂ now), audit (some user.id) auth_login_success s)
        else (refused "invalid email or password", audit (some user.id) auth_login_failure s)
  ]

  -- `refresh`, for a refresh token that is there, with the new UUIDs.
  pub renew : AuthService → String → String → String → ℕ → Answer AuthResponse
  unfolding respond is_revoked
  renew s token uuid₁ uuid₂ now = elim (refresh.verify token now) [
    | none ↦ refused "invalid or expired refresh token"
    | some verified ↦ elim (refresh.decode token) [
      | none ↦ refused "invalid refresh token"
      | some claims ↦ elim (nonzero claims.sub) [
        | none ↦ refused "invalid refresh token"
        | some user_id ↦
            let revoked : Bool = elim (present claims.jti) [
              | none ↦ false
              | some jti ↦ is_revoked hash s jti now
            ] in
            if revoked
            then refused "refresh token has been revoked"
            else elim (Dict.get user_id s.users) [
              | none ↦ refused "invalid refresh token"
              | some user ↦ done (respond user uuid₁ uuid₂ now)
            ]
      ]
    ]
  ]

  -- `authenticate` of `JwtExtractorService`, for a bearer token.
  pub authenticate : AuthService → String → ℕ → Answer Identity
  unfolding is_revoked
  authenticate s token now = elim (access.verify token now) [
    | none ↦ refused "invalid or expired access token"
    | some claims ↦
        let revoked : Bool = elim (present claims.jti) [
          | none ↦ false
          | some jti ↦ is_revoked hash s jti now
        ] in
        if revoked then refused "access token has been revoked" else elim (nonzero claims.sub) [
          | none ↦ refused "invalid access token"
          | some user_id ↦
              let identity : Identity = record { user_id = user_id; is_admin = claims.is_admin } in
              elim (nonzero claims.password_changed_at) [
                | none ↦ done identity
                | some changed ↦ elim (Dict.get user_id s.users) [
                  | none ↦ refused "user not found"
                  | some user ↦
                      if ltb changed (changed_at user)
                      then refused "access token is no longer valid, please log in again"
                      else done identity
                ]
              ]
        ]
  ]

  module _ (lasts : ℕ → ℕ → ℕ) where
    -- `revoke(decodeJti(token), ttl)`, which throws where there is no `jti`.
    revoke_token : Option Claims → ℕ → AuthService → ℕ → Answer Unit × AuthService
    unfolding revoke
    revoke_token claims ttl s now = elim (jti_of claims) [
      | none ↦ (refused "token has no jti claim and cannot be revoked", s)
      | some jti ↦ (done tt, revoke hash lasts s jti ttl now)
    ]

    -- The refresh token of `logout`, which is decoded and not verified.
    pub logout_refresh : AuthService → Option String → ℕ → Answer Unit × AuthService
    unfolding revoke_token
    logout_refresh s token now = elim (present token) [
      | none ↦ (done tt, s)
      | some refresh_token ↦ elim (exp_of (refresh.decode refresh_token)) [
        | none ↦ (done tt, s)
        | some exp ↦
            if seconds_left exp now == 0
            then (done tt, s)
            else revoke_token (access.decode refresh_token) (seconds_left exp now) s now
      ]
    ]

    -- `logout`, for a bearer token and the refresh token of the cookie, if there is one.
    pub logout : AuthService → String → Option String → ℕ → Answer Unit × AuthService
    unfolding revoke_token logout_refresh
    logout s token refresh_token now = elim (access.verify token now) [
      | none ↦ (refused "invalid or expired access token", s)
      | some verified ↦ elim (exp_of (access.decode token)) [
        | none ↦ (refused "invalid access token", s)
        | some exp ↦
            if seconds_left exp now == 0
            then (refused "access token has expired", s)
            else let (answer, s') =
                revoke_token (access.decode token) (seconds_left exp now) s now in
              elim answer [
                | refused message ↦ (refused message, s')
                | done unit ↦ logout_refresh s' refresh_token now
              ]
      ]
    ]

-- The calls that change the users and not the denylist.
pub data Call : Type 0 where
  registers : String → String → String → String → String → ℕ → Call
  logins : String → String → String → String → ℕ → Call
  sets_password : ℕ → String → ℕ → Call

module _ (access refresh : Jwt) (hash : String → String) (compare : String → String → Bool) where
  pub step : AuthService → Call → AuthService
  unfolding register login set_password
  step s (registers username email hashed uuid₁ uuid₂ now) =
      (register access refresh hash s username email hashed uuid₁ uuid₂ now).1
  step s (logins email password uuid₁ uuid₂ now) =
      (login access refresh hash compare s email password uuid₁ uuid₂ now).1
  step s (sets_password user_id hashed now) = set_password s user_id hashed now

  pub run : AuthService → List Call → AuthService
  unfolding step
  run s [] = s
  run s (c ∷ cs) = run (step s c) cs
