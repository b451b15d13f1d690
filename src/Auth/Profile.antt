-- ===== src/Auth/Profile.antt =====
-- `UsersService` of api/src/users/users.service.ts, with `updateProfile` and `updatePasswordHash` of
-- api/src/auth/users.repository.ts. The header comes in as its bearer token, if it has one; `hashed`
-- is what bcrypt makes of the new password and `uuid` the new token's. Calls do not overlap, and the cache
-- takes what it is given.
pub mod Unique
pub mod Reissue
mod Tests
use xstream_roll.Shared.{
  ℕ, String, Bool, true, false, not, ◌&&◌, Option, none, some, List, [], ◌∷◌, is_some,
  if◌then◌else◌, ◌==◌, number_key, string_key,
}
use xstream_roll.Shared.Dict
use xstream_roll.Shared.Dict.{Dict}
use xstream_roll.Auth.{
  User, Claims, Jwt, AuthService, Answer, done, refused, find_by, set_password, access_claims,
  revoke_token,
}
use xstream_roll.Auth

pub record UpdateProfileDto : Type 0 where
  pub username : Option String
  pub email : Option String

-- A user without the hash of the password; the id and the time are not yet turned into text.
pub record SafeUser : Type 0 where
  pub id : ℕ
  pub username : String
  pub email : String
  pub created_at : ℕ

pub record ProfileResponse : Type 0 where
  pub user : SafeUser
  pub access_token : Option String

abbrev pub to_safe_user : User → SafeUser
to_safe_user user = record {
  id = user.id;
  username = user.username;
  email = user.email;
  created_at = user.created_at;
}

pub get_profile : AuthService → ℕ → Answer SafeUser
get_profile s user_id = elim (Dict.get user_id s.users) [
  | none ↦ refused "user not found"
  | some user ↦ done (to_safe_user user)
]

-- `dto.email && dto.email !== user.email`.
pub changes : Option String → String → Bool
changes none old = false
changes (some new) old = not (new == "") && not (new == old)

-- `email = $1`.
pub is_text : Option String → String → Bool
is_text none text = false
is_text (some new) text = text == new

abbrev pub column : Option String → String → String
column none old = old
column (some new) old = new

-- `UPDATE users SET …`.
pub set_columns : User → UpdateProfileDto → User
set_columns user dto = record user {
  username = column dto.username user.username;
  email = column dto.email user.email;
}

-- `findByEmail` and `findByUsername`.
pub find_by_email : Option String → AuthService → Option User
unfolding find_by is_text
find_by_email email s = find_by (λ u. is_text email u.email) s.users

pub find_by_username : Option String → AuthService → Option User
unfolding find_by is_text
find_by_username username s = find_by (λ u. is_text username u.username) s.users

-- What `signToken` signs.
abbrev pub profile_claims : User → String → Claims
profile_claims user uuid = record (access_claims user uuid) { is_admin = false }

abbrev pub ttl_seconds : ℕ
ttl_seconds = 3600

module _ (access refresh : Jwt) (hash : String → String) (lasts : ℕ → ℕ → ℕ) where
  -- The old token is revoked and a new one is signed.
  pub reissue :
      AuthService → User → Option String → String → ℕ → Answer ProfileResponse × AuthService
  unfolding revoke_token
  reissue s user bearer uuid now = elim bearer [
    | none ↦ (refused "Authorization header must contain a Bearer token", s)
    | some token ↦
        let (answer, s') =
          revoke_token access refresh hash lasts (access.decode token) ttl_seconds s now in
        elim answer [
          | refused message ↦ (refused message, s')
          | done unit ↦ (
            done (record {
              user = to_safe_user user;
              access_token = some (access.sign (profile_claims user uuid) now);
            }),
            s',
          )
        ]
  ]

  pub update_profile :
      AuthService
      → ℕ
      → UpdateProfileDto
      → Option String
      → String
      → ℕ
      → Answer ProfileResponse × AuthService
  unfolding changes find_by_email find_by_username set_columns reissue
  update_profile s user_id dto bearer uuid now = elim (Dict.get user_id s.users) [
    | none ↦ (refused "user not found", s)
    | some user ↦
        if changes dto.email user.email && is_some (find_by_email dto.email s)
        then (refused "email is already in use", s)
        else if changes dto.username user.username && is_some (find_by_username dto.username s)
        then (refused "username is already taken", s)
        else let updated = set_columns user dto in
          let s' : AuthService = record s { users = Dict.set user_id updated s.users } in
          if changes dto.email user.email
          then reissue s' updated bearer uuid now
          else (done (record { user = to_safe_user updated; access_token = none }), s')
  ]

  -- `compare` is that of bcrypt.
  pub change_password :
      (String → String → Bool)
      → AuthService
      → ℕ
      → String
      → String
      → Option String
      → String
      → ℕ
      → Answer ProfileResponse × AuthService
  unfolding set_password reissue
  change_password compare s user_id current hashed bearer uuid now =
      elim (Dict.get user_id s.users) [
        | none ↦ (refused "user not found", s)
        | some user ↦
            let updated : User = record user {
              password_hash = hashed;
              password_changed_at = some now;
            } in
            if compare current user.password_hash
            then reissue (set_password s user_id hashed now) updated bearer uuid now
            else (refused "current password is incorrect", s)
      ]

-- The calls that change the users.
pub data Call : Type 0 where
  calls : Auth.Call → Call
  updates : ℕ → UpdateProfileDto → Option String → String → ℕ → Call
  changes_password : ℕ → String → String → Option String → String → ℕ → Call

module _ (access refresh : Jwt) (hash : String → String) (lasts : ℕ → ℕ → ℕ)
    (compare : String → String → Bool) where
  pub step : AuthService → Call → AuthService
  unfolding Auth.step update_profile change_password
  step s (calls c) = Auth.step access refresh hash compare s c
  step s (updates user_id dto bearer uuid now) =
      (update_profile access refresh hash lasts s user_id dto bearer uuid now).1
  step s (changes_password user_id current hashed bearer uuid now) =
      (change_password access refresh hash lasts compare s user_id current hashed bearer uuid now).1

  pub run : AuthService → List Call → AuthService
  unfolding step
  run s [] = s
  run s (c ∷ cs) = run (step s c) cs
