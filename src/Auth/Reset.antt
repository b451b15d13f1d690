-- ===== src/Auth/Reset.antt =====
-- `PasswordResetService` of api/src/auth/password-reset.service.ts. `normalize` trims an email and puts
-- it in lower case. The attempts are in the cache under two prefixes, each with the time until which
-- the cache keeps it. `resetPassword` is cut at its call of bcrypt. A random token comes in as an
-- argument, and so does whether its mail goes out.
pub mod Redemption
use xstream_roll.Shared.{
  ℕ, suc, ◌+◌, String, Bool, true, false, not, ◌&&◌, Option, none, some, List, [], ◌∷◌, ◌++◌, map,
  filter, ltb, leb, if◌then◌else◌, ◌==◌, number_key, string_key,
}
use xstream_roll.Shared.Dict
use xstream_roll.Shared.Dict.{Dict}
use xstream_roll.Auth.{User, AuthService, Answer, done, refused, find_by, set_password}

-- A row of `password_reset_tokens`.
pub record ResetToken : Type 0 where
  pub id : ℕ
  pub user_id : ℕ
  pub token_hash : String
  pub used : Bool
  pub expires_at : ℕ

-- How many attempts, and until when they count.
abbrev pub Attempts : Type 0
Attempts = Dict String (ℕ × ℕ)

pub record PasswordReset : Type 0 where
  pub auth : AuthService
  pub tokens : List ResetToken
  pub next_id : ℕ
  pub forgot_attempts : Attempts
  pub reset_attempts : Attempts
  -- the email and the token of each mail that has gone out
  pub mails : List (String × String)

abbrev pub password_reset_token_ttl_ms : ℕ
password_reset_token_ttl_ms = 3600000

abbrev pub max_attempts_per_email : ℕ
max_attempts_per_email = 3

abbrev pub rate_limit_ttl_seconds : ℕ
rate_limit_ttl_seconds = 3600

-- `cache.get(rateKey) ?? 0`.
unfoldable pub current_attempts : Attempts → String → ℕ → ℕ
current_attempts attempts email now = elim (Dict.get email attempts) [
  | none ↦ 0
  | some a ↦ if ltb now a.1 then a.0 else 0
]

-- The `WHERE` of the query for a token.
abbrev pub is_valid : String → ℕ → ResetToken → Bool
is_valid token_hash now row =
    row.token_hash == token_hash && (not row.used && ltb now row.expires_at)

unfoldable pub first_valid : String → ℕ → List ResetToken → Option ResetToken
first_valid token_hash now [] = none
first_valid token_hash now (row ∷ rows) =
    if is_valid token_hash now row then some row else first_valid token_hash now rows

module _ (hash normalize : String → String) (lasts : ℕ → ℕ → ℕ) where
  -- `createResetToken`.
  pub create_reset_token : PasswordReset → ℕ → String → ℕ → PasswordReset
  create_reset_token s user_id token now = record s {
    tokens =
        s.tokens
        ++ record {
          id = s.next_id;
          user_id = user_id;
          token_hash = hash token;
          used = false;
          expires_at = now + password_reset_token_ttl_ms;
        }
          ∷ [];
    next_id = suc s.next_id;
  }

  -- `sendResetToken`.
  pub send_reset_token : PasswordReset → String → String → Bool → ℕ → Answer Unit × PasswordReset
  unfolding current_attempts create_reset_token find_by
  send_reset_token s email token mailed now =
      let normalized = normalize email in
      let attempts = current_attempts s.forgot_attempts normalized now in
      if leb max_attempts_per_email attempts
      then (done tt, s)
      else let counted = record s {
        forgot_attempts =
            Dict.set normalized (suc attempts, lasts now rate_limit_ttl_seconds) s.forgot_attempts;
      } in
        elim (find_by (λ u. u.email == normalized) s.auth.users) [
          | none ↦ (done tt, counted)
          | some user ↦
              let made = create_reset_token counted user.id token now in
              if mailed
              then (done tt, record made { mails = made.mails ++ (normalized, token) ∷ [] })
              else (refused "Failed to dispatch reset email", made)
        ]

  -- `resetPassword` up to its call of bcrypt, with the row that it goes on with.
  pub reset_begin : PasswordReset → String → ℕ → Answer ResetToken × PasswordReset
  unfolding first_valid current_attempts
  reset_begin s token now = elim (first_valid (hash token) now s.tokens) [
    | none ↦ (refused "invalid or expired reset token", s)
    | some row ↦ elim (Dict.get row.user_id s.auth.users) [
      | none ↦ (refused "invalid or expired reset token", s)
      | some user ↦
          let normalized = normalize user.email in
          let attempts = current_attempts s.reset_attempts normalized now in
          if leb max_attempts_per_email attempts
          then (refused "invalid or expired reset token", s)
          else (
            done row,
            record s {
              reset_attempts =
                  Dict.set normalized (suc attempts, lasts now rate_limit_ttl_seconds)
                    s.reset_attempts;
            },
          )
    ]
  ]

-- `UPDATE password_reset_tokens SET used = true WHERE id = $1`.
pub mark_used : ℕ → List ResetToken → List ResetToken
mark_used id [] = []
mark_used id (row ∷ rows) =
    (if row.id == id then record row { used = true } else row) ∷ mark_used id rows

-- The transaction, with what bcrypt has made of the password.
pub reset_commit : PasswordReset → ResetToken → String → ℕ → PasswordReset
unfolding mark_used set_password
reset_commit s row hashed now = record s {
  tokens = mark_used row.id s.tokens;
  auth = set_password s.auth row.user_id hashed now;
}

-- What can happen, in any order.
pub data Call : Type 0 where
  sends : String → String → Bool → ℕ → Call
  begins_reset : String → ℕ → Call
  commits_reset : ResetToken → String → ℕ → Call

module _ (hash normalize : String → String) (lasts : ℕ → ℕ → ℕ) where
  pub step : PasswordReset → Call → PasswordReset
  unfolding send_reset_token reset_begin reset_commit
  step s (sends email token mailed now) =
      (send_reset_token hash normalize lasts s email token mailed now).1
  step s (begins_reset token now) = (reset_begin hash normalize lasts s token now).1
  step s (commits_reset row hashed now) = reset_commit s row hashed now

  pub run : PasswordReset → List Call → PasswordReset
  unfolding step
  run s [] = s
  run s (c ∷ cs) = run (step s c) cs
