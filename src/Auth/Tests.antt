-- ===== src/Auth/Tests.antt =====
-- A user with two tokens over a JWT service that writes the expiry into the token, and the theorems
-- about them.
use xstream_roll.Shared.{
  ℕ, ◌+◌, ◌*◌, ◌≡◌, refl, String, Bool, true, false, none, some, List, [], ◌∷◌, arith, eq_iff,
  if◌then◌else◌, ◌==◌, number_key, string_key,
}
use xstream_roll.Shared.Dict
use xstream_roll.Auth.{
  User, Claims, Jwt, AuthService, AuthResponse, done, is_done, present, set_password, is_revoked,
  renew, authenticate, logout, Call, logins, sets_password, run,
}
use xstream_roll.Auth.Logout.{IsToken, logout_refuses}
use xstream_roll.Auth.Renewal.{set_password-renews}
use xstream_roll.Auth.Reset
use xstream_roll.Auth.Reset.{
  ResetToken, PasswordReset, is_valid, first_valid, current_attempts, reset_begin, reset_commit,
}
use xstream_roll.Auth.Reset.Redemption.{redeemed_once}

abbrev ann : User
ann = record {
  id = 1;
  username = "ann";
  email = "a@x";
  password_hash = "h";
  created_at = 10;
  password_changed_at = none;
  is_admin = false;
}

abbrev service : AuthService
service = record { users = (1, ann) ∷ []; next_id = 2; denylist = []; audits = [] }

abbrev as_is : String → String
as_is t = t

-- The text of a token decides what is in it; all expire after a hundred seconds.
abbrev claims_of : String → Claims
claims_of token = record {
  sub = some 1;
  jti = some token;
  exp = some 100;
  password_changed_at = some 10;
  is_admin = false;
}

abbrev plain : Jwt
plain = record {
  sign = λ claims now. "new";
  decode = λ token. some (claims_of token);
  verify = λ token now. some (claims_of token);
}

abbrev lasts : ℕ → ℕ → ℕ
lasts now ttl = now + ttl * 1000

-- A cache that takes the seconds for milliseconds, as version 5 of cache-manager does.
abbrev lasts_ms : ℕ → ℕ → ℕ
lasts_ms now ttl = now + ttl

abbrev same_text : String → String → Bool
same_text a b = a == b

abbrev calls : List Call
calls = logins "a@x" "p" "u" "v" 3000 ∷ sets_password 1 "h2" 4000 ∷ []

plain-IsToken :
    (token : String)
    → present (some token) ≡ some token
    → IsToken plain token (claims_of token) token 100
plain-IsToken token h = (refl, h, refl, λ now c e. ground (arith, e))

logout_refuses_example :
    (is_done (
        authenticate plain plain as_is
          (run plain plain as_is same_text
            (logout plain plain as_is lasts_ms service "acc" (some "ref") 2500).1
            calls)
          "acc"
          2590)
      ≡ false)
    × (is_done (
          renew plain plain as_is
            (run plain plain as_is same_text
              (logout plain plain as_is lasts_ms service "acc" (some "ref") 2500).1
              calls)
            "ref"
            "x"
            "y"
            2590)
        ≡ false)
logout_refuses_example =
    logout_refuses plain plain as_is same_text lasts_ms service "acc" "ref" "acc" "ref" "x" "y"
      (claims_of "acc") (claims_of "ref") (claims_of "acc") 100 100 2500 2590 calls
      (plain-IsToken "acc" refl) (plain-IsToken "ref" refl) refl refl
      (ground (arith, eq_iff "acc" "ref")) refl (omega arith) (omega arith) (omega arith)
      (omega arith)

-- A service whose only new token is that of the renewal below.
abbrev renewing : Jwt
renewing = record {
  sign = λ claims now. "new";
  decode = λ token. some (claims_of token);
  verify = λ token now.
      if token == "new"
      then some (record (claims_of "x") { password_changed_at = some 4000 })
      else some (claims_of token);
}

set_password-renews_example :
    (is_done (authenticate renewing renewing as_is (set_password service 1 "h2" 4000) "acc" 5000)
      ≡ false)
    × ((r : AuthResponse) × (renew renewing renewing as_is
            (set_password service 1 "h2" 4000)
            "ref"
            "x"
            "y"
            5000
          ≡ done r)
        × (is_done (
              authenticate renewing renewing as_is
                (set_password service 1 "h2" 4000)
                r.access_token
                5000)
            ≡ true))
unfolding is_revoked Dict.get
set_password-renews_example =
    set_password-renews renewing renewing as_is service ann "acc" "ref" "ref" "x" "y" "h2"
      (claims_of "acc") (claims_of "ref") 10 4000 5000 100 refl refl refl refl (omega arith) refl
      refl refl refl refl refl refl refl

abbrev row : ResetToken
row = record { id = 1; user_id = 1; token_hash = "t"; used = false; expires_at = 3600000 }

abbrev resets : PasswordReset
resets = record {
  auth = service;
  tokens = row ∷ [];
  next_id = 2;
  forgot_attempts = [];
  reset_attempts = [];
  mails = [];
}

abbrev later_calls : List Reset.Call
later_calls = Reset.sends "a@x" "u" true 30 ∷ Reset.begins_reset "u" 40 ∷ []

redeemed_once_example :
    is_done
      (reset_begin as_is as_is lasts
        (Reset.run as_is as_is lasts (reset_commit resets row "h2" 20) later_calls)
        "t"
        50).0
    ≡ false
redeemed_once_example =
    redeemed_once as_is as_is lasts resets row "t" "h2" 20 50 later_calls (refl, tt)
      (refl, (refl, tt))

abbrev second_begun : PasswordReset
second_begun =
    (reset_begin as_is as_is lasts (reset_begin as_is as_is lasts resets "t" 20).1 "t" 20).1
