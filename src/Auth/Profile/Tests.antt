-- ===== src/Auth/Profile/Tests.antt =====
-- Two users, an admin among them, over a JWT service that writes the id into the token, and the theorems
-- about them.
use xstream_roll.Shared.{
  ℕ, ◌+◌, ◌≡◌, ◌≢◌, refl, String, Bool, true, false, not, Option, none, some, List, [], ◌∷◌, arith,
  eq_iff, if◌then◌else◌, ◌==◌, number_key, string_key,
}
use xstream_roll.Shared.Dict
use xstream_roll.Auth.{
  User, Claims, Jwt, AuthService, done, refused, is_done, set_password, find_by, is_revoked,
  authenticate,
}
use xstream_roll.Auth
use xstream_roll.Auth.Profile.{
  UpdateProfileDto, to_safe_user, changes, is_text, find_by_email, update_profile, change_password,
  Call, calls, updates, changes_password, run,
}
use xstream_roll.Auth.Profile.Unique.{AreNamed, run-AreNamed}
use xstream_roll.Auth.Profile.Reissue.{change_password-reissues, refused_unchanged}

abbrev ann : User
ann = record {
  id = 1;
  username = "ann";
  email = "a@x";
  password_hash = "h";
  created_at = 10;
  password_changed_at = none;
  is_admin = true;
}

abbrev bob : User
bob = record ann { id = 2; username = "bob"; email = "b@x"; is_admin = false }

abbrev service : AuthService
service = record { users = (1, ann) ∷ (2, bob) ∷ []; next_id = 3; denylist = []; audits = [] }

abbrev nobody : AuthService
nobody = record service { users = []; next_id = 1 }

abbrev as_is : String → String
as_is t = t

-- The cache takes the seconds for milliseconds.
abbrev lasts : ℕ → ℕ → ℕ
lasts now ttl = now + ttl

abbrev same_text : String → String → Bool
same_text a b = a == b

-- The token "new" was signed at 4000, and the one that is empty has no id.
abbrev claims_of : String → Claims
claims_of token = record {
  sub = some 1;
  jti = some token;
  exp = some 100;
  password_changed_at = some (if token == "new" then 4000 else 10);
  is_admin = not (token == "new");
}

abbrev jwt : Jwt
jwt = record {
  sign = λ claims now. "new";
  decode = λ token. some (claims_of token);
  verify = λ token now. some (claims_of token);
}

abbrev mail : Option String → UpdateProfileDto
mail email = record { username = none; email = email }

abbrev history : List Call
history =
    calls (Auth.registers "ann" "a@x" "h" "u" "v" 10)
    ∷ calls (Auth.registers "bob" "b@x" "k" "u" "v" 20)
    ∷ updates 2 (mail (some "a@x")) (some "acc") "new" 30
    ∷ updates 1 (mail (some "c@x")) (some "acc") "new" 40
    ∷ changes_password 1 "h" "h2" (some "acc") "new" 50
    ∷ []

nobody-AreNamed : AreNamed nobody
unfolding Dict.get
nobody-AreNamed = (
  λ i j u v e₁ e₂ same. absurd (ground (arith, e₁)),
  λ i j u v e₁ e₂ same. absurd (ground (arith, e₁)),
)

abbrev not_set : Option String
not_set = none

filled : (email : String) → email ≢ "" → (some email ≢ some "") × (not_set ≢ some "")
filled email h = (λ e. ground (arith, e, h), λ e. ground (arith, e))

run-AreNamed_example : AreNamed (run jwt jwt as_is lasts same_text nobody history)
run-AreNamed_example = run-AreNamed jwt jwt as_is lasts same_text history nobody nobody-AreNamed (
  tt,
  (
    tt,
    (
      filled "a@x" (ground (arith, eq_iff "a@x" "")),
      (filled "c@x" (ground (arith, eq_iff "c@x" "")), (tt, tt)),
    ),
  ),
)

abbrev changed_ann : User
changed_ann = record ann { password_hash = "h2"; password_changed_at = some 4000 }

change_password-reissues_example :
    let (answer, s') =
      change_password jwt jwt as_is lasts same_text service 1 "h" "h2" (some "acc") "new" 4000 in
    (answer ≡ done (record { user = to_safe_user changed_ann; access_token = some "new" }))
    × (is_done (authenticate jwt jwt as_is s' "acc" 5000) ≡ false)
    × (is_done (authenticate jwt jwt as_is s' "old" 5000) ≡ false)
    × (authenticate jwt jwt as_is s' "new" 5000 ≡ done (record { user_id = 1; is_admin = false }))
unfolding Dict.get is_revoked
change_password-reissues_example =
    change_password-reissues jwt jwt as_is lasts same_text service ann "h" "h2" "acc" "acc" "old"
      "new" (claims_of "acc") (claims_of "old") 10 4000 5000 100 100 refl refl
      (refl, refl, refl, λ now c e. ground (arith, e)) refl refl
      (λ e. ground (arith, e, eq_iff "acc" "new")) refl refl refl refl refl (omega arith)
      (omega arith)

refused_unchanged_example :
    let (updated, s₁) =
      update_profile jwt jwt as_is lasts service 2 (mail (some "a@x")) (some "acc") "new" 30 in
    let (changed, s₂) =
      change_password jwt jwt as_is lasts same_text service 2 "wrong" "h2" (some "acc") "new" 30 in
    (is_done updated ≡ false → s₁ ≡ service) × (is_done changed ≡ false → s₂ ≡ service)
refused_unchanged_example =
    refused_unchanged jwt jwt as_is lasts same_text service 2 (mail (some "a@x")) "wrong" "h2" "acc"
      "acc" "new" 30 refl

-- Both are refused.
refused_there :
    (is_done
        (update_profile jwt jwt as_is lasts service 2 (mail (some "a@x")) (some "acc") "new" 30).0
      ≡ false)
    × (is_done
          (change_password jwt jwt as_is lasts same_text service 2 "wrong" "h2"
            (some "acc")
            "new"
            30).0
        ≡ false)
unfolding update_profile change_password changes is_text find_by_email find_by Dict.get is_done
refused_there = (refl, refl)
