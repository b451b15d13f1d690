-- ===== src/Auth/Reset/Redemption.antt =====
-- How often a reset token can be used.
use xstream_roll.Shared.{
  ℕ, suc, ◌≤◌, ◌<◌, ◌≡◌, refl, subst, sym, inl, inr, String, Bool, true, false, not, ◌&&◌, none,
  some, List, [], ◌∷◌, ◌++◌, All, arith, leb, Option-cases, Bool-cases, ◌==◌, number_key,
  string_key,
}
use xstream_roll.Shared.Dict
use xstream_roll.Shared.Dict.{Dict}
use xstream_roll.Auth.{User, done, is_done, find_by, set_password}
use xstream_roll.Auth.Renewal.{set_password-user}
use xstream_roll.Auth.Reset.{
  ResetToken, PasswordReset, Call, sends, begins_reset, commits_reset, rate_limit_ttl_seconds,
  max_attempts_per_email, current_attempts, first_valid, create_reset_token, send_reset_token,
  reset_begin, mark_used, reset_commit, step, run,
}

-- Every row of the hash is used.
abbrev Spent : String → List ResetToken → Type 0
Spent h rows = All (λ (row : ResetToken). (row.token_hash == h && not row.used) ≡ false) rows

-- The rows of the hash are those of the id.
abbrev pub IsOnly : ℕ → String → List ResetToken → Type 0
IsOnly id h rows =
    All (λ (row : ResetToken). (row.token_hash == h && not (row.id == id)) ≡ false) rows

-- No call sends a token of the hash.
abbrev pub sends_other : (String → String) → String → Call → Bool
sends_other hash h (sends email token mailed now) = not (hash token == h)
sends_other hash h _ = true

mark_used-Spent :
    (rows : List ResetToken) (id : ℕ) (h : String) → IsOnly id h rows → Spent h (mark_used id rows)
unfolding mark_used
mark_used-Spent [] id h only = tt
mark_used-Spent (row ∷ rows) id h only = (ground (arith, only.0), mark_used-Spent rows id h only.1)

mark_used-keeps :
    (rows : List ResetToken) (id : ℕ) (h : String) → Spent h rows → Spent h (mark_used id rows)
unfolding mark_used
mark_used-keeps [] id h spent = tt
mark_used-keeps (row ∷ rows) id h spent =
    (ground (arith, spent.0), mark_used-keeps rows id h spent.1)

append-Spent :
    (rows : List ResetToken) (row : ResetToken) (h : String)
    → Spent h rows
    → (row.token_hash == h) ≡ false
    → Spent h (rows ++ row ∷ [])
append-Spent [] row h spent other = (ground (arith, other), tt)
append-Spent (x ∷ rows) row h spent other = (spent.0, append-Spent rows row h spent.1 other)

first_valid-Spent :
    (rows : List ResetToken) (h : String) (now : ℕ) → Spent h rows → first_valid h now rows ≡ none
unfolding first_valid
first_valid-Spent [] h now spent = refl
first_valid-Spent (row ∷ rows) h now spent =
    ground (arith, spent.0, first_valid-Spent rows h now spent.1)

module _ (hash normalize : String → String) (lasts : ℕ → ℕ → ℕ) where
  -- One more attempt to reset.
  abbrev counted : PasswordReset → String → ℕ → ℕ → PasswordReset
  counted s email attempts now = record s {
    reset_attempts =
        Dict.set email (suc attempts, lasts now rate_limit_ttl_seconds) s.reset_attempts;
  }

  reset_begin-tokens :
      (s : PasswordReset) (token : String) (now : ℕ)
      → (reset_begin hash normalize lasts s token now).1.tokens ≡ s.tokens
  unfolding reset_begin
  reset_begin-tokens s token now = ground arith

  send_reset_token-Spent :
      (s : PasswordReset) (h email token : String) (mailed : Bool) (now : ℕ)
      → (hash token == h) ≡ false
      → Spent h s.tokens
      → Spent h (send_reset_token hash normalize lasts s email token mailed now).1.tokens
  unfolding send_reset_token create_reset_token
  send_reset_token-Spent s h email token mailed now other spent =
      let attempts = current_attempts s.forgot_attempts (normalize email) now in
      elim (Bool-cases (leb max_attempts_per_email attempts)) [
        | inl over ↦ rw (over, send_reset_token) spent
        | inr under ↦ elim (Option-cases (find_by (λ u. u.email == normalize email) s.auth.users)) [
          | inl nobody ↦ rw (under, nobody, send_reset_token) spent
          | inr (user, e) ↦ elim (Bool-cases mailed) [
            | inl out ↦ rw (under, e, out, send_reset_token) (append-Spent s.tokens _ h spent other)
            | inr lost ↦
                rw (under, e, lost, send_reset_token) (append-Spent s.tokens _ h spent other)
          ]
        ]
      ]

  step-Spent :
      (s : PasswordReset) (h : String) (c : Call)
      → sends_other hash h c ≡ true
      → Spent h s.tokens
      → Spent h (step hash normalize lasts s c).tokens
  unfolding step reset_commit
  step-Spent s h (sends email token mailed now) q spent =
      send_reset_token-Spent s h email token mailed now (ground (arith, q)) spent
  step-Spent s h (begins_reset token now) q spent =
      subst (λ rows. Spent h rows) (sym (reset_begin-tokens s token now)) spent
  step-Spent s h (commits_reset row hashed now) q spent = mark_used-keeps s.tokens row.id h spent

  run-Spent :
      (cs : List Call) (s : PasswordReset) (h : String)
      → All (λ c. sends_other hash h c ≡ true) cs
      → Spent h s.tokens
      → Spent h (run hash normalize lasts s cs).tokens
  unfolding run
  run-Spent [] s h q spent = spent
  run-Spent (c ∷ cs) s h q spent =
      run-Spent cs (step hash normalize lasts s c) h q.1 (step-Spent s h c q.0 spent)

  reset_begin-Spent :
      (s : PasswordReset) (token : String) (now : ℕ)
      → Spent (hash token) s.tokens
      → is_done (reset_begin hash normalize lasts s token now).0 ≡ false
  unfolding reset_begin is_done
  reset_begin-Spent s token now spent =
      rw (first_valid-Spent s.tokens (hash token) now spent, reset_begin) refl

  -- Once a reset with a token has gone through, every later one with that token is refused, whatever is
  -- sent, begun and committed before or after, if its row was the only one of its hash and no other
  -- token that is sent has the same hash.
  pub redeemed_once :
      (s : PasswordReset) (row : ResetToken) (token hashed : String) (now later : ℕ)
      (cs : List Call)
      → IsOnly row.id (hash token) s.tokens
      → All (λ c. sends_other hash (hash token) c ≡ true) cs
      → is_done
          (reset_begin hash normalize lasts
            (run hash normalize lasts (reset_commit s row hashed now) cs)
            token
            later).0
        ≡ false
  unfolding reset_commit
  redeemed_once s row token hashed now later cs only q =
      reset_begin-Spent (run hash normalize lasts (reset_commit s row hashed now) cs) token later (
        run-Spent cs (reset_commit s row hashed now) (hash token) q
          (mark_used-Spent s.tokens row.id (hash token) only))

  reset_begin-done :
      (s : PasswordReset) (row : ResetToken) (user : User) (token : String) (now : ℕ)
      → first_valid (hash token) now s.tokens ≡ some row
      → Dict.get row.user_id s.auth.users ≡ some user
      → current_attempts s.reset_attempts (normalize user.email) now < max_attempts_per_email
      → reset_begin hash normalize lasts s token now ≡ (
        done row,
        counted s
            (normalize user.email)
            (current_attempts s.reset_attempts (normalize user.email) now)
            now,
      )
  unfolding reset_begin
  reset_begin-done s row user token now valid there few =
      let under : leb max_attempts_per_email
            (current_attempts s.reset_attempts (normalize user.email) now)
          ≡ false =
        ground arith in
      rw (valid, there, under, reset_begin) refl

  counted-attempts :
      (s : PasswordReset) (email : String) (attempts now : ℕ)
      → current_attempts (counted s email attempts now).reset_attempts email now ≤ suc attempts
  unfolding current_attempts
  counted-attempts s email attempts now =
      rw
        (
          Dict.get-set_self email (suc attempts, lasts now rate_limit_ttl_seconds) s.reset_attempts,
          current_attempts,
        )
        (ground arith)

  -- Two resets with one token, of which the second begins before the first commits, both go through,
  -- if the email has had fewer than two attempts so far: the password is the second one's in the end.
  pub redeemed_twice :
      (s : PasswordReset) (row : ResetToken) (user : User) (token first second : String) (now : ℕ)
      → first_valid (hash token) now s.tokens ≡ some row
      → Dict.get row.user_id s.auth.users ≡ some user
      → suc (current_attempts s.reset_attempts (normalize user.email) now) < max_attempts_per_email
      → let (begun₁, s₁) = reset_begin hash normalize lasts s token now in
        let (begun₂, s₂) = reset_begin hash normalize lasts s₁ token now in
        let s₃ = reset_commit (reset_commit s₂ row first now) row second now in
        (begun₁ ≡ done row)
        × (begun₂ ≡ done row)
        × (Dict.get row.user_id s₃.auth.users
            ≡ some (record user { password_hash = second; password_changed_at = some now }))
  unfolding reset_commit
  redeemed_twice s row user token first second now valid there few =
      let email = normalize user.email in
      let attempts = current_attempts s.reset_attempts email now in
      let s₁ = counted s email attempts now in
      let begun₁ = reset_begin-done s row user token now valid there (omega (arith, few)) in
      let begun₂ =
        reset_begin-done s₁ row user token now valid there
          (omega (arith, few, counted-attempts s email attempts now)) in
      rw (begun₁, begun₂)
        (
          refl,
          refl,
          (let once : User = record user {
            password_hash = first;
            password_changed_at = some now;
          } in
              set_password-user (set_password s.auth row.user_id first now) once row.user_id second
                now (set_password-user s.auth user row.user_id first now there)),
        )
