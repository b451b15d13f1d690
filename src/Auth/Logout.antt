-- ===== src/Auth/Logout.antt =====
-- What a logout revokes, and for how long.
use xstream_roll.Shared.{
  ℕ, ◌+◌, ◌*◌, ◌≤◌, ◌<◌, ◌≡◌, ◌≢◌, refl, sym, ap, ◌∙◌, inl, inr, String, Bool, true, false, Option,
  some, List, [], ◌∷◌, arith, Option-cases, lt→ltb, ◌==◌, same_number_iff, number_key, string_key,
}
use xstream_roll.Shared.Dict
use xstream_roll.Shared.Dict.{Dict}
use xstream_roll.Auth.{
  Claims, Jwt, AuthService, Answer, done, is_done, present, nonzero, exp_of, seconds_left,
  set_password, is_revoked, revoke, register, login, renew, authenticate, revoke_token,
  logout_refresh, logout, Call, registers, logins, sets_password, step, run,
}

-- The payload of a token has this `jti` and this `exp`, and a token that is verified has its payload.
abbrev pub IsToken : Jwt → String → Claims → String → ℕ → Type 0
IsToken jwt token claims jti exp =
    (jwt.decode token ≡ some claims)
    × (present claims.jti ≡ some jti)
    × (nonzero claims.exp ≡ some exp)
    × ((now : ℕ) (c : Claims) → jwt.verify token now ≡ some c → c ≡ claims)

pub is_revoked-kept :
    (hash : String → String) (s : AuthService) (jti : String) (now until : ℕ)
    → Dict.get (hash jti) s.denylist ≡ some until
    → now < until
    → is_revoked hash s jti now ≡ true
unfolding is_revoked
is_revoked-kept hash s jti now until e h = rw (e, is_revoked) (lt→ltb now until h)

-- With a second or more to go, there is something to set.
seconds_left-some : (exp now : ℕ) → now + 1000 ≤ exp * 1000 → (seconds_left exp now == 0) ≡ false
seconds_left-some exp now h =
    let some_left : 0 < seconds_left exp now = omega arith in
    ground (arith, same_number_iff (seconds_left exp now) 0)

module _ (access refresh : Jwt) (hash : String → String) (compare : String → String → Bool) where
  step-denylist :
      (s : AuthService) (c : Call) → (step access refresh hash compare s c).denylist ≡ s.denylist
  unfolding step register login set_password
  step-denylist s (registers username email hashed uuid₁ uuid₂ now) = ground arith
  step-denylist s (logins email password uuid₁ uuid₂ now) = ground arith
  step-denylist s (sets_password user_id hashed now) = ground arith

  run-denylist :
      (cs : List Call) (s : AuthService)
      → (run access refresh hash compare s cs).denylist ≡ s.denylist
  unfolding run
  run-denylist [] s = refl
  run-denylist (c ∷ cs) s =
      run-denylist cs (step access refresh hash compare s c) ∙ step-denylist s c

  pub authenticate-revoked :
      (s : AuthService) (token jti : String) (claims : Claims) (exp now : ℕ)
      → IsToken access token claims jti exp
      → is_revoked hash s jti now ≡ true
      → is_done (authenticate access refresh hash s token now) ≡ false
  unfolding authenticate is_done
  authenticate-revoked s token jti claims exp now t r =
      elim (Option-cases (access.verify token now)) [
        | inl e ↦ rw (e, authenticate) refl
        | inr (c, e) ↦
            let same = ap (λ (x : Claims). present x.jti) (t.3 now c e) ∙ t.1 in
            rw (e, authenticate) (rw same (rw r refl))
      ]

  renew-revoked :
      (s : AuthService) (token jti uuid₁ uuid₂ : String) (claims : Claims) (exp now : ℕ)
      → IsToken refresh token claims jti exp
      → is_revoked hash s jti now ≡ true
      → is_done (renew access refresh hash s token uuid₁ uuid₂ now) ≡ false
  unfolding renew is_done
  renew-revoked s token jti uuid₁ uuid₂ claims exp now t r =
      elim (Option-cases (refresh.verify token now)) [
        | inl e ↦ rw (e, renew) refl
        | inr (c, e) ↦ elim (Option-cases (nonzero claims.sub)) [
          | inl none_there ↦ rw (e, t.0, none_there, renew) refl
          | inr (user_id, sub) ↦ rw (e, t.0, sub, renew) (rw t.1 (rw r refl))
        ]
      ]

  module _ (lasts : ℕ → ℕ → ℕ) where
    revoke_token-revokes :
        (s : AuthService) (c : Option Claims) (claims : Claims) (jti : String) (ttl now : ℕ)
        → c ≡ some claims
        → present claims.jti ≡ some jti
        → revoke_token access refresh hash lasts c ttl s now
          ≡ (done tt, revoke hash lasts s jti ttl now)
    unfolding revoke_token
    revoke_token-revokes s c claims jti ttl now e h = rw (e, revoke_token) (rw h refl)

    pub logout_refresh-revokes :
        (s : AuthService) (cookie k : String) (b : Claims) (f now : ℕ)
        → IsToken refresh cookie b k f
        → access.decode cookie ≡ some b
        → present (some cookie) ≡ some cookie
        → (seconds_left f now == 0) ≡ false
        → logout_refresh access refresh hash lasts s (some cookie) now
          ≡ (done tt, revoke hash lasts s k (seconds_left f now) now)
    unfolding logout_refresh
    logout_refresh-revokes s cookie k b f now u same there left =
        let exp : exp_of (refresh.decode cookie) ≡ some f = rw u.0 u.2 in
        rw (there, logout_refresh)
          (rw (exp, left)
            (revoke_token-revokes s (access.decode cookie) b k (seconds_left f now) now same u.1
              ∙ rw (left, revoke) refl))

    pub logout-revokes :
        (s : AuthService) (token j : String) (cookie : Option String) (a c : Claims) (e now : ℕ)
        → IsToken access token a j e
        → access.verify token now ≡ some c
        → (seconds_left e now == 0) ≡ false
        → logout access refresh hash lasts s token cookie now
          ≡ logout_refresh access refresh hash lasts
              (revoke hash lasts s j (seconds_left e now) now)
              cookie
              now
    unfolding logout
    logout-revokes s token j cookie a c e now t verified left =
        let exp : exp_of (access.decode token) ≡ some e = rw t.0 t.2 in
        let revoked =
          revoke_token-revokes s (access.decode token) a j (seconds_left e now) now t.0 t.1 in
        rw (verified, exp, left, logout) (rw revoked (rw revoked (rw (left, revoke) refl)))

    -- The denylist after a logout.
    pub logout-denylist :
        (s : AuthService) (token cookie j k : String) (a b c : Claims) (e f now : ℕ)
        → IsToken access token a j e
        → IsToken refresh cookie b k f
        → access.decode cookie ≡ some b
        → present (some cookie) ≡ some cookie
        → access.verify token now ≡ some c
        → (seconds_left e now == 0) ≡ false
        → (seconds_left f now == 0) ≡ false
        → (logout access refresh hash lasts s token (some cookie) now).1.denylist
          ≡ Dict.set
              (hash k)
              (lasts now (seconds_left f now))
              (Dict.set (hash j) (lasts now (seconds_left e now)) s.denylist)
    unfolding revoke
    logout-denylist s token cookie j k a b c e f now t u same there verified left₁ left₂ =
        let s' = revoke hash lasts s j (seconds_left e now) now in
        let outcome =
          logout-revokes s token j (some cookie) a c e now t verified left₁
          ∙ logout_refresh-revokes s' cookie k b f now u same there left₂ in
        ap (λ (x : Answer Unit × AuthService). x.1.denylist) outcome ∙ rw (left₁, left₂) refl

    -- From a logout on, whatever is registered, logged in or changed of passwords meanwhile, neither
    -- the access token nor the refresh token that it was called with is accepted again as long as the
    -- cache keeps what it was given for the seconds that the token had left, if the access token was
    -- verified, both had a second or more to go, a token has one payload however it is looked at, and
    -- the two UUIDs do not hash to the same key.
    pub logout_refuses :
        (s : AuthService) (token cookie j k uuid₁ uuid₂ : String) (a b c : Claims)
        (e f now later : ℕ) (cs : List Call)
        → IsToken access token a j e
        → IsToken refresh cookie b k f
        → access.decode cookie ≡ some b
        → present (some cookie) ≡ some cookie
        → hash j ≢ hash k
        → access.verify token now ≡ some c
        → now + 1000 ≤ e * 1000
        → now + 1000 ≤ f * 1000
        → later < lasts now (seconds_left e now)
        → later < lasts now (seconds_left f now)
        → let s' =
            run access refresh hash compare
              (logout access refresh hash lasts s token (some cookie) now).1
              cs in
          (is_done (authenticate access refresh hash s' token later) ≡ false)
          × (is_done (renew access refresh hash s' cookie uuid₁ uuid₂ later) ≡ false)
    logout_refuses s token cookie j k uuid₁ uuid₂ a b c e f now later cs t u same there ne verified
          more₁ more₂ in_time₁ in_time₂ =
        let left₁ = seconds_left-some e now more₁ in
        let left₂ = seconds_left-some f now more₂ in
        let out = (logout access refresh hash lasts s token (some cookie) now).1 in
        let s' = run access refresh hash compare out cs in
        let kept =
          run-denylist cs out
          ∙ logout-denylist s token cookie j k a b c e f now t u same there verified left₁ left₂ in
        let m = Dict.set (hash j) (lasts now (seconds_left e now)) s.denylist in
        let until₁ : Dict.get (hash j) s'.denylist ≡ some (lasts now (seconds_left e now)) =
          rw kept (
            Dict.get-set_ne (hash j) (hash k) (lasts now (seconds_left f now)) m
              (λ same_key. ne (sym same_key))
            ∙ Dict.get-set_self (hash j) (lasts now (seconds_left e now)) s.denylist) in
        let until₂ : Dict.get (hash k) s'.denylist ≡ some (lasts now (seconds_left f now)) =
          rw kept (Dict.get-set_self (hash k) (lasts now (seconds_left f now)) m) in
        (
          authenticate-revoked s' token j a e later t
              (is_revoked-kept hash s' j later _ until₁ in_time₁),
          renew-revoked s' cookie k uuid₁ uuid₂ b f later u
              (is_revoked-kept hash s' k later _ until₂ in_time₂),
        )
