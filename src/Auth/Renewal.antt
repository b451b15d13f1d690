-- ===== src/Auth/Renewal.antt =====
-- What a change of password does to the tokens that are out.
use xstream_roll.Shared.{
  ℕ, zero, suc, ◌<◌, ◌≡◌, refl, subst, ◌∙◌, inl, inr, String, Bool, true, false, Option, none, some,
  arith, ltb, if◌then◌else◌, Option-cases, lt→ltb, number_key, string_key,
}
use xstream_roll.Shared.Dict
use xstream_roll.Shared.Dict.{Dict}
use xstream_roll.Auth.{
  User, Claims, Jwt, AuthService, AuthResponse, Identity, done, refused, is_done, present, nonzero,
  changed_at, set_password, is_revoked, access_claims, respond, renew, authenticate,
}

pub set_password-user :
    (s : AuthService) (user : User) (user_id : ℕ) (hashed : String) (now : ℕ)
    → Dict.get user_id s.users ≡ some user
    → Dict.get user_id (set_password s user_id hashed now).users
      ≡ some (record user { password_hash = hashed; password_changed_at = some now })
unfolding set_password
set_password-user s user user_id hashed now e =
    rw (e, set_password)
      (Dict.get-set_self user_id
        (record user { password_hash = hashed; password_changed_at = some now }) s.users)

is_revoked-set_password :
    (hash : String → String) (s : AuthService) (user_id : ℕ) (hashed jti : String) (changed now : ℕ)
    → is_revoked hash (set_password s user_id hashed changed) jti now ≡ is_revoked hash s jti now
unfolding is_revoked set_password
is_revoked-set_password hash s user_id hashed jti changed now =
    elim (Option-cases (Dict.get user_id s.users)) [
      | inl e ↦ rw (e, set_password) refl
      | inr (user, e) ↦ rw (e, set_password) refl
    ]

nonzero-some : (o : Option ℕ) (n : ℕ) → nonzero o ≡ some n → nonzero (some n) ≡ some n
nonzero-some none n e = absurd (ground (arith, e))
nonzero-some (some zero) n e = absurd (ground (arith, e))
nonzero-some (some (suc m)) n e =
    let same : suc m ≡ n = ground (arith, e) in subst (λ x. nonzero (some x) ≡ some x) same refl

pub nonzero-ltb : (x t : ℕ) → nonzero (some x) ≡ some t → ltb t x ≡ false
nonzero-ltb zero t e = absurd (ground (arith, e))
nonzero-ltb (suc x) t e = ground (arith, e)

either_refused :
    (b : Bool) (x y : String) → is_done {A = Identity} (if b then refused x else refused y) ≡ false
unfolding is_done
either_refused true x y = refl
either_refused false x y = refl

module _ (access refresh : Jwt) (hash : String → String) where
  -- An access token that was signed for a time of change before the last one.
  pub authenticate-outdated :
      (s : AuthService) (token : String) (claims : Claims) (user : User) (changed now : ℕ)
      → access.verify token now ≡ some claims
      → nonzero claims.sub ≡ some user.id
      → nonzero claims.password_changed_at ≡ some changed
      → Dict.get user.id s.users ≡ some user
      → changed < changed_at user
      → is_done (authenticate access refresh hash s token now) ≡ false
  unfolding authenticate is_done
  authenticate-outdated s token claims user changed now v sub before there h =
      rw (v, sub, before, there, authenticate)
        (rw (lt→ltb changed (changed_at user) h) (either_refused _ _ _))

  -- The pair that a refresh token is renewed for, if it is not revoked and its user is there.
  renew-done :
      (s : AuthService) (token jti uuid₁ uuid₂ : String) (claims : Claims) (user : User) (now : ℕ)
      → refresh.verify token now ≡ some claims
      → refresh.decode token ≡ some claims
      → nonzero claims.sub ≡ some user.id
      → present claims.jti ≡ some jti
      → is_revoked hash s jti now ≡ false
      → (u : User) → Dict.get user.id s.users ≡ some u
      → renew access refresh hash s token uuid₁ uuid₂ now
        ≡ done (respond access refresh hash u uuid₁ uuid₂ now)
  unfolding renew
  renew-done s token jti uuid₁ uuid₂ claims user now v d sub j fresh u there =
      rw (v, d, sub, j, fresh, there, renew) refl

  -- A token that is signed for a user as it is stored is accepted.
  authenticate-signed :
      (s : AuthService) (user : User) (uuid : String) (now exp : ℕ)
      → access.verify (access.sign (access_claims user uuid) now) now
        ≡ some (record (access_claims user uuid) { exp = some exp })
      → present (some uuid) ≡ some uuid
      → is_revoked hash s uuid now ≡ false
      → nonzero (some user.id) ≡ some user.id
      → Dict.get user.id s.users ≡ some user
      → is_done (authenticate access refresh hash s (access.sign (access_claims user uuid) now) now)
        ≡ true
  unfolding authenticate is_done
  authenticate-signed s user uuid now exp verifies named fresh counted there =
      elim (Option-cases (nonzero (some (changed_at user)))) [
        | inl never ↦ rw (verifies, named, fresh, counted, never, authenticate) refl
        | inr (t, at) ↦
            rw (verifies, named, fresh, counted, at, there, authenticate)
              (rw (nonzero-ltb (changed_at user) t at) refl)
      ]

  -- After a password is reset, an access token from before it is refused, but a refresh token from
  -- before it, if it is not revoked, still gets a new pair, whose access token is accepted: whoever
  -- holds it is not logged out. The access JWT service verifies what it has just signed, and the new
  -- token's UUID is not revoked.
  pub set_password-renews :
      (s : AuthService) (user : User) (old token jti uuid₁ uuid₂ hashed : String)
      (was claims : Claims) (before changed now exp : ℕ)
      → Dict.get user.id s.users ≡ some user
      → access.verify old now ≡ some was
      → nonzero was.sub ≡ some user.id
      → nonzero was.password_changed_at ≡ some before
      → before < changed
      → refresh.verify token now ≡ some claims
      → refresh.decode token ≡ some claims
      → nonzero claims.sub ≡ some user.id
      → present claims.jti ≡ some jti
      → is_revoked hash s jti now ≡ false
      → let u = record user { password_hash = hashed; password_changed_at = some changed } in
        access.verify (access.sign (access_claims u uuid₁) now) now
          ≡ some (record (access_claims u uuid₁) { exp = some exp })
        → present (some uuid₁) ≡ some uuid₁
        → is_revoked hash s uuid₁ now ≡ false
        → let s' = set_password s user.id hashed changed in
          (is_done (authenticate access refresh hash s' old now) ≡ false)
          × ((r : AuthResponse) × (renew access refresh hash s' token uuid₁ uuid₂ now ≡ done r)
              × (is_done (authenticate access refresh hash s' r.access_token now) ≡ true))
  unfolding respond
  set_password-renews s user old token jti uuid₁ uuid₂ hashed was claims before changed now exp
        there v₀ sub₀ at earlier v d sub j valid verifies named fresh =
      let s' = set_password s user.id hashed changed in
      let u : User = record user { password_hash = hashed; password_changed_at = some changed } in
      let there' = set_password-user s user user.id hashed changed there in
      let same = λ (x : String). is_revoked-set_password hash s user.id hashed x changed now in
      (
        authenticate-outdated s' old was u before now v₀ sub₀ at there' earlier,
        (
          respond access refresh hash u uuid₁ uuid₂ now,
          renew-done s' token jti uuid₁ uuid₂ claims user now v d sub j (same jti ∙ valid) u there',
          authenticate-signed s' u uuid₁ now exp verifies named (same uuid₁ ∙ fresh)
              (nonzero-some claims.sub user.id sub) there',
        ),
      )
