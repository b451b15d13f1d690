-- ===== src/Auth/Profile/Reissue.antt =====
-- What a change of password does to the tokens, and what a refused call of the profile leaves.
use xstream_roll.Shared.{
  ℕ, ◌<◌, ◌≡◌, ◌≢◌, refl, ap, ◌∙◌, inl, inr, String, Bool, true, false, Option, none, some, arith,
  Option-cases, number_key, string_key,
}
use xstream_roll.Shared.Dict
use xstream_roll.Shared.Dict.{Dict}
use xstream_roll.Auth.{
  User, Claims, Jwt, AuthService, done, refused, is_done, present, nonzero, changed_at, jti_of,
  set_password, is_revoked, revoke, revoke_token, authenticate,
}
use xstream_roll.Auth.Logout.{IsToken, is_revoked-kept, authenticate-revoked}
use xstream_roll.Auth.Renewal.{set_password-user, nonzero-ltb, authenticate-outdated}
use xstream_roll.Auth.Profile.{
  UpdateProfileDto, to_safe_user, profile_claims, ttl_seconds, reissue, update_profile,
  change_password,
}
use xstream_roll.Auth.Profile.Unique.{reissue-users}

module _ (access refresh : Jwt) (hash : String → String) (lasts : ℕ → ℕ → ℕ) where
  revoke_token-done :
      (c : Option Claims) (jti : String) (s : AuthService) (now : ℕ)
      → jti_of c ≡ some jti
      → revoke_token access refresh hash lasts c ttl_seconds s now
        ≡ (done tt, revoke hash lasts s jti ttl_seconds now)
  unfolding revoke_token
  revoke_token-done c jti s now e = rw (revoke_token, e) refl

  reissue-done :
      (s : AuthService) (user : User) (token jti uuid : String) (now : ℕ)
      → jti_of (access.decode token) ≡ some jti
      → reissue access refresh hash lasts s user (some token) uuid now ≡ (
        done (record {
          user = to_safe_user user;
          access_token = some (access.sign (profile_claims user uuid) now);
        }),
        revoke hash lasts s jti ttl_seconds now,
      )
  unfolding reissue
  reissue-done s user token jti uuid now e =
      let revoked = revoke_token-done (access.decode token) jti s now e in
      rw (reissue, revoked) (rw revoked refl)

  change_password-done :
      (compare : String → String → Bool) (s : AuthService) (user : User)
      (current hashed token jti uuid : String) (now : ℕ)
      → Dict.get user.id s.users ≡ some user
      → compare current user.password_hash ≡ true
      → jti_of (access.decode token) ≡ some jti
      → let u : User = record user { password_hash = hashed; password_changed_at = some now } in
        change_password access refresh hash lasts compare s user.id current hashed
          (some token)
          uuid
          now
        ≡ (
          done (record {
            user = to_safe_user u;
            access_token = some (access.sign (profile_claims u uuid) now);
          }),
          revoke hash lasts (set_password s user.id hashed now) jti ttl_seconds now,
        )
  unfolding change_password
  change_password-done compare s user current hashed token jti uuid now there right e =
      let u : User = record user { password_hash = hashed; password_changed_at = some now } in
      rw (change_password, there, right)
        (reissue-done (set_password s user.id hashed now) u token jti uuid now e)

  -- A token that is signed for a user as it is stored is accepted, with no right of an admin.
  authenticate-reissued :
      (s : AuthService) (user : User) (uuid : String) (now later exp : ℕ)
      → access.verify (access.sign (profile_claims user uuid) now) later
        ≡ some (record (profile_claims user uuid) { exp = some exp })
      → present (some uuid) ≡ some uuid
      → is_revoked hash s uuid later ≡ false
      → nonzero (some user.id) ≡ some user.id
      → Dict.get user.id s.users ≡ some user
      → authenticate access refresh hash s (access.sign (profile_claims user uuid) now) later
        ≡ done (record { user_id = user.id; is_admin = false })
  unfolding authenticate
  authenticate-reissued s user uuid now later exp verifies named fresh counted there =
      elim (Option-cases (nonzero (some (changed_at user)))) [
        | inl never ↦ rw (authenticate, verifies, named, fresh, counted, never) refl
        | inr (t, at) ↦
            rw (authenticate, verifies, named, fresh, counted, at, there)
              (rw (nonzero-ltb (changed_at user) t at) refl)
      ]

  revoke-denylist :
      (s : AuthService) (user_id : ℕ) (hashed jti : String) (now : ℕ)
      → (revoke hash lasts (set_password s user_id hashed now) jti ttl_seconds now).denylist
        ≡ Dict.set (hash jti) (lasts now ttl_seconds) s.denylist
  unfolding revoke set_password
  revoke-denylist s user_id hashed jti now = elim (Option-cases (Dict.get user_id s.users)) [
    | inl e ↦ rw (revoke, set_password, e) refl
    | inr (user, e) ↦ rw (revoke, set_password, e) refl
  ]

  revoke-users :
      (s : AuthService) (jti : String) (now : ℕ)
      → (revoke hash lasts s jti ttl_seconds now).users ≡ s.users
  unfolding revoke
  revoke-users s jti now = refl

  is_revoked-other :
      (s s' : AuthService) (jti uuid : String) (now later : ℕ)
      → s'.denylist ≡ Dict.set (hash jti) (lasts now ttl_seconds) s.denylist
      → hash jti ≢ hash uuid
      → is_revoked hash s' uuid later ≡ is_revoked hash s uuid later
  unfolding is_revoked
  is_revoked-other s s' jti uuid now later e ne =
      let same =
        ap (λ m. Dict.get (hash uuid) m) e
        ∙ Dict.get-set_ne (hash uuid) (hash jti) (lasts now ttl_seconds) s.denylist ne in
      rw (is_revoked, same) refl

  -- A right change of password gives a new access token. As long as the cache keeps what it was given
  -- for an hour, the token that it was called with is refused. Each of that user's tokens that was signed
  -- for an earlier time of change is refused, while the new token is accepted as that user's, and never
  -- as an admin's, whether or not the user is one. The JWT service verifies the new token and gives the
  -- other one the same payload however it is looked at, and the new token's UUID is not revoked and does
  -- not hash to the same key.
  pub change_password-reissues :
      (compare : String → String → Bool) (s : AuthService) (user : User)
      (current hashed token jti old uuid : String) (claims was : Claims)
      (before now later exp ends : ℕ)
      → Dict.get user.id s.users ≡ some user
      → compare current user.password_hash ≡ true
      → IsToken access token claims jti exp
      → let u : User = record user { password_hash = hashed; password_changed_at = some now } in
        let new = access.sign (profile_claims u uuid) now in
        access.verify new later ≡ some (record (profile_claims u uuid) { exp = some ends })
        → present (some uuid) ≡ some uuid
        → hash jti ≢ hash uuid
        → is_revoked hash s uuid later ≡ false
        → nonzero (some user.id) ≡ some user.id
        → access.verify old later ≡ some was
        → nonzero was.sub ≡ some user.id
        → nonzero was.password_changed_at ≡ some before
        → before < now
        → later < lasts now ttl_seconds
        → let (answer, s') =
            change_password access refresh hash lasts compare s user.id current hashed
              (some token)
              uuid
              now in
          (answer ≡ done (record { user = to_safe_user u; access_token = some new }))
          × (is_done (authenticate access refresh hash s' token later) ≡ false)
          × (is_done (authenticate access refresh hash s' old later) ≡ false)
          × (authenticate access refresh hash s' new later
              ≡ done (record { user_id = user.id; is_admin = false }))
  change_password-reissues compare s user current hashed token jti old uuid claims was before now
        later exp ends there right t verifies named ne fresh counted v sub at earlier in_time =
      let u : User = record user { password_hash = hashed; password_changed_at = some now } in
      let s₁ = set_password s user.id hashed now in
      let s' = revoke hash lasts s₁ jti ttl_seconds now in
      let named_token : jti_of (access.decode token) ≡ some jti = rw t.0 t.1 in
      let outcome =
        change_password-done compare s user current hashed token jti uuid now there right
          named_token in
      let denied = revoke-denylist s user.id hashed jti now in
      let stored : Dict.get user.id s'.users ≡ some u =
        rw (revoke-users s₁ jti now) (set_password-user s user user.id hashed now there) in
      let until : Dict.get (hash jti) s'.denylist ≡ some (lasts now ttl_seconds) =
        rw denied (Dict.get-set_self (hash jti) (lasts now ttl_seconds) s.denylist) in
      let revoked = is_revoked-kept hash s' jti later (lasts now ttl_seconds) until in_time in
      rw outcome (
        refl,
        authenticate-revoked access refresh hash compare s' token jti claims exp later t revoked,
        authenticate-outdated access refresh hash s' old was u before later v sub at stored earlier,
        authenticate-reissued s' u uuid now later ends verifies named
            (is_revoked-other s s' jti uuid now later denied ne ∙ fresh) counted stored,
      )

  -- Where the token that the call comes with has an id, a profile that is not updated and a password
  -- that is not changed leave the service as it was.
  pub refused_unchanged :
      (compare : String → String → Bool) (s : AuthService) (user_id : ℕ) (dto : UpdateProfileDto)
      (current hashed token jti uuid : String) (now : ℕ)
      → jti_of (access.decode token) ≡ some jti
      → let (updated, s₁) =
          update_profile access refresh hash lasts s user_id dto (some token) uuid now in
        let (changed, s₂) =
          change_password access refresh hash lasts compare s user_id current hashed
            (some token)
            uuid
            now in
        (is_done updated ≡ false → s₁ ≡ s) × (is_done changed ≡ false → s₂ ≡ s)
  unfolding update_profile change_password is_done
  refused_unchanged compare s user_id dto current hashed token jti uuid now e =
      ground (arith, λ (x : AuthService) (u : User). reissue-done x u token jti uuid now e)

  -- Where the token that a right change of password comes with has no id, the call is refused, and
  -- the password is changed all the same.
  pub unidentified_changed :
      (compare : String → String → Bool) (s : AuthService) (user : User)
      (current hashed token uuid : String) (now : ℕ)
      → jti_of (access.decode token) ≡ none
      → Dict.get user.id s.users ≡ some user
      → compare current user.password_hash ≡ true
      → let (answer, s') =
          change_password access refresh hash lasts compare s user.id current hashed
            (some token)
            uuid
            now in
        (answer ≡ refused "token has no jti claim and cannot be revoked")
        × (Dict.get user.id s'.users
            ≡ some (record user { password_hash = hashed; password_changed_at = some now }))
  unfolding change_password reissue revoke_token
  unidentified_changed compare s user current hashed token uuid now e there right =
      let u : User = record user { password_hash = hashed; password_changed_at = some now } in
      let s' = set_password s user.id hashed now in
      rw (change_password, there, right)
        (
          rw (reissue, revoke_token, e) refl,
          rw (reissue-users access refresh hash lasts s' u (some token) uuid now)
              (set_password-user s user user.id hashed now there),
        )
