-- ===== src/Auth/Profile/Unique.antt =====
-- No two users have the same email address or the same name.
use xstream_roll.Shared.{
  ℕ, ◌≡◌, ◌≢◌, refl, ◌∙◌, inl, inr, String, Bool, false, ◌&&◌, Option, none, some, List, [], ◌∷◌,
  All, arith, is_some, Option-cases, Bool-cases, ◌==◌, eq_iff, same_number_iff, number_key,
  string_key,
}
use xstream_roll.Shared.Dict
use xstream_roll.Shared.Dict.{Dict}
use xstream_roll.Auth.{
  User, Jwt, AuthService, find_by, set_password, revoke, register, login, revoke_token,
}
use xstream_roll.Auth
use xstream_roll.Auth.Profile.{
  UpdateProfileDto, changes, is_text, column, set_columns, find_by_email, find_by_username, reissue,
  update_profile, change_password, Call, calls, updates, changes_password, step, run,
}

-- No two users have the same text at `f`.
abbrev pub AreUnique : (User → String) → Dict ℕ User → Type 0
AreUnique f m =
    (i j : ℕ) (u v : User) → Dict.get i m ≡ some u → Dict.get j m ≡ some v → f u ≡ f v → i ≡ j

abbrev pub AreNamed : AuthService → Type 0
AreNamed s = AreUnique (λ u. u.email) s.users × AreUnique (λ u. u.username) s.users

-- An update gives no empty text, which the validation of the request refuses.
abbrev pub IsValid : Call → Type 0
IsValid (calls c) = Unit
IsValid (updates user_id dto bearer uuid now) = (dto.email ≢ some "") × (dto.username ≢ some "")
IsValid (changes_password user_id current hashed bearer uuid now) = Unit

find_by-none :
    (m : Dict ℕ User) (p : User → Bool) (i : ℕ) (u : User)
    → find_by p m ≡ none
    → Dict.get i m ≡ some u
    → p u ≡ false
unfolding find_by Dict.get
find_by-none [] p i u h e = absurd (ground (arith, e))
find_by-none ((k, v) ∷ m) p i u h e = ground (arith, find_by-none m p i u)

is_text-none :
    (f : User → String) (m : Dict ℕ User) (new : String) (i : ℕ) (u : User)
    → is_some (find_by (λ x. is_text (some new) (f x)) m) ≡ false
    → Dict.get i m ≡ some u
    → f u ≢ new
unfolding is_text
is_text-none f m new i u h e = elim (Option-cases (find_by (λ x. f x == new) m)) [
  | inl nobody ↦ ground (arith, find_by-none m (λ x. f x == new) i u nobody e, eq_iff (f u) new)
  | inr (v, found) ↦ absurd (ground (arith, h, found))
]

set-AreUnique :
    (f : User → String) (m : Dict ℕ User) (k : ℕ) (x : User)
    → AreUnique f m
    → ((j : ℕ) (v : User) → Dict.get j m ≡ some v → f v ≡ f x → j ≡ k)
    → AreUnique f (Dict.set k x m)
set-AreUnique f m k x unique only i j u v e₁ e₂ same = ground (
  arith,
  Dict.get-set i k x m,
  Dict.get-set j k x m,
  same_number_iff i k,
  same_number_iff j k,
  unique i j u v,
  only i u,
  only j v,
)

-- A text that is set is free, or was the user's own.
column-AreUnique :
    (f : User → String) (m : Dict ℕ User) (k : ℕ) (user x : User) (new : Option String)
    → AreUnique f m
    → Dict.get k m ≡ some user
    → new ≢ some ""
    → (changes new (f user) && is_some (find_by (λ u. is_text new (f u)) m)) ≡ false
    → f x ≡ column new (f user)
    → AreUnique f (Dict.set k x m)
unfolding changes
column-AreUnique f m k user x none unique e filled free same =
    set-AreUnique f m k x unique λ j v there eq. unique j k v user there e (eq ∙ same)
column-AreUnique f m k user x (some new) unique e filled free same =
    set-AreUnique f m k x unique λ j v there eq. elim (Bool-cases (new == f user)) [
      | inl own ↦ unique j k v user there e (ground (arith, eq, same, own, eq_iff new (f user)))
      | inr other ↦
          let nobody : is_some (find_by (λ u. is_text (some new) (f u)) m) ≡ false =
            ground (arith, free, other, filled, eq_iff new "") in
          absurd (is_text-none f m new j v nobody there (eq ∙ same))
    ]

same-AreUnique :
    (f : User → String) (m : Dict ℕ User) (k : ℕ) (user x : User)
    → AreUnique f m
    → Dict.get k m ≡ some user
    → f x ≡ f user
    → AreUnique f (Dict.set k x m)
same-AreUnique f m k user x unique e same =
    set-AreUnique f m k x unique λ j v there eq. unique j k v user there e (eq ∙ same)

set_password-AreNamed :
    (s : AuthService) (k : ℕ) (hashed : String) (now : ℕ)
    → AreNamed s
    → AreNamed (set_password s k hashed now)
unfolding set_password
set_password-AreNamed s k hashed now (emails, names) = elim (Option-cases (Dict.get k s.users)) [
  | inl e ↦ rw (e, set_password) (emails, names)
  | inr (user, e) ↦
      let x : User = record user { password_hash = hashed; password_changed_at = some now } in
      rw (e, set_password)
        (
          same-AreUnique (λ u. u.email) s.users k user x emails e refl,
          same-AreUnique (λ u. u.username) s.users k user x names e refl,
        )
]

module _ (access refresh : Jwt) (hash : String → String) where
  register-AreNamed :
      (s : AuthService) (username email hashed uuid₁ uuid₂ : String) (now : ℕ)
      → AreNamed s
      → AreNamed (register access refresh hash s username email hashed uuid₁ uuid₂ now).1
  unfolding register
  register-AreNamed s username email hashed uuid₁ uuid₂ now (emails, names) =
      elim (Option-cases (find_by (λ u. u.email == email) s.users)) [
        | inr (u, e) ↦ rw (register, e) (emails, names)
        | inl free ↦ elim (Option-cases (find_by (λ u. u.username == username) s.users)) [
          | inr (u, e) ↦ rw (register, free, e) (emails, names)
          | inl free_name ↦
              rw (register, free, free_name)
                (
                  set-AreUnique (λ u. u.email) s.users s.next_id _ emails
                      λ j v there eq. absurd (
                        ground (
                          arith,
                          eq_iff v.email email,
                          eq,
                          find_by-none s.users (λ u. u.email == email) j v free there,
                        )),
                  set-AreUnique (λ u. u.username) s.users s.next_id _ names
                      λ j v there eq. absurd (
                        ground (
                          arith,
                          eq_iff v.username username,
                          eq,
                          find_by-none s.users (λ u. u.username == username) j v free_name there,
                        )),
                )
        ]
      ]

  login-users :
      (compare : String → String → Bool) (s : AuthService) (email password uuid₁ uuid₂ : String)
      (now : ℕ)
      → (login access refresh hash compare s email password uuid₁ uuid₂ now).1.users ≡ s.users
  unfolding login
  login-users compare s email password uuid₁ uuid₂ now = ground arith

  module _ (lasts : ℕ → ℕ → ℕ) where
    pub reissue-users :
        (s : AuthService) (user : User) (bearer : Option String) (uuid : String) (now : ℕ)
        → (reissue access refresh hash lasts s user bearer uuid now).1.users ≡ s.users
    unfolding reissue revoke_token revoke
    reissue-users s user bearer uuid now = ground arith

    update_profile-AreNamed :
        (s : AuthService) (k : ℕ) (dto : UpdateProfileDto) (bearer : Option String) (uuid : String)
        (now : ℕ)
        → AreNamed s
        → dto.email ≢ some ""
        → dto.username ≢ some ""
        → AreNamed (update_profile access refresh hash lasts s k dto bearer uuid now).1
    unfolding update_profile set_columns find_by_email find_by_username
    update_profile-AreNamed s k dto bearer uuid now (emails, names) email username =
        elim (Option-cases (Dict.get k s.users)) [
          | inl e ↦ rw (update_profile, e) (emails, names)
          | inr (user, e) ↦
              let taken = changes dto.email user.email && is_some (find_by_email dto.email s) in
              let in_use =
                changes dto.username user.username && is_some (find_by_username dto.username s) in
              elim (Bool-cases taken) [
                | inl h ↦ rw (update_profile, e, h) (emails, names)
                | inr free ↦ elim (Bool-cases in_use) [
                  | inl h ↦ rw (update_profile, e, free, h) (emails, names)
                  | inr free_name ↦
                      let x = set_columns user dto in
                      let named : AreNamed (record s { users = Dict.set k x s.users }) = (
                        column-AreUnique (λ u. u.email) s.users k user x dto.email emails e email
                            free refl,
                        column-AreUnique (λ u. u.username) s.users k user x dto.username names e
                            username free_name refl,
                      ) in
                      let s' : AuthService = record s { users = Dict.set k x s.users } in
                      elim (Bool-cases (changes dto.email user.email)) [
                        | inl changed ↦
                            rw (update_profile, e, free, free_name, changed)
                              (rw (reissue-users s' x bearer uuid now) named)
                        | inr kept ↦ rw (update_profile, e, free, free_name, kept) named
                      ]
                ]
              ]
        ]

    change_password-AreNamed :
        (compare : String → String → Bool) (s : AuthService) (k : ℕ) (current hashed : String)
        (bearer : Option String) (uuid : String) (now : ℕ)
        → AreNamed s
        → AreNamed
            (change_password access refresh hash lasts compare s k current hashed bearer uuid now).1
    unfolding change_password
    change_password-AreNamed compare s k current hashed bearer uuid now named =
        elim (Option-cases (Dict.get k s.users)) [
          | inl e ↦ rw (change_password, e) named
          | inr (user, e) ↦ elim (Bool-cases (compare current user.password_hash)) [
            | inr wrong ↦ rw (change_password, e, wrong) named
            | inl right ↦
                rw (change_password, e, right)
                  (rw (reissue-users (set_password s k hashed now) _ bearer uuid now)
                    (set_password-AreNamed s k hashed now named))
          ]
        ]

    step-AreNamed :
        (compare : String → String → Bool) (s : AuthService) (c : Call)
        → AreNamed s
        → IsValid c
        → AreNamed (step access refresh hash lasts compare s c)
    unfolding step Auth.step
    step-AreNamed compare s (calls (Auth.registers username email hashed uuid₁ uuid₂ now)) named v =
        register-AreNamed s username email hashed uuid₁ uuid₂ now named
    step-AreNamed compare s (calls (Auth.logins email password uuid₁ uuid₂ now)) named v =
        rw (login-users compare s email password uuid₁ uuid₂ now) named
    step-AreNamed compare s (calls (Auth.sets_password k hashed now)) named v =
        set_password-AreNamed s k hashed now named
    step-AreNamed compare s (updates k dto bearer uuid now) named (email, username) =
        update_profile-AreNamed s k dto bearer uuid now named email username
    step-AreNamed compare s (changes_password k current hashed bearer uuid now) named v =
        change_password-AreNamed compare s k current hashed bearer uuid now named

    -- Whatever is registered, logged in, updated or changed of passwords, in whatever order but each
    -- call only after the one before it is over, no two users have the same email address or the same
    -- name, if none have at first and no update sets an empty text. Calls that overlap may both find a
    -- text free; of those only the unique indexes of the table refuse one.
    pub run-AreNamed :
        (compare : String → String → Bool) (cs : List Call) (s : AuthService)
        → AreNamed s
        → All IsValid cs
        → AreNamed (run access refresh hash lasts compare s cs)
    unfolding run
    run-AreNamed compare [] s named v = named
    run-AreNamed compare (c ∷ cs) s named (v, vs) =
        run-AreNamed compare cs _ (step-AreNamed compare s c named v) vs
