-- ===== src/Api/Users.antt =====
-- app/api/v1/auth.py: the endpoints of users, behind the token and the schema checks. The identity of a
-- request is the one of a token that the library has accepted.
use paysika.Prelude.{sym, inl, inr, ℕ, String, true, ◌≡◌, arith}
use paysika.Errors.{err, Error, Result-cases, ok}
use paysika.Store.{Action, State, User, pure, ◌>>=◌}
use paysika.Schemas.{ValidUser}
use paysika.Auth.{Library, register_user, login_user, refresh_access_token, get_user_by_id}
use paysika.Auth.Login.{login_user-register, registered_known}

-- The JSON bodies: a user without the password hash, the tokens, the access token.
pub data UserBody : Type 0 where
  user_body : ℕ → String → String → UserBody
  tokens_body : String → String → UserBody
  access_body : String → UserBody

abbrev pub UserAnswer : Type 0
UserAnswer = ℕ × UserBody

-- `UserResponse`, less its time.
abbrev pub user_response : User → UserBody
user_response u = user_body u.id u.username u.email

module _ (library : Library) where
  unfoldable pub register : ValidUser → Action UserAnswer
  register request = do
    user ← register_user library request.username request.email request.password
    pure (201, user_response user)

  -- The fields of `UserLogin`.
  pub login : String → String → Action UserAnswer
  login username password = do
    tokens ← login_user library username password
    pure (200, tokens_body tokens.access tokens.refresh)

  pub refresh : ℕ → Action UserAnswer
  refresh identity = do
    tokens ← refresh_access_token library identity
    pure (200, access_body tokens.access)

pub me : ℕ → Action UserAnswer
me identity = do user ← get_user_by_id identity; pure (200, user_response user)

module _ (library : Library) (request : ValidUser) (s : State) where
  abbrev registration : Action User
  registration = register_user library request.username request.email request.password

  answers :
      (u : User)
      → (registration s).0 ≡ ok u
      → register library request s ≡ (ok (201, user_response u), (registration s).1)
  unfolding register ◌>>=◌
  answers u done = ground arith

  refuses : (e : Error) → (registration s).0 ≡ err e → (register library request s).0 ≡ err e
  unfolding register ◌>>=◌
  refuses e failed = ground arith

  logged_in :
      (u : User) (given : String)
      → (registration s).0 ≡ ok u
      → library.check_hash (library.hash_password request.password) given ≡ true
      → login library request.username given (registration s).1 ≡ (
        ok (200, tokens_body (library.access_token u.id) (library.refresh_token u.id)),
        (registration s).1,
      )
  unfolding login ◌>>=◌
  logged_in u given done accepted = ground (
    arith,
    login_user-register library request.username request.email request.password s u done given,
  )

  known :
      (u : User)
      → (registration s).0 ≡ ok u
      → me u.id (registration s).1 ≡ (ok (200, user_response u), (registration s).1)
  unfolding me get_user_by_id ◌>>=◌
  known u done =
      ground
        (arith, registered_known library request.username request.email request.password s u done)

  -- After a registration that is answered 201, a login under its name with a password that the library
  -- accepts for the hash of the registered one is answered with the tokens of an identity for which
  -- `me` answers what the registration did; and neither changes anything.
  pub me_registered :
      (body : UserBody) (given : String)
      → (register library request s).0 ≡ ok (201, body)
      → library.check_hash (library.hash_password request.password) given ≡ true
      → let s' = (register library request s).1 in
        (id : ℕ) × (login library request.username given s'
          ≡ (ok (200, tokens_body (library.access_token id) (library.refresh_token id)), s'))
        × (me id s' ≡ (ok (200, body), s'))
  me_registered body given done accepted = elim (Result-cases (registration s).0) [
    | inr (e, failed) ↦ absurd (ground (arith, refuses e failed))
    | inl (u, returned) ↦
        let e = answers u returned in
        let same : user_response u ≡ body = ground (arith, e) in
        rw (e, sym same) (u.id, logged_in u given returned accepted, known u returned)
  ]
