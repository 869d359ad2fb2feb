-- ===== src/Auth.antt =====
-- app/services/auth_service.py, with `set_password` and `check_password` of app/models/user.py. The
-- hash of werkzeug and the tokens of flask_jwt_extended are parameters.
pub mod Login
pub mod Registration
use paysika.Prelude.{ℕ, String, Bool, Option, some, none, str_eq, first, not, if◌then◌else◌, true}
use paysika.Errors.{conflict, unauthorized}
use paysika.Store.{Action, Db, State, User, pure, gets, or_raise, raise_if, modify, ◌>>=◌, ◌>>◌}
use paysika.Accounts.{exists, add_user, find_user}
use paysika.Api.{committed_now}

-- `generate_password_hash`, `check_password_hash`, `create_access_token` and `create_refresh_token`.
pub record Library : Type 0 where
  pub hash_password : String → String
  pub check_hash : String → String → Bool
  pub access_token : ℕ → String
  pub refresh_token : ℕ → String

pub record Tokens : Type 0 where
  pub access : String
  pub refresh : String

abbrev pub find_username : String → Db → Option User
find_username username d = first (λ u. str_eq u.username username) d.users

abbrev pub find_email : String → Db → Option User
find_email email d = first (λ u. str_eq u.email email) d.users

module _ (library : Library) where
  unfoldable pub register_user : String → String → String → Action User
  register_user username email password = do
    named ← gets (λ s. find_username username s.db)
    raise_if (exists named) conflict
    mailed ← gets (λ s. find_email email s.db)
    raise_if (exists mailed) conflict
    user ← add_user username email (library.hash_password password)
    modify committed_now
    pure user

  pub login_user : String → String → Action Tokens
  login_user username password = do
    found ← gets (λ s. find_username username s.db)
    user ← or_raise found unauthorized
    raise_if (not (library.check_hash user.password_hash password)) unauthorized
    pure (record { access = library.access_token user.id; refresh = library.refresh_token user.id })

  unfoldable pub refresh_access_token : ℕ → Action Tokens
  refresh_access_token user_id =
      pure (record { access = library.access_token user_id; refresh = "" })

-- The identity of a token that the library accepted.
unfoldable pub get_user_by_id : ℕ → Action User
get_user_by_id user_id = do found ← gets (λ s. find_user user_id s.db); or_raise found unauthorized
