-- ===== src/Auth/Login.antt =====
-- Registration, and the login that follows it.
use text.Mathlib.TextPositions.{eq_refl}
use paysika.Prelude.{==_refl, if◌then◌else◌, ◌≡◌, String, some, arith}
use paysika.Errors.{ok, err, unauthorized}
use paysika.Store.{State, User, ◌>>=◌}
use paysika.Accounts.{find_user, add_user}
use paysika.Auth.{Library, find_username, register_user, login_user}

module _ (library : Library) (username email password : String) (s : State) (u : User)
    (done : (register_user library username email password s).0 ≡ ok u) where
  abbrev after : State
  after = (register_user library username email password s).1

  registered_hash : u.password_hash ≡ library.hash_password password
  unfolding register_user add_user ◌>>=◌
  registered_hash = ground arith

  registered_found : find_username username after.db ≡ some u
  unfolding register_user add_user ◌>>=◌
  registered_found = ground (arith, eq_refl username)

  -- The new user is found under its id.
  pub registered_known : find_user u.id after.db ≡ some u
  unfolding register_user add_user ◌>>=◌
  registered_known = ground (arith, ==_refl u.id)

  -- After a registration that returned, a login under its name with a password that the library
  -- accepts for the hash of the registered one answers the tokens of the new user, any other password
  -- is refused; neither changes anything.
  pub login_user-register :
      (given : String)
      → login_user library username given after ≡ (
        (if library.check_hash (library.hash_password password) given
            then ok (record {
              access = library.access_token u.id;
              refresh = library.refresh_token u.id;
            })
            else err unauthorized),
        after,
      )
  unfolding login_user ◌>>=◌
  login_user-register given = ground (arith, registered_found, registered_hash)
