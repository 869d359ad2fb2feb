-- ===== src/Auth/Registration.antt =====
-- What a registration changes and commits.
use paysika.Prelude.{String, ◌≡◌, ◌⊎◌, arith}
use paysika.Store.{State, Db, modify, ◌>>=◌}
use paysika.Store.Keeps.{Keeps, keeps_rules}
use paysika.Accounts.{add_user}
use paysika.Accounts.Opening.{
  Extends, ExtendsFrom, IsDescending, Extends-refl, add_user-ExtendsFrom,
}
use paysika.Api.{committed_now}
use paysika.Auth.{Library, register_user}

commit-ExtendsFrom : (d : Db) → Keeps (ExtendsFrom d) (modify committed_now)
unfolding ◌>>=◌
commit-ExtendsFrom d = record { at = λ s h. h }

module _ (library : Library) (username email password : String) where
  register_user-ExtendsFrom :
      (d : Db) → Keeps (ExtendsFrom d) (register_user library username email password)
  unfolding register_user
  register_user-ExtendsFrom d =
      search (keeps_rules, add_user-ExtendsFrom, commit-ExtendsFrom) depth 14

  -- Where account ids are unique, a registration only adds to users, and it raises and commits nothing
  -- or it commits what it leaves.
  pub register_user_commits :
      (s : State)
      → IsDescending s.db.accounts
      → let s' = (register_user library username email password s).1 in
        Extends s.db s'.db × ((s'.committed ≡ s.committed) ⊎ (s'.committed ≡ s'.db))
  unfolding register_user add_user ◌>>=◌
  register_user_commits s h =
      ((register_user-ExtendsFrom s.db).at s (Extends-refl s.db h), ground arith)
