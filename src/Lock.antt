-- ===== src/Lock.antt =====
-- app/services/lock.py: row locks, taken in ascending order of the account ids.
pub mod Order
pub mod Quiet
use paysika.Prelude.{ℕ, List, [], ◌∷◌, leb, if◌then◌else◌}
use paysika.Store.{Action, pure, gets, match_option, ◌>>=◌, ◌>>◌, take_lock, account_row}
use paysika.Accounts.{find_account}

insert : ℕ → List ℕ → List ℕ
insert x [] = x ∷ []
insert x (y ∷ ys) = if leb x y then x ∷ y ∷ ys else y ∷ insert x ys

-- `sorted(account_ids)`.
pub sorted : List ℕ → List ℕ
unfolding insert
sorted [] = []
sorted (x ∷ xs) = insert x (sorted xs)

-- One `SELECT … FOR UPDATE`, which locks the row of the account if there is one. A database that refuses
-- the clause raises `OperationalError`, which is logged and skipped: `take_lock` then takes no lock.
pub lock_row : ℕ → Action Unit
lock_row aid = do
  found ← gets (λ s. find_account aid s.db)
  match_option found (λ account. take_lock (account_row aid)) (pure tt)

pub lock_rows : List ℕ → Action Unit
unfolding lock_row
lock_rows [] = pure tt
lock_rows (aid ∷ aids) = lock_row aid >> lock_rows aids

pub lock_accounts : List ℕ → Action Unit
lock_accounts account_ids = lock_rows (sorted account_ids)
