-- ===== src/Queries/Paging.antt =====
-- What the pages of an account's transactions are together.
use paysika.Prelude.{ℕ, zero, suc, List, [], ◌++◌}
use paysika.Prelude.Int.{ℤ, pos}
use paysika.Errors.{err, Result, ok}
use paysika.Store.{State, Transaction}
use paysika.Queries.{TransactionPage, Pagination, get_account_transactions}

-- The first pages one after the other.
abbrev pub together : (ℕ → List Transaction) → ℕ → List Transaction
together page zero = []
together page (suc k) = together page k ++ page k

abbrev pub transactions_of : Result TransactionPage → List Transaction
transactions_of (ok page) = page.transactions
transactions_of (err e) = []

module _ (paginate : List Transaction → ℤ → ℤ → Pagination) (account_id : ℕ) (s : State) where
  -- What the answer for page p + 1, of n + 1 rows, has.
  abbrev pub fetched : ℕ → ℕ → List Transaction
  fetched n p =
      transactions_of (get_account_transactions paginate account_id (pos (suc p)) (pos (suc n)) s).0
