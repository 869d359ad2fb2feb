-- ===== src/Queries.antt =====
-- app/services/transaction_service.py: a transaction by its id, and the pages of the transactions of
-- an account.
pub mod Listing
pub mod Paging
use paysika.Prelude.{
  ℕ, ◌+◌, ◌*◌, ◌<◌, ◌≤◌, suc, String, Bool, true, false, Option, none, some, List, [], ◌∷◌, ◌==◌,
  ◌&&◌, ◌≡◌, ltb, length, select, any, take, drop, if◌then◌else◌,
}
use paysika.Prelude.Int.{ℤ, pos}
use paysika.Errors.{not_found}
use paysika.Store.{Action, Db, Transaction, LedgerEntry, gets, or_raise, pure, ◌>>=◌, ◌>>◌}
use paysika.Deposits.{find_transaction}

pub get_transaction : ℕ → Action Transaction
get_transaction transaction_id = do
  found ← gets (λ s. find_transaction transaction_id s.db)
  or_raise found not_found

-- `Transaction.id.in_(…)` of the ids that the account's entries have.
abbrev pub has_entry : ℕ → List LedgerEntry → Transaction → Bool
has_entry account_id entries t =
    any (λ e. e.account_id == account_id && e.transaction_id == t.id) entries

-- `order_by(Transaction.created_at.desc())`: where times agree the order is the table's, which SQL
-- leaves open.
pub insert_newest : Transaction → List Transaction → List Transaction
insert_newest t [] = t ∷ []
insert_newest t (u ∷ us) =
    let rest = insert_newest t us in if ltb t.created_at u.created_at then u ∷ rest else t ∷ u ∷ us

pub newest_first : List Transaction → List Transaction
unfolding insert_newest
newest_first [] = []
newest_first (t ∷ ts) = insert_newest t (newest_first ts)

-- The query that is paginated.
pub account_transactions : ℕ → Db → List Transaction
unfolding newest_first
account_transactions account_id d =
    newest_first (select (has_entry account_id d.entries) d.transactions)

-- What flask_sqlalchemy's `paginate` answers.
pub record Pagination : Type 0 where
  pub items : List Transaction
  pub total : ℕ
  pub pages : ℕ

-- What its documentation says of pages from 1 on, of at most 100 rows, which is its `max_per_page`.
pub record IsPaginate (paginate : List Transaction → ℤ → ℤ → Pagination) : Type 0 where
  pub items :
      (rows : List Transaction) (p n : ℕ)
      → n < 100
      → (paginate rows (pos (suc p)) (pos (suc n))).items ≡ take (suc n) (drop (p * suc n) rows)
  pub total :
      (rows : List Transaction) (page per_page : ℤ)
      → (paginate rows page per_page).total ≡ length rows
  pub pages :
      (rows : List Transaction) (page : ℤ) (n : ℕ)
      → n < 100
      → length rows ≤ (paginate rows page (pos (suc n))).pages * suc n

pub record TransactionPage : Type 0 where
  pub transactions : List Transaction
  pub total : ℕ
  pub page : ℤ
  pub per_page : ℤ
  pub pages : ℕ

module _ (paginate : List Transaction → ℤ → ℤ → Pagination) where
  unfoldable pub get_account_transactions : ℕ → ℤ → ℤ → Action TransactionPage
  get_account_transactions account_id page per_page = do
    query ← gets (λ s. account_transactions account_id s.db)
    let pagination = paginate query page per_page
    pure (record {
      transactions = pagination.items;
      total = pagination.total;
      page = page;
      per_page = per_page;
      pages = pagination.pages;
    })
