-- ===== src/Api/Accounts.antt =====
-- app/api/v1/accounts.py: the endpoints of accounts, behind the token and the schema checks.
pub mod Access
use paysika.Prelude.{
  ℕ, String, Bool, false, Option, none, some, List, [], ◌∷◌, ◌==◌, not, select, or_else,
  if◌then◌else◌,
}
use paysika.Prelude.Int.{ℤ, pos, leb_ℤ}
use paysika.Store.{Action, Account, Transaction, LedgerEntry, Db, pure, gets, modify, ◌>>=◌, ◌>>◌}
use paysika.Accounts.{get_user_accounts}
use paysika.Accounts as Service
use paysika.Balance as Balances
use paysika.Queries.{Pagination, TransactionPage}
use paysika.Queries as Queries
use paysika.Api.{committed_now}

-- `TransactionResponse`: the transaction with its entries, whose `created_at` is left out.
pub record TransactionView : Type 0 where
  pub transaction : Transaction
  pub entries : List LedgerEntry

-- The JSON bodies of these endpoints.
pub data AccountBody : Type 0 where
  account_body : Account → AccountBody
  accounts_body : List Account → AccountBody
  balance_body : ℕ → String → ℤ → AccountBody
  transactions_body : List TransactionView → ℕ → ℤ → ℤ → ℕ → AccountBody
  error_body : String → AccountBody

-- The status and the body.
abbrev pub Answer : Type 0
Answer = ℕ × AccountBody

pub record AccountCreate : Type 0 where
  pub currency : String
  pub name : String

pub create_account : ℕ → AccountCreate → Action Answer
create_account user_id request = do
  account ← Service.create_account user_id request.currency request.name
  modify committed_now
  pure (201, account_body account)

pub list_accounts : ℕ → Action Answer
list_accounts user_id = do accounts ← get_user_accounts user_id; pure (200, accounts_body accounts)

-- `account.user_id != user_id`.
abbrev pub forbidden_answer : Answer
forbidden_answer = (403, error_body "Forbidden")

pub get_balance : ℕ → ℕ → Action Answer
get_balance user_id account_id = do
  account ← Service.get_account account_id
  if not (account.user_id == user_id) then pure forbidden_answer else do
    balance ← Balances.get_balance account_id account.currency false false
    pure (200, balance_body account_id account.currency balance.amount)

-- `txn.entries`.
abbrev pub entries_of : Db → Transaction → List LedgerEntry
entries_of d t = select (λ e. e.transaction_id == t.id) d.entries

pub view : Db → List Transaction → List TransactionView
view d [] = []
view d (t ∷ ts) = record { transaction = t; entries = entries_of d t } ∷ view d ts

-- The smaller of two.
abbrev pub min_ℤ : ℤ → ℤ → ℤ
min_ℤ a b = if leb_ℤ a b then a else b

-- `paginate` is the library's, and the two numbers are ITEMS_PER_PAGE and MAX_PER_PAGE. A query
-- argument is none where it is missing or no integer.
module _ (paginate : List Transaction → ℤ → ℤ → Pagination) (items_per_page max_per_page : ℤ) where
  pub page_answer : TransactionPage → Action Answer
  unfolding view
  page_answer r = do
    d ← gets (λ s. s.db)
    pure (200, transactions_body (view d r.transactions) r.total r.page r.per_page r.pages)

  pub get_account_transactions : ℕ → ℕ → Option ℤ → Option ℤ → Action Answer
  unfolding page_answer
  get_account_transactions user_id account_id page per_page = do
    account ← Service.get_account account_id
    if not (account.user_id == user_id)
        then pure forbidden_answer
        else Queries.get_account_transactions paginate account_id (or_else page (pos 1))
            (min_ℤ (or_else per_page items_per_page) max_per_page)
          >>= page_answer
