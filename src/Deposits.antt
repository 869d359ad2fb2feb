-- ===== src/Deposits.antt =====
-- app/services/deposit_service.py: the two-phase deposit and the direct one.
pub mod Steps
pub mod Ledger
pub mod Direct
pub mod Outcome
pub mod States
pub mod Success
pub mod Committed
pub mod Coherence
pub mod Initiated
pub mod Stale
use paysika.Prelude.{
  ℕ, String, Bool, Option, none, some, List, [], ◌∷◌, ◌==◌, ◌||◌, str_eq, not, first, or_else,
  if◌then◌else◌,
}
use paysika.Prelude.Int.{ℤ, pos, leb_ℤ}
use paysika.Errors.{currency_mismatch, invalid_transaction_state}
use paysika.Domain.Enums.{TransactionType, TransactionStatus, is_pending}
use paysika.Domain.Events.{deposit_initiated, deposit_completed, deposit_failed}
use paysika.Store.{
  Action, Db, Account, Transaction, Metadata, Description, written, of_deposit, no_metadata, pure,
  gets, or_raise, raise_if, match_option, modify_db, ◌>>=◌, ◌>>◌,
}
use paysika.Lock.{lock_accounts}
use paysika.Accounts.{get_account, get_or_create_platform_clearing_account}
use paysika.EventBus.{publish}
use package.paysika.Ledger.{
  find_existing, build_correlation_id, insert_transaction, go_on, add_entries, settle, double_entry,
}

-- `description or f"Deposit {amount} {currency}"`.
abbrev pub describe : String → ℤ → String → Description
describe description amount currency =
    if str_eq description "" then of_deposit amount currency else written description

-- `db.session.get(Transaction, transaction_id)`.
abbrev pub find_transaction : ℕ → Db → Option Transaction
find_transaction transaction_id d = first (λ t. t.id == transaction_id) d.transactions

-- Assignments to the attributes of the row with an id.
abbrev pub update_row : ℕ → (Transaction → Transaction) → Transaction → Transaction
update_row transaction_id f t = if t.id == transaction_id then f t else t

abbrev pub update_rows : ℕ → (Transaction → Transaction) → List Transaction → List Transaction
update_rows transaction_id f [] = []
update_rows transaction_id f (t ∷ ts) =
    update_row transaction_id f t ∷ update_rows transaction_id f ts

unfoldable pub update_transaction : ℕ → (Transaction → Transaction) → Action Unit
update_transaction transaction_id f =
    modify_db (λ d. record d { transactions = update_rows transaction_id f d.transactions })

-- The row of `initiate_deposit`.
abbrev pub pending_row :
    ℕ → ℤ → String → String → Option String → String → String → ℕ → ℕ → Transaction
pending_row account_id amount currency description key provider correlation_id now id = record {
  id = id;
  type = TransactionType.deposit;
  status = TransactionStatus.pending;
  idempotency_key = key;
  correlation_id = correlation_id;
  description = describe description amount currency;
  metadata = some (record {
    account_id = some account_id;
    amount = some amount;
    currency = some currency;
    exchange_rate = none;
  });
  provider_reference = none;
  provider = some provider;
  created_at = now;
}

-- The row of `execute_deposit`.
abbrev pub completed_row : ℤ → String → String → Option String → String → ℕ → ℕ → Transaction
completed_row amount currency description key correlation_id now id = record {
  id = id;
  type = TransactionType.deposit;
  status = TransactionStatus.completed;
  idempotency_key = key;
  correlation_id = correlation_id;
  description = describe description amount currency;
  metadata = none;
  provider_reference = none;
  provider = none;
  created_at = now;
}

module _ (account_id : ℕ) (amount : ℤ) (currency description : String) (key : Option String) where
  pub new_initiate : String → Action Transaction
  new_initiate provider = do
    account ← get_account account_id
    raise_if (not (str_eq account.currency currency)) currency_mismatch
    correlation_id ← build_correlation_id
    now ← gets (λ s. s.context.now)
    inserted ←
        insert_transaction key
          (pending_row account_id amount currency description key provider correlation_id now)
    go_on inserted (λ t. publish (deposit_initiated t.id account_id amount currency) >> pure t)

  pub initiate_deposit : String → Action Transaction
  initiate_deposit provider = do
    raise_if (leb_ℤ amount (pos 0)) currency_mismatch
    found ← gets (λ s. find_existing key s.db)
    match_option found (λ t. pure t) (new_initiate provider)

  -- From the entries of a deposit to its event.
  pub post_deposit : Account → Transaction → Action Transaction
  post_deposit clearing_account txn = do
    add_entries (double_entry clearing_account.id account_id txn.id amount currency)
    settle account_id clearing_account.id currency
        (deposit_completed txn.id account_id amount currency) txn

  pub new_deposit : Action Transaction
  new_deposit = do
    account ← get_account account_id
    raise_if (not (str_eq account.currency currency)) currency_mismatch
    clearing_account ← get_or_create_platform_clearing_account currency
    lock_accounts (account.id ∷ clearing_account.id ∷ [])
    correlation_id ← build_correlation_id
    now ← gets (λ s. s.context.now)
    inserted ←
        insert_transaction key (completed_row amount currency description key correlation_id now)
    go_on inserted (post_deposit clearing_account)

  pub execute_deposit : Action Transaction
  execute_deposit = do
    raise_if (leb_ℤ amount (pos 0)) currency_mismatch
    found ← gets (λ s. find_existing key s.db)
    match_option found (λ t. pure t) new_deposit

abbrev pub meta_of : Transaction → Metadata
meta_of t = or_else t.metadata no_metadata

abbrev pub meta_account : Transaction → ℕ
meta_account t = or_else (meta_of t).account_id 0

abbrev pub meta_amount : Transaction → ℤ
meta_amount t = or_else (meta_of t).amount (pos 0)

abbrev pub meta_currency : Transaction → String
meta_currency t = or_else (meta_of t).currency ""

-- `not account_id or amount <= 0 or not currency`.
abbrev pub is_incomplete : Transaction → Bool
is_incomplete t =
    meta_account t == 0 || leb_ℤ (meta_amount t) (pos 0) || str_eq (meta_currency t) ""

-- The row that the transaction's id has, if it is pending.
unfoldable pub require_pending : ℕ → Action Transaction
require_pending transaction_id = do
  found ← gets (λ s. find_transaction transaction_id s.db)
  txn ← or_raise found invalid_transaction_state
  raise_if (not (is_pending txn.status)) invalid_transaction_state
  pure txn

abbrev pub complete : String → Transaction → Transaction
complete provider_reference t = record t {
  status = TransactionStatus.completed;
  provider_reference = some provider_reference;
}

abbrev pub fail : Transaction → Transaction
fail t = record t { status = TransactionStatus.failed }

-- `confirm_deposit` from the entries on, for a transaction, its account and the clearing account.
pub post_confirmed : String → Transaction → Account → Account → Action Transaction
post_confirmed provider_reference txn account clearing_account = do
  add_entries
      (double_entry clearing_account.id account.id txn.id (meta_amount txn) (meta_currency txn))
  update_transaction txn.id (complete provider_reference)
  settle account.id clearing_account.id (meta_currency txn)
      (deposit_completed txn.id account.id (meta_amount txn) (meta_currency txn))
      (complete provider_reference txn)

pub confirm_pending : String → Transaction → Action Transaction
confirm_pending provider_reference txn = do
  raise_if (is_incomplete txn) invalid_transaction_state
  account ← get_account (meta_account txn)
  clearing_account ← get_or_create_platform_clearing_account (meta_currency txn)
  lock_accounts (account.id ∷ clearing_account.id ∷ [])
  post_confirmed provider_reference txn account clearing_account

pub confirm_deposit : ℕ → String → Action Transaction
confirm_deposit transaction_id provider_reference = do
  txn ← require_pending transaction_id
  confirm_pending provider_reference txn

-- `fail_deposit` for a pending transaction.
pub fail_pending : String → Transaction → Action Transaction
fail_pending reason txn = do
  update_transaction txn.id fail
  publish (deposit_failed txn.id (meta_account txn) (meta_amount txn) (meta_currency txn) reason)
  pure (fail txn)

pub fail_deposit : ℕ → String → Action Transaction
fail_deposit transaction_id reason = do
  txn ← require_pending transaction_id
  fail_pending reason txn
