-- ===== src/Transfers.antt =====
-- app/services/transfer_service.py.
pub mod Steps
pub mod Outcome
pub mod Ledger
pub mod Success
pub mod Refusals
pub mod Committed
pub mod Coherence
pub mod Outage
use paysika.Prelude.{
  ℕ, String, Bool, true, false, Option, none, some, List, [], ◌∷◌, ◌==◌, str_eq, not, if◌then◌else◌,
}
use paysika.Prelude.Int.{ℤ, pos, leb_ℤ}
use paysika.Errors.{account_not_found, currency_mismatch, insufficient_funds}
use paysika.Domain.Enums.{TransactionType, TransactionStatus}
use paysika.Domain.Money.{make, less, decimal, code}
use paysika.Domain.Events.{transfer_completed}
use paysika.Store.{
  Action, Transaction, written, pure, lift, gets, or_raise, raise_if, match_option, ◌>>=◌, ◌>>◌,
}
use paysika.Lock.{lock_accounts}
use paysika.Accounts.{find_account}
use paysika.EventBus.{publish}
use paysika.Balance.{get_balance, refresh_balance_cache, maybe_create_snapshot}
use package.paysika.Ledger.{
  find_existing, build_correlation_id, insert_transaction, go_on, add_entries, settle, double_entry,
}

-- The row that the transfer inserts.
abbrev pub transfer_row : Option String → String → String → ℕ → ℕ → Transaction
transfer_row key correlation_id description now id = record {
  id = id;
  type = TransactionType.transfer;
  status = TransactionStatus.completed;
  idempotency_key = key;
  correlation_id = correlation_id;
  description = written description;
  metadata = none;
  provider_reference = none;
  provider = none;
  created_at = now;
}

module _ (source_account_id target_account_id : ℕ) (amount : ℤ) (currency : String) where
  -- From the entries to the event.
  pub post_transfer : Transaction → Action Transaction
  post_transfer txn = do
    add_entries (double_entry source_account_id target_account_id txn.id amount currency)
    settle source_account_id target_account_id currency
        (transfer_completed txn.id source_account_id target_account_id amount currency) txn

  -- The accounts, their currencies and the funds, under the locks.
  pub check_transfer : Action Unit
  check_transfer = do
    lock_accounts (source_account_id ∷ target_account_id ∷ [])
    d ← gets (λ s. s.db)
    source ← or_raise (find_account source_account_id d) account_not_found
    target ← or_raise (find_account target_account_id d) account_not_found
    raise_if (not (str_eq source.currency currency)) currency_mismatch
    raise_if (not (str_eq target.currency currency)) currency_mismatch
    balance ← get_balance source_account_id currency true false
    required ← lift (make (decimal amount) (code currency))
    short ← lift (less balance required)
    raise_if short insufficient_funds

  -- What runs when no transaction has the key yet.
  pub new_transfer : String → Option String → Action Transaction
  new_transfer description key = do
    check_transfer
    correlation_id ← build_correlation_id
    now ← gets (λ s. s.context.now)
    inserted ← insert_transaction key (transfer_row key correlation_id description now)
    go_on inserted post_transfer

  pub execute_transfer : String → Option String → Action Transaction
  execute_transfer description key = do
    raise_if (source_account_id == target_account_id) currency_mismatch
    raise_if (leb_ℤ amount (pos 0)) currency_mismatch
    found ← gets (λ s. find_existing key s.db)
    match_option found (λ t. pure t) (new_transfer description key)
