-- ===== src/Ledger.antt =====
-- The steps that the money-moving services share (app/services/transfer_service.py,
-- deposit_service.py and fx_service.py): the lookup by idempotency key, the insertion of a
-- transaction under its unique key, and the insertion of its entries.
pub mod Sums
pub mod Effects
pub mod Committed
pub mod Coherence
pub mod Outage
pub mod Invariant
use paysika.Prelude.{
  ℕ, String, Bool, false, Option, none, some, List, [], ◌∷◌, str_eq, first, or_else, not,
  if◌then◌else◌,
}
use paysika.Prelude.Int.{ℤ, neg}
use paysika.Errors.{ok, integrity_error}
use paysika.Domain.Enums.{EntryType, EntryStatus, debit, credit}
use paysika.Domain.Events.{Event}
use paysika.Store.{
  Action, Db, Transaction, LedgerEntry, pure, raise, gets, modify_db, next_id, is_set, match_option,
  ◌>>=◌, ◌>>◌,
}
use paysika.EventBus.{publish}
use paysika.Balance.{refresh_balance_cache, maybe_create_snapshot}

abbrev pub has_key : String → Option String → Bool
has_key key none = false
has_key key (some k) = str_eq k key

-- `Transaction.query.filter_by(idempotency_key=key).first()`.
abbrev pub find_by_key : String → Db → Option Transaction
find_by_key key d = first (λ t. has_key key t.idempotency_key) d.transactions

-- The same under `if idempotency_key:`.
unfoldable pub find_existing : Option String → Db → Option Transaction
find_existing none d = none
find_existing (some key) d = if str_eq key "" then none else find_by_key key d

-- `g.correlation_id`, or a new one.
unfoldable pub build_correlation_id : Action String
build_correlation_id = gets (λ s. or_else s.context.correlation_id s.context.uuid)

-- A flush inserts the row, or finds its key taken. Under `if idempotency_key:` the `IntegrityError`
-- is caught and the row that has the key is returned.
pub data Inserted : Type 0 where
  existing : Transaction → Inserted
  created : Transaction → Inserted

insert_row : (ℕ → Transaction) → Action Inserted
insert_row row = do
  id ← gets (λ s. next_id (λ t. t.id) s.db.transactions)
  modify_db (λ d. record d { transactions = row id ∷ d.transactions })
  pure (created (row id))

unfoldable pub key_taken : Option String → Db → Option Transaction
key_taken none d = none
key_taken (some key) d = find_by_key key d

pub insert_transaction : Option String → (ℕ → Transaction) → Action Inserted
unfolding insert_row key_taken
insert_transaction key row = do
  taken ← gets (λ s. key_taken key s.db)
  match_option taken (λ t. if is_set key then pure (existing t) else raise integrity_error)
      (insert_row row)

-- The caller returns a row that it found, and goes on with one that it inserted.
unfoldable pub go_on : Inserted → (Transaction → Action Transaction) → Action Transaction
go_on (existing t) f s = (ok t, s)
go_on (created t) f s = f t s

-- `LedgerEntry(...)` with the status SUCCESS; the id comes with the flush.
abbrev pub entry : ℕ → ℕ → ℤ → EntryType → String → ℕ → LedgerEntry
entry account_id transaction_id amount entry_type currency id = record {
  id = id;
  account_id = account_id;
  transaction_id = transaction_id;
  amount = amount;
  entry_type = entry_type;
  status = EntryStatus.success;
  currency = currency;
}

-- `db.session.add` of each entry in turn, and a flush.
abbrev pub insert_entries : List (ℕ → LedgerEntry) → List LedgerEntry → List LedgerEntry
insert_entries [] es = es
insert_entries (row ∷ rows) es = insert_entries rows (row (next_id (λ e. e.id) es) ∷ es)

unfoldable pub add_entries : List (ℕ → LedgerEntry) → Action Unit
add_entries rows = modify_db (λ d. record d { entries = insert_entries rows d.entries })

-- A debit of one account and a credit of another, of one amount in one currency.
abbrev pub double_entry : ℕ → ℕ → ℕ → ℤ → String → List (ℕ → LedgerEntry)
double_entry debited credited transaction_id amount currency =
    entry debited transaction_id (neg amount) debit currency
    ∷ entry credited transaction_id amount credit currency
    ∷ []

-- What follows the flush of the entries: the caches of both accounts, their snapshots, the event.
pub settle : ℕ → ℕ → String → Event → Transaction → Action Transaction
settle one other currency event txn = do
  refresh_balance_cache one currency
  refresh_balance_cache other currency
  maybe_create_snapshot one
  maybe_create_snapshot other
  publish event
  pure txn
