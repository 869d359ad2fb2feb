-- ===== src/Store/World.antt =====
-- The database as the session sees it, the committed database, the cache, the queues and the
-- configuration of a request. A table is the list of its rows, the newest first.
use paysika.Prelude.{ℕ, String, Bool, Option, List}
use paysika.Prelude.Int.{ℤ}
use paysika.Domain.Events.{Event, EventType}
use paysika.Store.Rows.{
  User, Account, Transaction, LedgerEntry, BalanceSnapshot, IdempotencyRecord, Rate,
}

pub record Db : Type 0 where
  pub users : List User
  pub accounts : List Account
  pub transactions : List Transaction
  pub entries : List LedgerEntry
  pub snapshots : List BalanceSnapshot
  pub idempotency_records : List IdempotencyRecord

pub record CachedBalance : Type 0 where
  pub amount : ℤ
  pub currency : String

-- The jobs on the three queues. The subject and the body of an email are functions of the event.
pub data Job : Type 0 where
  send_email : Event → List String → Job
  notify_provider : ℕ → ℤ → String → Job
  create_snapshot : ℕ → Job

-- The functions that `register_handlers` subscribes.
pub data Handler : Type 0 where
  on_transfer_completed on_transfer_failed on_deposit_completed on_deposit_failed : Handler

-- What `SELECT … FOR UPDATE` holds: an account's row, or an account's entries after an id.
pub data Lock : Type 0 where
  account_row : ℕ → Lock
  entry_rows : ℕ → ℕ → Lock

-- What one request finds around it and leaves as it is. `uuid` is what `uuid4().hex` answers, and
-- `system_password_hash` what the library's `generate_password_hash` answers for the system user.
pub record Context : Type 0 where
  pub correlation_id : Option String
  pub uuid : String
  pub now : ℕ
  pub snapshot_threshold : ℕ
  pub clearing_name : String
  pub system_password_hash : String
  pub queue_up : Bool
  pub for_update : Bool

pub record State : Type 0 where
  pub context : Context
  pub db : Db
  pub committed : Db
  pub locks : List Lock
  pub balance_cache : List (ℕ × CachedBalance)
  pub idempotency_cache : List (String × IdempotencyRecord)
  pub fx_cache : List ((String × String) × Rate)
  pub jobs : List Job
  pub handlers : List (EventType × Handler)
