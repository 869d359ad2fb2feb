-- ===== src/Store/Rows.antt =====
-- app/models: the rows of the tables. A nullable column is an `Option`.
use paysika.Prelude.{ℕ, String, Bool, Option, none}
use paysika.Prelude.Int.{ℤ}
use paysika.Domain.Enums.{TransactionType, TransactionStatus, EntryType, EntryStatus}

-- A Decimal that is no amount: `coefficient` at `places` decimals.
pub record Rate : Type 0 where
  pub coefficient : ℤ
  pub places : ℕ

pub record User : Type 0 where
  pub id : ℕ
  pub username : String
  pub email : String
  pub password_hash : String

pub record Account : Type 0 where
  pub id : ℕ
  pub user_id : ℕ
  pub currency : String
  pub name : String
  pub is_system : Bool

-- The keys that the services write into `Transaction.metadata_`.
pub record Metadata : Type 0 where
  pub account_id : Option ℕ
  pub amount : Option ℤ
  pub currency : Option String
  pub exchange_rate : Option Rate

-- `metadata_ or {}`.
abbrev pub no_metadata : Metadata
no_metadata = record { account_id = none; amount = none; currency = none; exchange_rate = none }

-- A description that the source formats is kept as its template with the arguments.
pub data Description : Type 0 where
  written : String → Description
  of_deposit : ℤ → String → Description
  of_exchange : ℤ → String → ℤ → String → Description

pub record Transaction : Type 0 where
  pub id : ℕ
  pub type : TransactionType
  pub status : TransactionStatus
  pub idempotency_key : Option String
  pub correlation_id : String
  pub description : Description
  pub metadata : Option Metadata
  pub provider_reference : Option String
  pub provider : Option String
  pub created_at : ℕ

pub record LedgerEntry : Type 0 where
  pub id : ℕ
  pub account_id : ℕ
  pub transaction_id : ℕ
  pub amount : ℤ
  pub entry_type : EntryType
  pub status : EntryStatus
  pub currency : String

pub record BalanceSnapshot : Type 0 where
  pub id : ℕ
  pub account_id : ℕ
  pub balance : ℤ
  pub entry_count : ℕ
  pub last_entry_id : Option ℕ

-- The JSON bodies that the handlers answer: the fields of the response schemas.
pub data Body : Type 0 where
  transfer_body : ℕ → TransactionStatus → ℕ → ℕ → ℤ → String → Body
  deposit_body : ℕ → TransactionStatus → ℕ → ℤ → String → Body
  error_body : String → Body
  status_body : String → Body

pub record IdempotencyRecord : Type 0 where
  pub key : String
  pub request_hash : String
  pub response_code : ℕ
  pub response_body : Body
  pub created_at : ℕ
