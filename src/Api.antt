-- ===== src/Api.antt =====
-- app/api/v1/transfers.py, deposits.py and webhooks.py: the handlers behind the schema checks, with
-- their commits and rollbacks.
pub mod Requests
pub mod Coherence
pub mod Outage
pub mod Webhook
pub mod Receipt
pub mod Signature
pub mod Events
pub mod Accounts
pub mod Initiation
pub mod Users
use paysika.Prelude.{
  ℕ, ◌+◌, ◌==◌, String, Bool, true, false, Option, none, some, str_eq, ltb, not, or_else,
  if◌then◌else◌,
}
use paysika.Prelude.Int.{ℤ, pos, negsuc, pos_part, neg_part, ◌-ℤ◌}
use paysika.Errors.{Result, ok, err, forbidden, invalid_transaction_state, type_error}
use paysika.Store.{
  Action, State, Transaction, transfer_body, deposit_body, error_body, status_body, notify_provider,
  pure, raise, lift, gets, raise_if, modify, enqueue, match_option, ◌>>=◌, ◌>>◌,
}
use paysika.Accounts.{get_account}
use paysika.Transfers.{execute_transfer}
use paysika.Deposits.{initiate_deposit, confirm_deposit, fail_deposit}
use paysika.Idempotency.{Response}

-- `db.session.commit()` and `db.session.rollback()`.
abbrev pub committed_now : State → State
committed_now s = record s { committed = s.db }

abbrev pub rolled_back : State → State
rolled_back s = record s { db = s.committed }

-- The session is removed when a request ends, and what it has not committed is lost.
abbrev pub end_request : State → State
end_request s = rolled_back s

-- The fields of the validated transfer request.
pub record TransferRequest : Type 0 where
  pub source_account_id : ℕ
  pub target_account_id : ℕ
  pub amount : ℤ
  pub currency : String
  pub description : String

pub record DepositRequest : Type 0 where
  pub account_id : ℕ
  pub amount : ℤ
  pub currency : String
  pub description : String

pub create_transfer : ℕ → TransferRequest → Action Response
create_transfer user_id request = do
  source_account ← get_account request.source_account_id
  raise_if (not (source_account.user_id == user_id)) forbidden
  txn ←
      execute_transfer request.source_account_id request.target_account_id request.amount
        request.currency request.description none
  modify committed_now
  pure (
    201,
    transfer_body txn.id txn.status request.source_account_id request.target_account_id
        request.amount request.currency,
  )

-- What raises is logged and swallowed.
pub swallow : Action Unit → Action Unit
swallow m s = (ok tt, (m s).1)

pub create_deposit : ℕ → DepositRequest → Action Response
unfolding swallow
create_deposit user_id request = do
  account ← get_account request.account_id
  raise_if (not (account.user_id == user_id)) forbidden
  txn ←
      initiate_deposit request.account_id request.amount request.currency request.description none
        "mock"
  modify committed_now
  swallow (enqueue (notify_provider txn.id request.amount request.currency))
  pure (202, deposit_body txn.id txn.status request.account_id request.amount request.currency)

-- A webhook's request. `timestamp` and `reference` are what `datetime.fromisoformat` (in
-- microseconds, UTC by default) and `int` answer for the texts, none where they raise; `ascii` is
-- `signature.isascii()`, without which `hmac.compare_digest` raises.
pub record WebhookRequest : Type 0 where
  pub payload : String
  pub signature : String
  pub ascii : Bool
  pub event_type : String
  pub provider_reference : String
  pub reason : String
  pub timestamp : Option ℤ
  pub reference : Option ℤ

-- The commit, or the rollback with an answer of 422.
abbrev pub finish : String → Result Transaction → State → Result Response × State
finish message (ok txn) s = (ok (200, status_body "received"), committed_now s)
finish message (err e) s = (ok (422, error_body message), rolled_back s)

pub settled : String → Action Transaction → Action Response
settled message m s = let (r, s') = m s in finish message r s'

-- `hexdigest secret payload` is `hmac.new(secret, payload, hashlib.sha256).hexdigest()`.
module _ (hexdigest : String → String → String) (secret : String) (tolerance : ℕ) where
  -- `_verify_hmac_signature`.
  pub verify_signature : WebhookRequest → Result Bool
  verify_signature r =
      if r.ascii then ok (str_eq (hexdigest secret r.payload) r.signature) else err type_error

  -- The response that refuses the signature, if it is refused.
  unfoldable pub refuse_signature : WebhookRequest → Action (Option Response)
  unfolding verify_signature
  refuse_signature r =
      if str_eq secret ""
      then pure none
      else if str_eq r.signature ""
      then pure (some (401, error_body "Missing X-Webhook-Signature header"))
      else do
        valid ← lift (verify_signature r)
        pure (if valid then none else some (401, error_body "Invalid webhook signature"))

  -- `abs(now - ts) > tolerance`, of microseconds.
  unfoldable pub is_stale : ℕ → ℤ → Bool
  is_stale now ts = let delta = pos now -ℤ ts in ltb tolerance (pos_part delta + neg_part delta)

  -- The text of the answer to an unknown event leaves out the event. No row has a negative id, so the
  -- services raise for one.
  pub dispatch : WebhookRequest → ℤ → Action Response
  unfolding settled
  dispatch r (negsuc n) =
      if str_eq r.event_type "deposit.completed"
      then settled "Confirmation failed" (raise invalid_transaction_state)
      else if str_eq r.event_type "deposit.failed"
      then settled "Failed to record deposit failure" (raise invalid_transaction_state)
      else pure (400, error_body "Unknown event_type")
  dispatch r (pos transaction_id) =
      if str_eq r.event_type "deposit.completed"
      then settled "Confirmation failed" (confirm_deposit transaction_id r.provider_reference)
      else if str_eq r.event_type "deposit.failed"
      then settled "Failed to record deposit failure" (fail_deposit transaction_id r.reason)
      else pure (400, error_body "Unknown event_type")

  -- From the timestamp on.
  pub accepted : WebhookRequest → Action Response
  unfolding is_stale
  accepted r = do
    now ← gets (λ s. s.context.now)
    match_option r.timestamp
        (λ ts.
          if is_stale now ts
          then pure (401, error_body "Webhook timestamp too old")
          else match_option r.reference (dispatch r)
              (pure (400, error_body "Invalid reference_id — must be an integer")))
        (pure (400, error_body "Invalid timestamp format"))

  pub payment_webhook : WebhookRequest → Action Response
  payment_webhook r = do
    refused ← refuse_signature r
    match_option refused (λ response. pure response) (accepted r)
