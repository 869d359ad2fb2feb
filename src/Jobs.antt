-- ===== src/Jobs.antt =====
-- app/services/deposit_jobs.py and balance_jobs.py: the jobs of the workers. Before `init` a worker has
-- no application, and its jobs return at once.
pub mod Recovery
pub mod Committed
use paysika.Prelude.{
  ℕ, ◌+◌, ◌*◌, String, Bool, true, false, Option, none, some, List, [], ◌∷◌, ◌&&◌, ltb, not, length,
  select, if◌then◌else◌,
}
use paysika.Prelude.Int.{ℤ}
use paysika.Errors.{queue_error, runtime_error}
use paysika.Domain.Enums.{is_deposit, is_pending}
use paysika.Store.{
  Action, Db, Job, Transaction, notify_provider, pure, gets, or_raise, raise_if, modify, enqueue,
  match_option, ◌>>=◌, ◌>>◌,
}
use paysika.Accounts.{exists}
use paysika.Balance.{compute_and_create_snapshot}
use paysika.Deposits.{find_transaction, update_transaction, meta_amount, meta_currency}
use paysika.Api.{committed_now}

-- The provider's answer: whether it is an OK, and the `payment_id` of its JSON.
pub record PaymentAnswer : Type 0 where
  pub is_ok : Bool
  pub payment_id : String

abbrev pub with_payment : String → Transaction → Transaction
with_payment payment_id t = record t { provider_reference = some payment_id }

-- `create_payment` is the POST to the provider, none where the request fails; that exception is
-- raised again, for the queue to retry.
module _ (initialised : Bool) (create_payment : ℕ → ℤ → String → Option PaymentAnswer) where
  pub run_notify_provider : ℕ → ℤ → String → Action Unit
  run_notify_provider transaction_id amount currency = if not initialised then pure tt else do
    answer ← or_raise (create_payment transaction_id amount currency) queue_error
    raise_if (not answer.is_ok) runtime_error
    found ← gets (λ s. find_transaction transaction_id s.db)
    match_option found
        (λ t.
          update_transaction transaction_id (with_payment answer.payment_id)
          >> modify committed_now)
        (pure tt)

-- The deposits that no provider has acknowledged, older than the delay. Times are in microseconds.
abbrev pub is_orphan : ℕ → ℕ → Transaction → Bool
is_orphan delay_minutes now t =
    is_deposit t.type
    && is_pending t.status
    && not (exists t.provider_reference)
    && ltb (t.created_at + delay_minutes * 60_000_000) now

abbrev pub orphans : ℕ → ℕ → Db → List Transaction
orphans delay_minutes now d = select (is_orphan delay_minutes now) d.transactions

abbrev pub notification : Transaction → Job
notification t = notify_provider t.id (meta_amount t) (meta_currency t)

pub enqueue_all : List Transaction → Action Unit
enqueue_all [] = pure tt
enqueue_all (t ∷ ts) = enqueue (notification t) >> enqueue_all ts

pub recover_orphan_deposits : Bool → ℕ → Action ℕ
recover_orphan_deposits initialised delay_minutes = if not initialised then pure 0 else do
  now ← gets (λ s. s.context.now)
  found ← gets (λ s. orphans delay_minutes now s.db)
  enqueue_all found
  pure (length found)

-- The job that `maybe_create_snapshot` queues.
pub run_create_snapshot : Bool → ℕ → Action Unit
run_create_snapshot initialised account_id =
    if not initialised
    then pure tt
    else compute_and_create_snapshot account_id >> modify committed_now
