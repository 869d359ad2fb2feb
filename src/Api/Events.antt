-- ===== src/Api/Events.antt =====
-- The events of the webhooks: the first one for a deposit, and any later one.
use paysika.Prelude.{
  refl, eq_iff, String, ℕ, ◌≡◌, ◌≢◌, ◌⊎◌, true, false, none, some, arith, str_eq, inl, inr,
}
use paysika.Prelude.Int.{ℤ, pos}
use paysika.Errors.{ok}
use paysika.Domain.Enums.{TransactionStatus}
use paysika.Store.{State, Transaction, Body, error_body, status_body}
use paysika.Deposits.{confirm_deposit}
use paysika.Deposits.States.{status_of, not_pending}
use paysika.Api.{
  committed_now, rolled_back, is_stale, WebhookRequest, refuse_signature, settled, dispatch,
  payment_webhook,
}
use paysika.Api.Signature.{payment_webhook_dispatched}

-- The webhook is not refused: its signature is right or not asked for, its time is within the tolerance,
-- and its reference is the number of a transaction.
pub record IsAccepted (hexdigest : String → String → String) (secret : String) (tolerance : ℕ)
    (r : WebhookRequest) (i : ℕ) (s : State) : Type 0 where
  pub signed : (refuse_signature hexdigest secret tolerance r s).0 ≡ ok none
  pub time : ℤ
  pub timed : r.timestamp ≡ some time
  pub recent : is_stale hexdigest secret tolerance s.context.now time ≡ false
  pub reference : r.reference ≡ some (pos i)

module _ (hexdigest : String → String → String) (secret : String) (tolerance : ℕ)
    (r : WebhookRequest) (i : ℕ) (s : State)
    (accepted : IsAccepted hexdigest secret tolerance r i s) where
  dispatched :
      payment_webhook hexdigest secret tolerance r s
      ≡ dispatch hexdigest secret tolerance r (pos i) s
  dispatched =
      payment_webhook_dispatched hexdigest secret tolerance r s accepted.time (pos i)
        accepted.signed accepted.timed accepted.recent accepted.reference

  -- An accepted webhook of a completed deposit whose confirmation returns is answered 200 and commits
  -- what the confirmation leaves.
  pub payment_webhook_completed :
      (t : Transaction)
      → str_eq r.event_type "deposit.completed" ≡ true
      → (confirm_deposit i r.provider_reference s).0 ≡ ok t
      → payment_webhook hexdigest secret tolerance r s ≡ (
        ok (200, status_body "received"),
        committed_now (confirm_deposit i r.provider_reference s).1,
      )
  unfolding dispatch settled
  payment_webhook_completed t event done = ground (arith, dispatched)

  -- For a transaction that is not pending, because an earlier webhook has completed or failed it or
  -- because there is none, an accepted webhook of either event is answered 422 and rolled back.
  pub payment_webhook_again :
      (str_eq r.event_type "deposit.completed" ≡ true)
        ⊎ (str_eq r.event_type "deposit.failed" ≡ true)
      → status_of i s.db ≢ some TransactionStatus.pending
      → (message : Body) × (payment_webhook hexdigest secret tolerance r s
          ≡ (ok (422, message), rolled_back s))
  unfolding dispatch settled
  payment_webhook_again (inl event) settled_before = (
    error_body "Confirmation failed",
    ground (arith, dispatched, (not_pending i s r.provider_reference settled_before).0),
  )
  payment_webhook_again (inr event) settled_before =
      let same : r.event_type ≡ "deposit.failed" = (eq_iff r.event_type "deposit.failed").0 event in
      let other : str_eq r.event_type "deposit.completed" ≡ false = rw same refl in
      (
        error_body "Failed to record deposit failure",
        ground (arith, dispatched, (not_pending i s r.reason settled_before).1, other),
      )
