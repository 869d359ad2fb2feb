-- ===== src/Api/Outage.antt =====
-- A transfer request while the queue is down.
use paysika.Prelude.{sym, ◌∙◌, none, ℕ, ◌≡◌, String, false, true, some, arith, ◌==◌, refl}
use paysika.Prelude.Int.{◌-ℤ◌}
use paysika.Errors.{err, ok, queue_error}
use paysika.Domain.Enums.{Currency, of_value}
use paysika.Store.{State, Account, ◌>>=◌}
use paysika.Accounts.{find_account, get_account}
use paysika.Balance.{get_balance}
use paysika.Balance.Reads.{balance_of}
use paysika.Balance.Coherence.{get_balance-cached}
use paysika.Transfers.Committed.{execute_transfer-HasCommitted}
use paysika.Transfers.Outage.{IsCut, execute_transfer-IsLost}
use paysika.Api.{TransferRequest, create_transfer, end_request}
use paysika.Api.Requests.{transfer, create_transfer_raised}

module _ (user : ℕ) (request : TransferRequest) (s : State) (a : Account)
    (found : find_account request.source_account_id s.db ≡ some a)
    (own : (a.user_id == user) ≡ true) where
  raised_answer :
      (transfer user request s s).0 ≡ err queue_error
      → (create_transfer user request s).0 ≡ err queue_error
  unfolding create_transfer get_account ◌>>=◌
  raised_answer x = ground arith

  -- A request of the source account's owner whose transfer the checks let pass, and about which someone
  -- would be mailed, raises the queue's error while the queue is down and commits nothing; but a plain
  -- read of the source account after it answers its balance less the amount.
  pub create_transfer_down :
      {c : Currency}
      → (asked : String) → s.db ≡ s.committed
      → IsCut request.source_account_id request.target_account_id request.amount request.currency s
      → of_value request.currency ≡ some c
      → let s' = end_request (create_transfer user request s).1 in
        ((create_transfer user request s).0 ≡ err queue_error)
        × (s'.db ≡ s.db)
        × (s'.committed ≡ s.committed)
        × ((get_balance request.source_account_id asked false false s').0
            ≡ ok (record {
              amount = balance_of request.source_account_id s.db -ℤ request.amount;
              currency = c;
            }))
  create_transfer_down asked clean h known =
      let lost =
        execute_transfer-IsLost request.source_account_id request.target_account_id request.amount
          request.currency request.description s h in
      let kept =
        (execute_transfer-HasCommitted s.committed request.source_account_id
            request.target_account_id request.amount request.currency request.description none).at
          s refl in
      (
        raised_answer lost.answer,
        rw (create_transfer_raised user request s a found own queue_error lost.answer)
            (kept ∙ sym clean),
        rw (create_transfer_raised user request s a found own queue_error lost.answer) kept,
        rw (create_transfer_raised user request s a found own queue_error lost.answer) (
            get_balance-cached request.source_account_id asked
              (end_request (transfer user request s s).1) _ lost.cached known),
      )
