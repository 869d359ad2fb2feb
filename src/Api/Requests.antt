-- ===== src/Api/Requests.antt =====
-- What a transfer request commits.
use paysika.Prelude.{
  String, str_eq, ap, ◌≡◌, ◌⊎◌, ℕ, true, false, some, none, arith, inl, inr, refl, ◌==◌, Bool-cases,
  Option-cases,
}
use paysika.Errors.{Error, Result, ok, err, forbidden, Result-cases}
use paysika.Store.{transfer_body, State, Db, Account, Body, Transaction, Action, ◌>>=◌}
use paysika.Accounts.{find_account, get_account}
use paysika.Ledger.Invariant.{IsLedger}
use paysika.Transfers.{execute_transfer}
use paysika.Transfers.Ledger.{execute_transfer-IsLedger}
use paysika.Transfers.Committed.{execute_transfer-HasCommitted}
use paysika.Idempotency.{
  require_idempotency_key, run_handler, save_response, cache_response, get_existing_response,
  Response,
}
use paysika.Api.{TransferRequest, create_transfer, end_request}

-- What a finished request leaves of given committed tables: the session agrees with the committed
-- tables, these satisfy the invariant, and they are the given ones unless the answer is 201.
pub record IsFinished (committed : Db) (answer : Result Response) (s' : State) : Type 0 where
  pub agree : s'.db ≡ s'.committed
  pub ledger : IsLedger s'.committed
  pub kept : (s'.committed ≡ committed) ⊎ ((body : Body) × (answer ≡ ok (201, body)))

module _ (user : ℕ) (request : TransferRequest) (s : State) where
  abbrev pub transfer : Action Transaction
  transfer =
      execute_transfer request.source_account_id request.target_account_id request.amount
        request.currency request.description none

  abbrev answer : Result Response × State
  answer = create_transfer user request s

  -- A request of a user who does not own the source account, which exists, raises the error for 403
  -- and changes nothing.
  pub create_transfer_forbidden :
      (a : Account)
      → find_account request.source_account_id s.db ≡ some a
      → (a.user_id == user) ≡ false
      → create_transfer user request s ≡ (err forbidden, s)
  unfolding create_transfer get_account ◌>>=◌
  create_transfer_forbidden a found other = ground arith

  pub create_transfer_unknown : find_account request.source_account_id s.db ≡ none → answer.1 ≡ s
  unfolding create_transfer get_account ◌>>=◌
  create_transfer_unknown missing = ground arith

  module _ (a : Account) (found : find_account request.source_account_id s.db ≡ some a)
      (own : (a.user_id == user) ≡ true) where
    pub create_transfer_raised : (e : Error) → (transfer s).0 ≡ err e → answer.1 ≡ (transfer s).1
    unfolding create_transfer get_account ◌>>=◌
    create_transfer_raised e x = ground arith

    pub create_transfer_returned :
        (t : Transaction)
        → (transfer s).0 ≡ ok t
        → ((body : Body) × (answer.0 ≡ ok (201, body)))
          × (answer.1 ≡ record (transfer s).1 { committed = (transfer s).1.db })
    unfolding create_transfer get_account ◌>>=◌
    create_transfer_returned t x = (
      (
        transfer_body t.id t.status request.source_account_id request.target_account_id
            request.amount request.currency,
        ground arith,
      ),
      ground arith,
    )

  module _ (clean : s.db ≡ s.committed) (h : IsLedger s.committed) where
    kept-IsFinished : answer.1 ≡ s → IsFinished s.committed answer.0 (end_request answer.1)
    kept-IsFinished e = rw e (record { agree = refl; ledger = h; kept = inl refl })

    raised-IsFinished :
        (e : Error)
        → answer.1 ≡ (transfer s).1
        → IsFinished s.committed answer.0 (end_request answer.1)
    raised-IsFinished e x =
        let same =
          (execute_transfer-HasCommitted s.committed request.source_account_id
              request.target_account_id request.amount request.currency request.description none).at
            s refl in
        rw x (record { agree = refl; ledger = rw same h; kept = inl same })

    returned-IsFinished :
        ((body : Body) × (answer.0 ≡ ok (201, body)))
        → answer.1 ≡ record (transfer s).1 { committed = (transfer s).1.db }
        → IsFinished s.committed answer.0 (end_request answer.1)
    returned-IsFinished created x =
        let good =
          execute_transfer-IsLedger request.source_account_id request.target_account_id
            request.amount request.currency request.description none s (rw clean h) in
        rw x (record { agree = refl; ledger = good; kept = inr created })

    -- From a session without changes of its own and committed tables that satisfy the ledger's
    -- invariant, any transfer request, when it has ended, leaves such a session and such tables, and
    -- unless it answers 201 the committed tables are the ones it found.
    pub create_transfer-IsFinished :
        IsFinished s.committed
          (create_transfer user request s).0
          (end_request (create_transfer user request s).1)
    create_transfer-IsFinished = elim (Option-cases (find_account request.source_account_id s.db)) [
      | inl missing ↦ kept-IsFinished (create_transfer_unknown missing)
      | inr (a, found) ↦ elim (Bool-cases (a.user_id == user)) [
        | inr other ↦ kept-IsFinished (ap (λ r. r.1) (create_transfer_forbidden a found other))
        | inl own ↦ elim (Result-cases (transfer s).0) [
          | inr (e, x) ↦ raised-IsFinished e (create_transfer_raised a found own e x)
          | inl (t, x) ↦
              let (created, end) = create_transfer_returned a found own t x in
              returned-IsFinished created end
        ]
      ]
    ]

-- After a request under a set key that had no response, whatever the handler is and whether it
-- returns or raises, the tables are those that the handler committed: the record that the decorator
-- adds is not among them.
pub require_idempotency_key_uncommitted :
    (key hash : String) (handler : Action Response) (s : State)
    → str_eq key "" ≡ false
    → (get_existing_response key s).0 ≡ ok none
    → (end_request (require_idempotency_key (some key) hash handler s).1).db
      ≡ (handler s).1.committed
unfolding require_idempotency_key run_handler save_response cache_response get_existing_response
    ◌>>=◌
require_idempotency_key_uncommitted key hash handler s set new = ground arith
