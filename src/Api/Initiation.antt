-- ===== src/Api/Initiation.antt =====
-- What a deposit request answers and commits.
use paysika.Prelude.{
  ◌∙◌, ap, str_eq, ℕ, ◌≡◌, ◌⊎◌, ◌==◌, true, false, some, none, inl, inr, refl, arith, Option-cases,
  Bool-cases,
}
use paysika.Errors.{Error, ok, err, Result-cases}
use paysika.Domain.Enums.{TransactionStatus}
use paysika.Store.{next_id, enqueue, State, Account, Transaction, Action, deposit_body, ◌>>=◌}
use paysika.Accounts.{find_account, get_account}
use paysika.Deposits.{initiate_deposit}
use paysika.Deposits.Committed.{initiate_deposit-HasCommitted}
use paysika.Api.{DepositRequest, create_deposit, swallow}
use paysika.Prelude.Int.{pos, leb_ℤ}
use paysika.EventBus.Delivery.{registered}
use paysika.Deposits.Direct.{initiated}
use paysika.Ledger.Effects.{with_transaction}
use paysika.Deposits.Initiated.{initiate_deposit-succeeds}

module _ (user : ℕ) (r : DepositRequest) (s : State) where
  abbrev pub initiation : Action Transaction
  initiation = initiate_deposit r.account_id r.amount r.currency r.description none "mock"

  -- The request stops before its commit.
  stops_unknown : find_account r.account_id s.db ≡ none → (create_deposit user r s).1 ≡ s
  unfolding create_deposit get_account ◌>>=◌
  stops_unknown missing = ground arith

  module _ (a : Account) (found : find_account r.account_id s.db ≡ some a) where
    stops_forbidden : (a.user_id == user) ≡ false → (create_deposit user r s).1 ≡ s
    unfolding create_deposit get_account ◌>>=◌
    stops_forbidden other = ground arith

    module _ (own : (a.user_id == user) ≡ true) where
      raises :
          (e : Error) → (initiation s).0 ≡ err e → (create_deposit user r s).1 ≡ (initiation s).1
      unfolding create_deposit get_account ◌>>=◌
      raises e x = ground arith

      -- The answer to a deposit that was initiated, also where the queue is down.
      pub create_deposit_returned :
          (t : Transaction)
          → (initiation s).0 ≡ ok t
          → ((create_deposit user r s).0
              ≡ ok (202, deposit_body t.id t.status r.account_id r.amount r.currency))
            × ((create_deposit user r s).1.committed ≡ (initiation s).1.db)
            × ((create_deposit user r s).1.db ≡ (initiation s).1.db)
      unfolding create_deposit get_account swallow enqueue ◌>>=◌
      create_deposit_returned t x = (ground arith, ground arith, ground arith)

  -- A request leaves the committed tables alone, or it commits what initiating the deposit leaves.
  pub create_deposit_commits :
      ((create_deposit user r s).1.committed ≡ s.committed)
      ⊎ (((create_deposit user r s).1.committed ≡ (initiation s).1.db)
          × ((create_deposit user r s).1.db ≡ (initiation s).1.db))
  create_deposit_commits = elim (Option-cases (find_account r.account_id s.db)) [
    | inl missing ↦ inl (rw (stops_unknown missing) refl)
    | inr (a, found) ↦ elim (Bool-cases (a.user_id == user)) [
      | inr other ↦ inl (rw (stops_forbidden a found other) refl)
      | inl own ↦ elim (Result-cases (initiation s).0) [
        | inr (e, x) ↦ inl (
            rw (raises a found own e x) (
              (initiate_deposit-HasCommitted s.committed r.account_id r.amount r.currency
                  r.description none "mock").at
                s refl))
        | inl (t, x) ↦
            let (answer, kept, db) = create_deposit_returned a found own t x in inr (kept, db)
      ]
    ]
  ]

-- A deposit request of a positive amount by the owner of an account in the currency, with the handlers
-- registered, is answered 202, also when the queue is down, and the committed tables are those of the
-- session with one pending row of the deposit more.
pub create_deposit_accepted :
    (user : ℕ) (r : DepositRequest) (s : State) (a : Account)
    → find_account r.account_id s.db ≡ some a
    → (a.user_id == user) ≡ true
    → str_eq a.currency r.currency ≡ true
    → leb_ℤ r.amount (pos 0) ≡ false
    → s.handlers ≡ registered
    → let row = initiated r.account_id r.amount r.currency r.description none s "mock" in
      ((create_deposit user r s).0
        ≡ ok (
          202,
          deposit_body
              (next_id (λ (t : Transaction). t.id) s.db.transactions)
              TransactionStatus.pending
              r.account_id
              r.amount
              r.currency,
        ))
      × ((create_deposit user r s).1.committed ≡ with_transaction row s.db)
create_deposit_accepted user r s a found own same positive wired =
    let done =
      initiate_deposit-succeeds r.account_id r.amount r.currency r.description "mock" s a found same
        positive wired in
    let row = initiated r.account_id r.amount r.currency r.description none s "mock" in
    let (answer, kept, db) =
      create_deposit_returned user r s a found own
        (row (next_id (λ (t : Transaction). t.id) s.db.transactions)) (ap (λ x. x.0) done) in
    (answer, kept ∙ ap (λ x. x.1.db) done)
