-- ===== src/System/Opens.antt =====
-- What deposit requests, account requests and registrations commit.
use paysika.Prelude.{◌∙◌, ℕ, none, ◌≡◌, inl, inr, refl, sym}
use paysika.Store.{State}
use paysika.Ledger.Invariant.{IsLedger}
use paysika.Deposits.Direct.{initiate_deposit-outcome}
use paysika.Api.{DepositRequest, create_deposit, end_request}
use paysika.Api.Initiation.{initiation, create_deposit_commits}
use paysika.Api.Accounts.{AccountCreate}
use paysika.Api.Accounts as Endpoint
use paysika.Api.Accounts.Access.{create_account-IsOpening}
use paysika.System.Changes.{Change, same, opens, initiates}
use paysika.System.Commits.{Commits, Change-along, Commits-nothing, Commits-change}

module _ (user : ℕ) (r : DepositRequest) (s : State) (clean : s.db ≡ s.committed) where
  initiated : Change s.db (initiation user r s s).1.db
  initiated =
      elim (initiate_deposit-outcome r.account_id r.amount r.currency r.description none s "mock") [
        | inl kept ↦ Change-along refl (sym kept) same
        | inr (positive, fresh, tables) ↦ Change-along refl (sym tables) (
            initiates r.account_id r.amount r.currency r.description none "mock" _ s.context.now
              positive)
      ]

  pub create_deposit-Commits : Commits s (end_request (create_deposit user r s).1)
  create_deposit-Commits = elim (create_deposit_commits user r s) [
    | inl kept ↦ Commits-nothing s clean (create_deposit user r s).1 kept
    | inr (kept, db) ↦
        Commits-change s clean (create_deposit user r s).1 (kept ∙ sym db) (rw db initiated)
  ]

pub create_account-Commits :
    (user : ℕ) (r : AccountCreate) (s : State)
    → s.db ≡ s.committed
    → IsLedger s.committed
    → Commits s (end_request (Endpoint.create_account user r s).1)
create_account-Commits user r s clean h =
    let x = create_account-IsOpening user r s clean h in
    record {
      agree = refl;
      change = elim x.outcome [
        | inl kept ↦ Change-along refl (sym kept) same
        | inr (a, answer, own, currency, found, new, grown) ↦ opens grown
      ];
    }
