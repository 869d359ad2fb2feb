-- ===== src/System/Commits.antt =====
-- What the requests that move money commit.
use paysika.Prelude.{
  sym, ℕ, String, none, ◌≡◌, ◌==◌, inl, inr, refl, arith, Option-cases, Bool-cases,
}
use paysika.Errors.{ok, Result-cases}
use paysika.Store.{State, Db, Transaction}
use paysika.Accounts.{find_account}
use paysika.Ledger.Invariant.{IsLedger}
use paysika.Transfers.Outcome.{execute_transfer-outcome}
use paysika.Transfers.Committed.{execute_transfer-HasCommitted}
use paysika.Deposits.{confirm_deposit, fail_deposit}
use paysika.Deposits.Outcome.{fail_deposit-returns, confirm_deposit-outcome}
use paysika.Deposits.Steps.{failed}
use paysika.Api.{TransferRequest, create_transfer, WebhookRequest, payment_webhook, end_request}
use paysika.Api.Requests.{
  transfer, create_transfer_unknown, create_transfer_raised, create_transfer_returned,
  create_transfer_forbidden,
}
use paysika.Api.Webhook.{Survives-tables, IsKept, payment_webhook-Settles}
use paysika.System.Changes.{Change, same, transfers, confirms, fails}
use paysika.Deposits.Committed.{fail_deposit-HasCommitted, confirm_deposit-HasCommitted}

-- From one state, with committed tables, to another: session and committed tables agree there, and
-- the committed tables changed in one of the ways listed.
pub record Commits (s s' : State) : Type 0 where
  pub agree : s'.db ≡ s'.committed
  pub change : Change s.committed s'.committed

pub Change-along : {c d d' e : Db} → d ≡ c → d' ≡ e → Change d d' → Change c e
Change-along {d' = d'} {e} p q x = rw (p, q) at x

module _ (s : State) (clean : s.db ≡ s.committed) where
  -- A request that leaves the committed tables alone.
  pub Commits-nothing : (s' : State) → s'.committed ≡ s.committed → Commits s (end_request s')
  Commits-nothing s' kept = record { agree = refl; change = Change-along refl (sym kept) same }

  -- A request that commits a change of the session.
  pub Commits-change :
      (s' : State) → s'.committed ≡ s'.db → Change s.db s'.db → Commits s (end_request s')
  Commits-change s' e x = record { agree = refl; change = Change-along clean (sym e) x }

module _ (user : ℕ) (r : TransferRequest) (s : State) (clean : s.db ≡ s.committed)
    (h : IsLedger s.committed) where
  moved : Change s.db (transfer user r s s).1.db
  moved =
      elim (execute_transfer-outcome r.source_account_id r.target_account_id r.amount r.currency
        r.description none s (rw clean h.sound)) [
          | inl kept ↦ Change-along refl (sym kept) same
          | inr (apart, positive, x) ↦
              transfers r.source_account_id r.target_account_id r.amount r.currency r.description
                none apart positive x
        ]

  uncommitted : (transfer user r s s).1.committed ≡ s.committed
  uncommitted =
      (execute_transfer-HasCommitted s.committed r.source_account_id r.target_account_id r.amount
          r.currency r.description none).at
        s refl

  pub create_transfer-Commits : Commits s (end_request (create_transfer user r s).1)
  create_transfer-Commits = elim (Option-cases (find_account r.source_account_id s.db)) [
    | inl missing ↦
        Commits-nothing s clean (create_transfer user r s).1
          (rw (create_transfer_unknown user r s missing) refl)
    | inr (a, found) ↦ elim (Bool-cases (a.user_id == user)) [
      | inr other ↦
          Commits-nothing s clean (create_transfer user r s).1
            (rw (create_transfer_forbidden user r s a found other) refl)
      | inl own ↦ elim (Result-cases (transfer user r s s).0) [
        | inr (e, x) ↦
            Commits-nothing s clean (create_transfer user r s).1
              (rw (create_transfer_raised user r s a found own e x) uncommitted)
        | inl (t, x) ↦
            let (created, end) = create_transfer_returned user r s a found own t x in
            Commits-change s clean (create_transfer user r s).1 (rw end refl) (rw end moved)
      ]
    ]
  ]

confirm_deposit-Change :
    (i : ℕ) (ref : String) (s : State) (t : Transaction)
    → IsLedger s.db
    → (confirm_deposit i ref s).0 ≡ ok t
    → Change s.db (confirm_deposit i ref s).1.db
confirm_deposit-Change i ref s t h done = elim (confirm_deposit-outcome i ref s h) [
  | inl (e, failed, kept) ↦ absurd (ground arith)
  | inr x ↦ confirms i ref x
]

fail_deposit-Change :
    (i : ℕ) (reason : String) (s : State) (t : Transaction)
    → (fail_deposit i reason s).0 ≡ ok t
    → Change s.db (fail_deposit i reason s).1.db
fail_deposit-Change i reason s t done =
    let (u, found, pending, tables) = fail_deposit-returns i reason s t done in
    Change-along refl (sym tables) (fails i u found pending)

change-IsKept :
    (s : State)
    → s.db ≡ s.committed
    → IsLedger s.committed
    → IsKept (λ s'. Change s.committed s'.committed) s
change-IsKept s clean h = record {
  before = same;
  confirms = λ i ref.
      Survives-tables (Change s.committed) s (confirm_deposit i ref) same
        ((confirm_deposit-HasCommitted s.committed i ref).at s refl)
        (λ t done. Change-along clean refl (confirm_deposit-Change i ref s t (rw clean h) done));
  fails = λ i reason.
      Survives-tables (Change s.committed) s (fail_deposit i reason) same
        ((fail_deposit-HasCommitted s.committed i reason).at s refl)
        (λ t done. Change-along clean refl (fail_deposit-Change i reason s t done));
}

pub payment_webhook-Commits :
    (hexdigest : String → String → String) (secret : String) (tolerance : ℕ) (r : WebhookRequest)
    (s : State)
    → s.db ≡ s.committed
    → IsLedger s.committed
    → Commits s (end_request (payment_webhook hexdigest secret tolerance r s).1)
payment_webhook-Commits hexdigest secret tolerance r s clean h =
    let x =
      payment_webhook-Settles (λ s'. Change s.committed s'.committed) s clean
        (change-IsKept s clean h) hexdigest secret tolerance r in
    record { agree = refl; change = x.good }
