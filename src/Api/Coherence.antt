-- ===== src/Api/Coherence.antt =====
-- What a transfer request and a webhook leave in the cache of balances.
use paysika.Prelude.{
  String, ℕ, ◌≡◌, ◌∙◌, sym, refl, none, arith, inl, inr, ◌==◌, ap, Bool-cases, Option-cases,
}
use paysika.Errors.{Error, err, Result-cases}
use paysika.Store.{Transaction, Action, State}
use paysika.Accounts.{find_account}
use paysika.Ledger.Coherence.{IsRight}
use paysika.Transfers.Outcome.{execute_transfer-outcome}
use paysika.Transfers.Committed.{execute_transfer-HasCommitted}
use paysika.Transfers.Success.{IsReady, execute_transfer-succeeds}
use paysika.Transfers.Coherence.{execute_transfer-IsRight}
use paysika.Api.{
  fail_deposit, payment_webhook, confirm_deposit, WebhookRequest, TransferRequest, create_transfer,
  end_request,
}
use paysika.Api.Requests.{
  transfer, create_transfer_forbidden, create_transfer_unknown, create_transfer_raised,
  create_transfer_returned,
}
use paysika.Ledger.{find_existing}
use paysika.Api.Webhook.{payment_webhook-Settles, Survives, IsKept}
use paysika.Deposits.Coherence.{Ends}
use paysika.Deposits.Committed.{fail_deposit-HasCommitted, confirm_deposit-HasCommitted}
use paysika.Deposits.Coherence.Settled.{fail_deposit-Ends, confirm_deposit-Ends}

moved-IsRight :
    {s s' : State} → s'.db ≡ s.db → s'.balance_cache ≡ s.balance_cache → IsRight s → IsRight s'
moved-IsRight db cache h = record {
  sound = rw db h.sound;
  coherent = record { at = λ a v e. rw db (h.coherent.at a v (rw cache at e)) };
}

module _ (user : ℕ) (request : TransferRequest) (s : State) (ready : IsReady s) (h : IsRight s)
    (clean : s.db ≡ s.committed) where
  abbrev moved : State
  moved = (transfer user request s s).1

  after : IsRight moved
  after =
      execute_transfer-IsRight request.source_account_id request.target_account_id request.amount
        request.currency request.description none s h

  -- With the queue up, a transfer that raises has not changed the tables.
  raised-db : (e : Error) → (transfer user request s s).0 ≡ err e → moved.db ≡ s.db
  unfolding find_existing
  raised-db e x =
      elim (execute_transfer-outcome request.source_account_id request.target_account_id
        request.amount request.currency request.description none s h.sound) [
          | inl same ↦ same
          | inr (apart, positive, done) ↦
              let went =
                execute_transfer-succeeds request.source_account_id request.target_account_id
                  request.amount request.currency request.description none s h.sound done.covered
                  ready apart positive refl done.key_free in
              absurd (ground (arith, went.0))
        ]

  kept-IsRight :
      (create_transfer user request s).1 ≡ s
      → IsRight (end_request (create_transfer user request s).1)
  kept-IsRight e = rw e (moved-IsRight (sym clean) refl h)

  -- With the queue up and the handlers registered, from sound tables, a session without changes of its
  -- own and a cache of balances that is right about the tables, every transfer request, when it has
  -- ended, leaves sound tables and a cache that is right about what is committed.
  pub create_transfer-IsRight : IsRight (end_request (create_transfer user request s).1)
  create_transfer-IsRight = elim (Option-cases (find_account request.source_account_id s.db)) [
    | inl missing ↦ kept-IsRight (create_transfer_unknown user request s missing)
    | inr (a, found) ↦ elim (Bool-cases (a.user_id == user)) [
      | inr other ↦
          kept-IsRight (ap (λ r. r.1) (create_transfer_forbidden user request s a found other))
      | inl own ↦ elim (Result-cases (transfer user request s s).0) [
        | inr (e, x) ↦
            let committed =
              (execute_transfer-HasCommitted s.committed request.source_account_id
                  request.target_account_id request.amount request.currency request.description
                  none).at
                s refl in
            rw (create_transfer_raised user request s a found own e x)
              (moved-IsRight (committed ∙ sym clean ∙ sym (raised-db e x)) refl after)
        | inl (t, x) ↦
            let (created, end) = create_transfer_returned user request s a found own t x in
            rw end (moved-IsRight refl refl after)
      ]
    ]
  ]

module _ (s : State) (ready : IsReady s) (h : IsRight s) (clean : s.db ≡ s.committed) where
  -- An action that ends well survives its commit or its rollback.
  ended-Survives :
      (m : Action Transaction) → (m s).1.committed ≡ s.committed → Ends s m → Survives IsRight s m
  ended-Survives m kept ends =
      let end = ends.at s (record { right = h; cache = refl; ready = ready }) in
      record {
        returns = λ t e. moved-IsRight refl refl (end.returns t e);
        raises = λ e x. moved-IsRight (kept ∙ sym clean) (end.raises e x) h;
      }

  webhook-IsKept : IsKept IsRight s
  webhook-IsKept = record {
    before = h;
    confirms = λ i ref.
        ended-Survives (confirm_deposit i ref)
          ((confirm_deposit-HasCommitted s.committed i ref).at s refl)
          (confirm_deposit-Ends s i ref);
    fails = λ i reason.
        ended-Survives (fail_deposit i reason)
          ((fail_deposit-HasCommitted s.committed i reason).at s refl)
          (fail_deposit-Ends s i reason);
  }

  -- With the queue up and the handlers registered, from sound tables, a session without changes of its
  -- own and a cache of balances that is right about the tables, every webhook leaves sound tables and a
  -- cache that is right about them, whether its deposit was committed or rolled back.
  pub payment_webhook-IsRight :
      (hexdigest : String → String → String) (secret : String) (tolerance : ℕ) (r : WebhookRequest)
      → IsRight (payment_webhook hexdigest secret tolerance r s).1
  payment_webhook-IsRight hexdigest secret tolerance r =
      (payment_webhook-Settles IsRight s clean webhook-IsKept hexdigest secret tolerance r).good
