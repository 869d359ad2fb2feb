-- ===== src/Api/Webhook.antt =====
-- What the webhook answers and commits.
use paysika.Prelude.{
  ap, sym, ◌≡◌, ◌⊎◌, String, ℕ, false, true, some, none, arith, str_eq, Option, Bool, if◌then◌else◌,
  inl, inr, refl,
}
use paysika.Prelude.Int.{ℤ, pos, negsuc}
use paysika.Errors.{Error, Result, ok, err, Result-cases, invalid_transaction_state}
use paysika.Store.{
  State, Db, Body, error_body, Action, Transaction, raise, pure, match_option, ◌>>=◌,
}
use paysika.Ledger.Invariant.{IsLedger}
use paysika.Deposits.{confirm_deposit, fail_deposit}
use paysika.Deposits.Ledger.{confirm_deposit-IsLedger, fail_deposit-IsLedger}
use paysika.Idempotency.{Response}
use paysika.Api.{
  rolled_back, committed_now, is_stale, WebhookRequest, settled, finish, refuse_signature, dispatch,
  accepted, payment_webhook,
}
use paysika.Deposits.Committed.{confirm_deposit-HasCommitted, fail_deposit-HasCommitted}
use paysika.Api.Signature.{refuse_unchanged}

-- What holds of an answer to a webhook, from committed tables: session and committed tables agree, the
-- committed tables satisfy the invariant, and they are the old ones unless the answer is 200.
pub record IsAtomic (committed : Db) (answer : Result Response) (s' : State) : Type 0 where
  pub agree : s'.db ≡ s'.committed
  pub ledger : IsLedger s'.committed
  pub kept : (s'.committed ≡ committed) ⊎ ((body : Body) × (answer ≡ ok (200, body)))

-- The same with any predicate of the state for the invariant.
pub record Settles (Good : State → Type 0) (committed : Db) (answer : Result Response) (s' : State)
    : Type 0 where
  pub agree : s'.db ≡ s'.committed
  pub good : Good s'
  pub kept : (s'.committed ≡ committed) ⊎ ((body : Body) × (answer ≡ ok (200, body)))

-- The same of a handler run from a state.
record AtomicAt (Good : State → Type 0) (s : State) (m : Action Response) : Type 0 where
  pub holds : Settles Good s.committed (m s).0 (m s).1

-- The predicate holds after an action that has been committed if it returned and rolled back if not.
pub record Survives (Good : State → Type 0) (s : State) (m : Action Transaction) : Type 0 where
  pub returns : (t : Transaction) → (m s).0 ≡ ok t → Good (committed_now (m s).1)
  pub raises : (e : Error) → (m s).0 ≡ err e → Good (rolled_back (m s).1)

-- The predicate holds before, and after any confirmation and failure.
pub record IsKept (Good : State → Type 0) (s : State) : Type 0 where
  pub before : Good s
  pub confirms : (i : ℕ) (ref : String) → Survives Good s (confirm_deposit i ref)
  pub fails : (i : ℕ) (reason : String) → Survives Good s (fail_deposit i reason)

-- A predicate of the committed tables survives where it holds of what the action leaves.
pub Survives-tables :
    (Good : Db → Type 0) (s : State) (m : Action Transaction)
    → Good s.committed
    → (m s).1.committed ≡ s.committed
    → ((t : Transaction) → (m s).0 ≡ ok t → Good (m s).1.db)
    → Survives (λ s'. Good s'.committed) s m
Survives-tables Good s m before kept good = record {
  returns = good;
  raises = λ e x. rw kept before;
}

module _ (Good : State → Type 0) (s : State) (clean : s.db ≡ s.committed) (h : IsKept Good s) where
  unchanged : (answer : Result Response) → Settles Good s.committed answer s
  unchanged answer = record { agree = clean; good = h.before; kept = inl refl }

  finish-IsAtomic :
      (message : String) (r : Result Transaction) (s' : State)
      → s'.committed ≡ s.committed
      → ((t : Transaction) → r ≡ ok t → Good (committed_now s'))
      → ((e : Error) → r ≡ err e → Good (rolled_back s'))
      → Settles Good s.committed (finish message r s').0 (finish message r s').1
  finish-IsAtomic message (ok t) s' kept good bad = record {
    agree = refl;
    good = good t refl;
    kept = inr (_, refl);
  }
  finish-IsAtomic message (err e) s' kept good bad = record {
    agree = refl;
    good = bad e refl;
    kept = inl kept;
  }

  settled-IsAtomic :
      (message : String) (m : Action Transaction)
      → (m s).1.committed ≡ s.committed
      → Survives Good s m
      → AtomicAt Good s (settled message m)
  unfolding settled
  settled-IsAtomic message m kept good = record {
    holds = finish-IsAtomic message (m s).0 (m s).1 kept good.returns good.raises;
  }

  answer-IsAtomic : (r : Response) → AtomicAt Good s (pure r)
  unfolding ◌>>=◌
  answer-IsAtomic r = record { holds = unchanged (ok r) }

  if-IsAtomic :
      (b : Bool) (m n : Action Response)
      → AtomicAt Good s m
      → AtomicAt Good s n
      → AtomicAt Good s (if b then m else n)
  if-IsAtomic true m n k l = k
  if-IsAtomic false m n k l = l

  option-IsAtomic :
      {A : Type 0} (o : Option A) (f : A → Action Response) (m : Action Response)
      → ((a : A) → AtomicAt Good s (f a))
      → AtomicAt Good s m
      → AtomicAt Good s (match_option o f m)
  unfolding ◌>>=◌
  option-IsAtomic none f m k l = record { holds = l.holds }
  option-IsAtomic (some a) f m k l = record { holds = (k a).holds }

  confirmed-IsAtomic :
      (message : String) (i : ℕ) (ref : String)
      → AtomicAt Good s (settled message (confirm_deposit i ref))
  confirmed-IsAtomic message i ref =
      settled-IsAtomic message (confirm_deposit i ref)
        ((confirm_deposit-HasCommitted s.committed i ref).at s refl) (h.confirms i ref)

  failed-IsAtomic :
      (message : String) (i : ℕ) (reason : String)
      → AtomicAt Good s (settled message (fail_deposit i reason))
  failed-IsAtomic message i reason =
      settled-IsAtomic message (fail_deposit i reason)
        ((fail_deposit-HasCommitted s.committed i reason).at s refl) (h.fails i reason)

  back : Good s → Good (rolled_back s)
  back before =
      let same : rolled_back s ≡ s = ap (λ (c : Db). record s { db = c }) (sym clean) in
      rw same before

  raised-IsAtomic :
      (message : String) → AtomicAt Good s (settled message (raise invalid_transaction_state))
  unfolding ◌>>=◌
  raised-IsAtomic message =
      settled-IsAtomic message (raise invalid_transaction_state) refl
        (record { returns = λ t e. absurd (ground arith); raises = λ e x. back h.before })

  module _ (hexdigest : String → String → String) (secret : String) (tolerance : ℕ)
      (r : WebhookRequest) where
    abbrev completed : Bool
    completed = str_eq r.event_type "deposit.completed"

    abbrev deposit_failed : Bool
    deposit_failed = str_eq r.event_type "deposit.failed"

    abbrev unknown : Response
    unknown = (400, error_body "Unknown event_type")

    dispatch-IsAtomic : (i : ℤ) → AtomicAt Good s (dispatch hexdigest secret tolerance r i)
    unfolding dispatch
    dispatch-IsAtomic (negsuc n) =
        if-IsAtomic completed _ _ (raised-IsAtomic "Confirmation failed") (
          if-IsAtomic deposit_failed _ _ (raised-IsAtomic "Failed to record deposit failure")
            (answer-IsAtomic unknown))
    dispatch-IsAtomic (pos i) =
        if-IsAtomic completed _ _ (confirmed-IsAtomic "Confirmation failed" i r.provider_reference)
          (if-IsAtomic deposit_failed _ _
            (failed-IsAtomic "Failed to record deposit failure" i r.reason)
            (answer-IsAtomic unknown))

    abbrev accepted_now : Action Response
    accepted_now =
        match_option r.timestamp
          (λ ts.
            if is_stale hexdigest secret tolerance s.context.now ts
            then pure (401, error_body "Webhook timestamp too old")
            else match_option r.reference (dispatch hexdigest secret tolerance r)
                (pure (400, error_body "Invalid reference_id — must be an integer")))
          (pure (400, error_body "Invalid timestamp format"))

    accepted_now-IsAtomic : AtomicAt Good s accepted_now
    accepted_now-IsAtomic =
        option-IsAtomic r.timestamp _ _
          (λ ts.
            if-IsAtomic _ _ _ (answer-IsAtomic _)
              (option-IsAtomic r.reference _ _ dispatch-IsAtomic (answer-IsAtomic _)))
          (answer-IsAtomic _)

    accepted-IsAtomic : AtomicAt Good s (accepted hexdigest secret tolerance r)
    unfolding accepted ◌>>=◌
    accepted-IsAtomic = record { holds = accepted_now-IsAtomic.holds }

    pub payment_webhook-Settles :
        Settles Good s.committed
          (payment_webhook hexdigest secret tolerance r s).0
          (payment_webhook hexdigest secret tolerance r s).1
    unfolding payment_webhook ◌>>=◌
    payment_webhook-Settles =
        elim (Result-cases (refuse_signature hexdigest secret tolerance r s).0) [
          | inr (e, x) ↦ rw (x, refuse_unchanged hexdigest secret tolerance r s) (unchanged (err e))
          | inl (o, x) ↦
              rw (x, refuse_unchanged hexdigest secret tolerance r s)
                (option-IsAtomic o _ _ answer-IsAtomic accepted-IsAtomic).holds
        ]

IsLedger-IsKept :
    (s : State) → s.db ≡ s.committed → IsLedger s.committed → IsKept (λ s'. IsLedger s'.committed) s
IsLedger-IsKept s clean h = record {
  before = h;
  confirms = λ i ref.
      Survives-tables IsLedger s (confirm_deposit i ref) h
        ((confirm_deposit-HasCommitted s.committed i ref).at s refl)
        (λ t done. confirm_deposit-IsLedger i ref s (rw clean h));
  fails = λ i reason.
      Survives-tables IsLedger s (fail_deposit i reason) h
        ((fail_deposit-HasCommitted s.committed i reason).at s refl)
        (λ t done. fail_deposit-IsLedger i reason s (rw clean h));
}

-- From a session without changes of its own and committed tables that satisfy the ledger's
-- invariant, any webhook leaves such a session and such tables, and unless it answers 200 the
-- committed tables are the ones it found.
pub payment_webhook-IsAtomic :
    (s : State)
    → s.db ≡ s.committed
    → IsLedger s.committed
    → (hexdigest : String → String → String) (secret : String) (tolerance : ℕ) (r : WebhookRequest)
    → IsAtomic s.committed
        (payment_webhook hexdigest secret tolerance r s).0
        (payment_webhook hexdigest secret tolerance r s).1
payment_webhook-IsAtomic s clean h hexdigest secret tolerance r =
    let x =
      payment_webhook-Settles (λ s'. IsLedger s'.committed) s clean (IsLedger-IsKept s clean h)
        hexdigest secret tolerance r in
    record { agree = x.agree; ledger = x.good; kept = x.kept }
