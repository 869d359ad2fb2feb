-- ===== src/System/Steps.antt =====
-- The requests and the jobs, one after the other, each from its start to its end.
use paysika.Prelude.{none, ℕ, String, Bool, Option, List, true, ◌≡◌, inl, inr, refl, sym}
use paysika.Prelude.Int.{ℤ}
use paysika.Store.{Action, State, Context, Transaction, IdempotencyRecord, CachedBalance}
use paysika.Store.Keeps.{untouched, Untouched}
use paysika.Ledger.Invariant.{IsLedger}
use paysika.Idempotency.{Response, require_idempotency_key}
use paysika.Idempotency.Commits.{require_idempotency_key_commits}
use paysika.Queries.{Pagination}
use paysika.Api.{
  TransferRequest, DepositRequest, WebhookRequest, create_transfer, create_deposit, payment_webhook,
  end_request,
}
use paysika.Api.Accounts.{AccountCreate}
use paysika.Api.Accounts as Endpoint
use paysika.Auth.{Library, register_user}
use paysika.Jobs.{PaymentAnswer, run_notify_provider, run_create_snapshot}
use paysika.System.Commits.{
  payment_webhook-Commits, Commits-change, create_transfer-Commits, Commits, Change-along,
  Commits-nothing,
}
use paysika.Jobs.Committed.{run_notify_provider_commits, run_create_snapshot_commits}
use paysika.Auth.Registration.{register_user_commits}
use paysika.System.Changes.{same, snaps, opens, notes, Change-IsLedger}
use paysika.System.Opens.{create_account-Commits, create_deposit-Commits}
use paysika.Api.Accounts.Access.{reads-Keeps}

-- What the libraries and the configuration give the handlers.
pub record Setting : Type 0 where
  pub library : Library
  pub hexdigest : String → String → String
  pub secret : String
  pub tolerance : ℕ
  pub paginate : List Transaction → ℤ → ℤ → Pagination
  pub items_per_page : ℤ
  pub max_per_page : ℤ

-- A request or a job that runs and ends. The cache may lose or change whatever it holds between them.
pub data Step (x : Setting) : State → State → Type 0 where
  transfers :
      (user : ℕ) (key : Option String) (hash : String) (r : TransferRequest) (s : State)
      → Step x s (end_request (require_idempotency_key key hash (create_transfer user r) s).1)
  deposits :
      (user : ℕ) (key : Option String) (hash : String) (r : DepositRequest) (s : State)
      → Step x s (end_request (require_idempotency_key key hash (create_deposit user r) s).1)
  webhooks :
      (r : WebhookRequest) (s : State)
      → Step x s (end_request (payment_webhook x.hexdigest x.secret x.tolerance r s).1)
  opens_account :
      (user : ℕ) (r : AccountCreate) (s : State)
      → Step x s (end_request (Endpoint.create_account user r s).1)
  lists : (user : ℕ) (s : State) → Step x s (end_request (Endpoint.list_accounts user s).1)
  asks_balance :
      (user account_id : ℕ) (s : State)
      → Step x s (end_request (Endpoint.get_balance user account_id s).1)
  asks_transactions :
      (user account_id : ℕ) (page per_page : Option ℤ) (s : State)
      → Step x s (
          end_request
            (Endpoint.get_account_transactions x.paginate x.items_per_page x.max_per_page user
              account_id page per_page s).1)
  registers :
      (username email password : String) (s : State)
      → Step x s (end_request (register_user x.library username email password s).1)
  notifies :
      (initialised : Bool) (create_payment : ℕ → ℤ → String → Option PaymentAnswer) (i : ℕ)
      (amount : ℤ) (currency : String) (s : State)
      → Step x s
          (end_request (run_notify_provider initialised create_payment i amount currency s).1)
  snapshots : (a : ℕ) (s : State) → Step x s (end_request (run_create_snapshot true a s).1)
  next_request :
      (context : Context) (balances : List (ℕ × CachedBalance))
      (responses : List (String × IdempotencyRecord)) (s : State)
      → Step x s
          (record s { context = context; balance_cache = balances; idempotency_cache = responses })

pub data Run (x : Setting) : State → State → Type 0 where
  here : {s : State} → Run x s s
  next : {s t u : State} → Run x s t → Step x t u → Run x s u

-- Between requests: the session has no changes of its own, and the committed tables satisfy the
-- ledger's invariant.
pub record IsAtRest (s : State) : Type 0 where
  pub clean : s.db ≡ s.committed
  pub ledger : IsLedger s.committed

Untouched-Commits :
    {A : Type 0} (s : State) (m : State → A × State)
    → s.db ≡ s.committed
    → Untouched s (m s).1
    → Commits s (end_request (m s).1)
Untouched-Commits s m clean kept = Commits-nothing s clean (m s).1 kept.committed

decorated-Commits :
    (key : Option String) (hash : String) (handler : Action Response) (s : State)
    → s.db ≡ s.committed
    → Commits s (end_request (handler s).1)
    → Commits s (end_request (require_idempotency_key key hash handler s).1)
decorated-Commits key hash handler s clean x =
    elim (require_idempotency_key_commits key hash handler s) [
      | inl kept ↦ Commits-nothing s clean (require_idempotency_key key hash handler s).1 kept
      | inr done ↦ record { agree = refl; change = Change-along refl (sym done) x.change }
    ]

registers-Commits :
    (library : Library) (username email password : String) (s : State)
    → IsAtRest s
    → Commits s (end_request (register_user library username email password s).1)
registers-Commits library username email password s h =
    let s' = (register_user library username email password s).1 in
    let (grown, done) =
      register_user_commits library username email password s (rw h.clean h.ledger.ordered) in
    elim done [
      | inl kept ↦ Commits-nothing s h.clean s' kept
      | inr all ↦ Commits-change s h.clean s' all (opens grown)
    ]

notifies-Commits :
    (initialised : Bool) (create_payment : ℕ → ℤ → String → Option PaymentAnswer) (i : ℕ)
    (amount : ℤ) (currency : String) (s : State)
    → s.db ≡ s.committed
    → Commits s (end_request (run_notify_provider initialised create_payment i amount currency s).1)
notifies-Commits initialised create_payment i amount currency s clean =
    let s' = (run_notify_provider initialised create_payment i amount currency s).1 in
    elim (run_notify_provider_commits initialised create_payment i amount currency s) [
      | inl kept ↦ Commits-nothing s clean s' kept
      | inr (answer, made, good, noted, all) ↦
          Commits-change s clean s' all (Change-along refl (sym noted) (notes i answer.payment_id))
    ]

snapshots-Commits :
    (a : ℕ) (s : State)
    → s.db ≡ s.committed
    → Commits s (end_request (run_create_snapshot true a s).1)
snapshots-Commits a s clean =
    let (taken, all) = run_create_snapshot_commits a s in
    Commits-change s clean (run_create_snapshot true a s).1 all
      (Change-along refl (sym taken) (snaps s.context.snapshot_threshold a))

-- What any request or job commits, from rest, is one of the listed changes.
pub Step-Commits : (x : Setting) {s t : State} → Step x s t → IsAtRest s → Commits s t
Step-Commits x (transfers user key hash r s) h =
    decorated-Commits key hash (create_transfer user r) s h.clean
      (create_transfer-Commits user r s h.clean h.ledger)
Step-Commits x (deposits user key hash r s) h =
    decorated-Commits key hash (create_deposit user r) s h.clean
      (create_deposit-Commits user r s h.clean)
Step-Commits x (webhooks r s) h =
    payment_webhook-Commits x.hexdigest x.secret x.tolerance r s h.clean h.ledger
Step-Commits x (opens_account user r s) h = create_account-Commits user r s h.clean h.ledger
Step-Commits x (lists user s) h = Untouched-Commits s (Endpoint.list_accounts user) h.clean (
    (reads-Keeps x.paginate x.items_per_page x.max_per_page user 0 none none s).0.at s
      (untouched s))
Step-Commits x (asks_balance user account_id s) h =
    Untouched-Commits s (Endpoint.get_balance user account_id) h.clean (
      (reads-Keeps x.paginate x.items_per_page x.max_per_page user account_id none none s).1.at s
        (untouched s))
Step-Commits x (asks_transactions user account_id page per_page s) h =
    Untouched-Commits s
      (Endpoint.get_account_transactions x.paginate x.items_per_page x.max_per_page user account_id
        page per_page)
      h.clean
      ((reads-Keeps x.paginate x.items_per_page x.max_per_page user account_id page per_page s).2.at
        s (untouched s))
Step-Commits x (registers username email password s) h =
    registers-Commits x.library username email password s h
Step-Commits x (notifies initialised create_payment i amount currency s) h =
    notifies-Commits initialised create_payment i amount currency s h.clean
Step-Commits x (snapshots a s) h = snapshots-Commits a s h.clean
Step-Commits x (next_request context balances responses s) h = record {
  agree = h.clean;
  change = same;
}

-- From rest, a request or a job ends at rest: whatever it is given and whether it succeeds, the
-- session has no changes of its own and the committed tables satisfy the ledger's invariant.
pub Step-IsAtRest : (x : Setting) {s t : State} → Step x s t → IsAtRest s → IsAtRest t
Step-IsAtRest x step h =
    let c = Step-Commits x step h in
    record { clean = c.agree; ledger = Change-IsLedger c.change h.ledger }

-- In every run of requests and jobs that starts at rest, in any order and whatever the cache does in
-- between, the session is at rest after each: each snapshot is the sum of its entries, the entries of
-- every transaction cancel in each currency, and no account but a clearing account is overdrawn.
pub Run-IsAtRest : (x : Setting) {s t : State} → Run x s t → IsAtRest s → IsAtRest t
Run-IsAtRest x here h = h
Run-IsAtRest x (next run step) h = Step-IsAtRest x step (Run-IsAtRest x run h)
