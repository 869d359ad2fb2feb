-- ===== src/System/Changes.antt =====
-- The changes of the tables that a request or a job may commit.
use paysika.Prelude.{ℕ, String, Option, true, some, ◌≡◌, ◌≢◌, inl, inr, arith}
use paysika.Prelude.Int.{ℤ, pos, ◌<ℤ◌, nonneg_of_pos, leb_ℤ-false}
use paysika.Domain.Enums.{is_pending}
use paysika.Store.{Db, Transaction}
use paysika.Accounts.Opening.{Extends}
use paysika.Balance.{new_snapshot, add_snapshot}
use paysika.Balance.Snapshots.{add_snapshot_else, new_snapshot-IsSound}
use paysika.Ledger.Effects.{with_transaction}
use paysika.Ledger.Invariant.{IsLedger, posted-IsLedger, Extends-IsLedger, IsLedger-transactions}
use paysika.Transfers.Outcome.{IsTransferred}
use paysika.Deposits.{find_transaction, update_rows, pending_row, meta_amount, meta_currency}
use paysika.Deposits.Outcome.{IsConfirmed}
use paysika.Deposits.Steps.{failed}
use paysika.Jobs.{with_payment}

-- From the tables before to the tables after.
pub data Change : Db → Db → Type 0 where
  -- nothing
  same : {d : Db} → Change d d
  -- accounts and users are added
  opens : {d d' : Db} → Extends d d' → Change d d'
  -- a transfer between two accounts
  transfers :
      {d d' : Db} (source target : ℕ) (amount : ℤ) (currency description : String)
      (key : Option String)
      → source ≢ target
      → pos 0 <ℤ amount
      → IsTransferred source target amount currency description key d d'
      → Change d d'
  -- a pending row of a deposit
  initiates :
      {d : Db} (account_id : ℕ) (amount : ℤ) (currency description : String) (key : Option String)
      (provider correlation_id : String) (now : ℕ)
      → pos 0 <ℤ amount
      → Change d (
          with_transaction
            (pending_row account_id amount currency description key provider correlation_id now)
            d)
  -- a pending deposit is completed, with its entries
  confirms : {d d' : Db} (i : ℕ) (ref : String) → IsConfirmed i ref d d' → Change d d'
  -- a pending transaction fails, without entries
  fails :
      {d : Db} (i : ℕ) (t : Transaction)
      → find_transaction i d ≡ some t
      → is_pending t.status ≡ true
      → Change d (failed t d)
  -- the provider's reference is noted on a transaction
  notes :
      {d : Db} (i : ℕ) (payment_id : String)
      → Change d
          (record d { transactions = update_rows i (with_payment payment_id) d.transactions })
  -- a snapshot is taken, if one is due
  snaps : {d : Db} (threshold a : ℕ) → Change d (add_snapshot (new_snapshot threshold a d) d)

confirmed-IsLedger :
    (i : ℕ) (ref : String) (d d' : Db) → IsConfirmed i ref d d' → IsLedger d → IsLedger d'
confirmed-IsLedger i ref d d' x h =
    let t = x.transaction in
    rw x.tables (
      IsLedger-transactions _ _ (
        posted-IsLedger x.clearing.id x.account.id t.id (meta_amount t) (meta_currency t) x.opened
          (nonneg_of_pos (meta_amount t)
            (leb_ℤ-false (meta_amount t) (pos 0) (ground (arith, x.whole))))
          (inl (ground (arith, x.system.found, x.system.system)))
          (Extends-IsLedger d x.opened x.grown h)))

snapped-IsLedger :
    (threshold a : ℕ) (d : Db) → IsLedger d → IsLedger (add_snapshot (new_snapshot threshold a d) d)
snapped-IsLedger threshold a d h =
    let (entries, accounts, transactions, records) =
      add_snapshot_else (new_snapshot threshold a d) d in
    record {
      sound = new_snapshot-IsSound threshold a d h.sound;
      balanced = λ t c. rw entries (h.balanced t c);
      solvent = λ b user. rw entries (h.solvent b (rw accounts at user));
      ordered = rw accounts h.ordered;
    }

pub Change-IsLedger : {d d' : Db} → Change d d' → IsLedger d → IsLedger d'
Change-IsLedger same h = h
Change-IsLedger {d} {d'} (opens x) h = Extends-IsLedger d d' x h
Change-IsLedger {d} (transfers source target amount currency description key apart positive x) h =
    rw x.tables (
      IsLedger-transactions _ _ (
        posted-IsLedger source target _ amount currency d (nonneg_of_pos amount positive)
          (inr x.covered.funds) h))
Change-IsLedger {d} (initiates account_id amount currency description key provider c now positive)
      h =
    IsLedger-transactions d _ h
Change-IsLedger {d} {d'} (confirms i ref x) h = confirmed-IsLedger i ref d d' x h
Change-IsLedger {d} (fails i t found pending) h = IsLedger-transactions d _ h
Change-IsLedger {d} (notes i payment_id) h = IsLedger-transactions d _ h
Change-IsLedger {d} (snaps threshold a) h = snapped-IsLedger threshold a d h
