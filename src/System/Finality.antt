-- ===== src/System/Finality.antt =====
-- A transaction that is completed or failed stays so, with the entries that it has.
use paysika.Prelude.{
  ◌∙◌, Option, ℕ, ◌<◌, ◌≡◌, ◌≢◌, ◌⊎◌, inl, inr, refl, String, some, true, false, List, [], ◌∷◌,
  ◌==◌, select, first, arith, ==→≡, first-satisfies,
}
use paysika.Prelude.Int.{ℤ}
use paysika.Domain.Enums.{TransactionStatus, is_pending}
use paysika.Store.{State, Db, Transaction, LedgerEntry, next_id}
use paysika.Store.Freshness.{lt-next_id, next_id_mono}
use paysika.Ledger.Sums.{posted}
use paysika.Deposits.{
  pending_row, meta_currency, meta_amount, fail, complete, update_row, find_transaction,
  update_rows,
}
use paysika.Deposits.Steps.{failed}
use paysika.Deposits.States.{find-update}
use paysika.System.Steps.{Setting, Run, here, next, IsAtRest, Step-Commits, Run-IsAtRest}
use paysika.Jobs.{with_payment}
use paysika.Balance.{new_snapshot, add_snapshot}
use paysika.System.Changes.{
  Change, same, opens, transfers, initiates, confirms, fails, notes, snaps,
}
use paysika.Deposits.Outcome.{IsConfirmed}
use paysika.Transfers.Outcome.{IsTransferred}
use paysika.Balance.Snapshots.{add_snapshot_else}
use paysika.Transfers.{transfer_row}

abbrev pub entries_in : ℕ → Db → List LedgerEntry
entries_in i d = select (λ e. e.transaction_id == i) d.entries

-- The transaction is there with a status, and is not pending.
pub record IsFinal (i : ℕ) (status : TransactionStatus) (d : Db) : Type 0 where
  pub transaction : Transaction
  pub found : find_transaction i d ≡ some transaction
  pub own_status : transaction.status ≡ status
  pub settled : is_pending status ≡ false

-- The status and the entries of a transaction are the same in both tables.
pub record IsSettled (i : ℕ) (status : TransactionStatus) (d d' : Db) : Type 0 where
  pub final : IsFinal i status d'
  pub entries : entries_in i d' ≡ entries_in i d

found-lt :
    (i : ℕ) (ts : List Transaction) (t : Transaction)
    → first (λ x. x.id == i) ts ≡ some t
    → i < next_id (λ (x : Transaction). x.id) ts
found-lt i [] t e = cc
found-lt i (x ∷ ts) t e = ground (
  arith,
  found-lt i ts t,
  lt-next_id (λ (y : Transaction). y.id) x ts,
  next_id_mono (λ (y : Transaction). y.id) x ts,
)

select-posted :
    (i debited credited t : ℕ) (amount : ℤ) (currency : String) (es : List LedgerEntry)
    → t ≢ i
    → select (λ e. e.transaction_id == i) (posted debited credited t amount currency es)
      ≡ select (λ e. e.transaction_id == i) es
select-posted i debited credited t amount currency es apart = ground arith

module _ (i : ℕ) (status : TransactionStatus) (d : Db) (h : IsFinal i status d) where
  unchanged :
      (d' : Db)
      → d'.transactions ≡ d.transactions
      → d'.entries ≡ d.entries
      → IsSettled i status d d'
  unchanged d' rows entries = record {
    final = record {
      transaction = h.transaction;
      found = rw rows h.found;
      own_status = h.own_status;
      settled = h.settled;
    };
    entries = rw entries refl;
  }

  -- A new row has another id.
  new_row :
      (d' : Db) (row : Transaction)
      → row.id ≡ next_id (λ (x : Transaction). x.id) d.transactions
      → d'.transactions ≡ row ∷ d.transactions
      → entries_in i d' ≡ entries_in i d
      → IsSettled i status d d'
  new_row d' row fresh rows entries =
      let lt = found-lt i d.transactions h.transaction h.found in
      record {
        final = record {
          transaction = h.transaction;
          found = ground (arith, rows, h.found, fresh, lt);
          own_status = h.own_status;
          settled = h.settled;
        };
        entries = entries;
      }

  -- A pending transaction is another one.
  other :
      (j : ℕ) (t : Transaction)
      → find_transaction j d ≡ some t
      → is_pending t.status ≡ true
      → t.id ≢ i
  other j t found pending e = ground (
    arith,
    h.found,
    h.own_status,
    h.settled,
    ==→≡ _ _ (first-satisfies (λ (x : Transaction). x.id == j) d.transactions t found),
  )

  updated :
      (d' : Db) (j : ℕ) (f : Transaction → Transaction)
      → ((x : Transaction) → (f x).id ≡ x.id)
      → (j ≢ i) ⊎ ((x : Transaction) → (f x).status ≡ x.status)
      → d'.transactions ≡ update_rows j f d.transactions
      → entries_in i d' ≡ entries_in i d
      → IsSettled i status d d'
  updated d' j f keep apart rows entries =
      let own =
        first-satisfies (λ (x : Transaction). x.id == i) d.transactions h.transaction h.found in
      record {
        final = record {
          transaction = update_row j f h.transaction;
          found = ground (arith, rows, h.found, find-update j i f d.transactions keep);
          own_status = elim apart [
            | inl differ ↦ ground (arith, own, h.own_status)
            | inr same_status ↦ ground (arith, h.own_status, same_status h.transaction)
          ];
          settled = h.settled;
        };
        entries = entries;
      }

  transferred-IsSettled :
      (d' : Db) (source target : ℕ) (amount : ℤ) (currency description : String)
      (key : Option String)
      → IsTransferred source target amount currency description key d d'
      → IsSettled i status d d'
  transferred-IsSettled d' source target amount currency description key x =
      let n = next_id (λ (t : Transaction). t.id) d.transactions in
      let lt = found-lt i d.transactions h.transaction h.found in
      new_row d' (transfer_row key x.correlation_id description x.now n) refl (rw x.tables refl) (
        rw x.tables
          (select-posted i source target n amount currency d.entries (λ e. ground (arith, lt))))

  confirmed-IsSettled :
      (d' : Db) (j : ℕ) (ref : String) → IsConfirmed j ref d d' → IsSettled i status d d'
  confirmed-IsSettled d' j ref x =
      let t = x.transaction in
      let differ = other j t x.found x.pending in
      updated d' t.id (complete ref) (λ y. refl) (inl differ)
        (ground (arith, x.tables, x.grown.transactions))
        (rw x.tables (
          rw x.grown.entries (
            select-posted i x.clearing.id x.account.id t.id (meta_amount t) (meta_currency t)
              d.entries differ)))

  failed-IsSettled :
      (j : ℕ) (t : Transaction)
      → find_transaction j d ≡ some t
      → is_pending t.status ≡ true
      → IsSettled i status d (failed t d)
  failed-IsSettled j t found pending =
      updated (failed t d) t.id fail (λ y. refl) (inl (other j t found pending)) refl refl

  snapped-IsSettled :
      (threshold a : ℕ) → IsSettled i status d (add_snapshot (new_snapshot threshold a d) d)
  snapped-IsSettled threshold a =
      let (entries, accounts, transactions, records) =
        add_snapshot_else (new_snapshot threshold a d) d in
      unchanged (add_snapshot (new_snapshot threshold a d) d) transactions entries

  noted-IsSettled :
      (j : ℕ) (payment_id : String)
      → IsSettled i status d
          (record d { transactions = update_rows j (with_payment payment_id) d.transactions })
  noted-IsSettled j payment_id =
      updated (record d { transactions = update_rows j (with_payment payment_id) d.transactions }) j
        (with_payment payment_id) (λ y. refl) (inr (λ y. refl)) refl refl

pub Change-IsSettled :
    (i : ℕ) (status : TransactionStatus) {d d' : Db}
    → Change d d'
    → IsFinal i status d
    → IsSettled i status d d'
Change-IsSettled i status {d} same h = unchanged i status d h d refl refl
Change-IsSettled i status {d} {d'} (opens x) h = unchanged i status d h d' x.transactions x.entries
Change-IsSettled i status {d} {d'}
      (transfers source target amount currency description key apart positive x) h =
    transferred-IsSettled i status d h d' source target amount currency description key x
Change-IsSettled i status {d} {d'}
      (initiates account_id amount currency description key provider c now positive) h =
    new_row i status d h d'
      (pending_row account_id amount currency description key provider c now
        (next_id (λ (t : Transaction). t.id) d.transactions))
      refl refl refl
Change-IsSettled i status {d} {d'} (confirms j ref x) h =
    confirmed-IsSettled i status d h d' j ref x
Change-IsSettled i status {d} (fails j t found pending) h =
    failed-IsSettled i status d h j t found pending
Change-IsSettled i status {d} (notes j payment_id) h = noted-IsSettled i status d h j payment_id
Change-IsSettled i status {d} (snaps threshold a) h = snapped-IsSettled i status d h threshold a

-- In every run of requests and jobs from rest, a transaction whose status is completed, or failed,
-- keeps that status, and no entry of it is written or removed: no deposit is credited twice, and none
-- that has failed is credited.
pub Run-IsSettled :
    (x : Setting) (i : ℕ) (status : TransactionStatus) {s t : State}
    → Run x s t
    → IsAtRest s
    → IsFinal i status s.committed
    → IsSettled i status s.committed t.committed
Run-IsSettled x i status {s} here h final =
    unchanged i status s.committed final s.committed refl refl
Run-IsSettled x i status {s} {t} (next run step) h final =
    let before = Run-IsSettled x i status run h final in
    let after =
      Change-IsSettled i status (Step-Commits x step (Run-IsAtRest x run h)).change before.final in
    record { final = after.final; entries = after.entries ∙ before.entries }
