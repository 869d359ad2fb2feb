-- ===== src/System/Refines.antt =====
-- Every change of the tables is a step of the bank.
use paysika.Prelude.{ℕ, String, inl, inr, refl, arith}
use paysika.Prelude.Int.{pos, leb_ℤ-false}
use paysika.Store.{Transaction, next_id, Db}
use paysika.Balance.{new_snapshot, add_snapshot}
use paysika.Balance.Snapshots.{add_snapshot_else}
use paysika.Deposits.{meta_amount, meta_currency}
use paysika.Deposits.Outcome.{IsConfirmed}
use paysika.System.Changes.{
  Change, same, opens, transfers, initiates, confirms, fails, notes, snaps,
}
use paysika.System.Bank.{BankStep, bank_of, still, posted-BankStep}

snapped-BankStep :
    (threshold a : ℕ) (d : Db)
    → BankStep (bank_of d) (bank_of (add_snapshot (new_snapshot threshold a d) d))
snapped-BankStep threshold a d =
    let (entries, accounts, transactions, records) =
      add_snapshot_else (new_snapshot threshold a d) d in
    still d (add_snapshot (new_snapshot threshold a d) d) entries (λ b user. rw accounts at user)

confirmed-BankStep :
    (i : ℕ) (ref : String) (d d' : Db) → IsConfirmed i ref d d' → BankStep (bank_of d) (bank_of d')
confirmed-BankStep i ref d d' x =
    posted-BankStep d d' x.clearing.id x.account.id x.transaction.id (meta_amount x.transaction)
      (meta_currency x.transaction)
      (leb_ℤ-false (meta_amount x.transaction) (pos 0) (ground (arith, x.whole)))
      (inl (ground (arith, x.tables, x.system.found, x.system.system)))
      (ground (arith, x.tables, x.grown.entries))
      (λ a user. x.grown.others a (ground (arith, x.tables, user)))

-- Whatever a request or a job commits, the bank takes one step: all balances stay, or one positive
-- amount moves between two accounts, of which the payer is the platform's or holds it; and no account
-- of the platform becomes a customer's.
pub Change-BankStep : {d d' : Db} → Change d d' → BankStep (bank_of d) (bank_of d')
Change-BankStep {d} same = still d d refl (λ a user. user)
Change-BankStep {d} {d'} (opens x) = still d d' x.entries x.others
Change-BankStep {d} {d'}
      (transfers source target amount currency description key apart positive x) =
    posted-BankStep d d' source target (next_id (λ (t : Transaction). t.id) d.transactions) amount
      currency positive (inr x.covered.funds) (ground (arith, x.tables))
      (λ a user. ground (arith, x.tables, user))
Change-BankStep {d} {d'}
      (initiates account_id amount currency description key provider c now positive) =
    still d d' refl (λ a user. user)
Change-BankStep {d} {d'} (confirms i ref x) = confirmed-BankStep i ref d d' x
Change-BankStep {d} {d'} (fails i t found pending) = still d d' refl (λ a user. user)
Change-BankStep {d} {d'} (notes i payment_id) = still d d' refl (λ a user. user)
Change-BankStep {d} (snaps threshold a) = snapped-BankStep threshold a d
