-- ===== src/Deposits/States.antt =====
-- The states of a deposit: it leaves PENDING once, and only by a confirmation or a failure.
use paysika.Prelude.{
  str_eq, true, ==→≡, if◌then◌else◌, inr, inl, first-satisfies, false, ◌≢◌, ℕ, ◌≡◌, refl, String,
  Option, none, some, List, [], ◌∷◌, arith, ◌==◌, first,
}
use paysika.Prelude.Int.{◌-ℤ◌, ◌+ℤ◌}
use paysika.Errors.{Result-cases, ok, err, invalid_transaction_state}
use paysika.Domain.Enums.{TransactionStatus}
use paysika.Store.{Account, State, Db, Transaction, ◌>>=◌}
use paysika.Deposits.{
  meta_currency, meta_account, meta_amount, fail, complete, find_transaction, update_row,
  update_rows, require_pending, confirm_deposit, fail_deposit,
}
use paysika.Ledger.Invariant.{IsLedger}
use paysika.Deposits.Outcome.{require_pending-found, confirm_deposit-outcome, IsConfirmed}
use paysika.Balance.Reads.{balance_of}
use paysika.Deposits.Steps.{fail_pending-db}
use paysika.Deposits.Ledger.{pending_same}
use paysika.Accounts.{find_account}
use paysika.Ledger.Sums.{sum-posted}

-- The status of a transaction, if there is one.
abbrev pub status_of : ℕ → Db → Option TransactionStatus
status_of t d = elim (find_transaction t d) [ none ↦ none | some x ↦ some x.status ]

-- An update that keeps ids is found under the id that it changes, and nowhere else.
pub find-update :
    (t u : ℕ) (f : Transaction → Transaction) (ts : List Transaction)
    → ((x : Transaction) → (f x).id ≡ x.id)
    → first (λ x. x.id == u) (update_rows t f ts)
      ≡ (elim (first (λ x. x.id == u) ts) [ none ↦ none | some x ↦ some (update_row t f x) ])
find-update t u f [] keep = refl
find-update t u f (x ∷ xs) keep = ground (arith, keep x, find-update t u f xs keep)

-- For an id without a pending transaction a confirmation and a failure both raise the error of an
-- invalid state, and change nothing.
pub not_pending :
    (t : ℕ) (s : State) (text : String)
    → status_of t s.db ≢ some TransactionStatus.pending
    → (confirm_deposit t text s ≡ (err invalid_transaction_state, s))
      × (fail_deposit t text s ≡ (err invalid_transaction_state, s))
unfolding confirm_deposit fail_deposit require_pending ◌>>=◌
not_pending t s text h = (ground arith, ground arith)

completed_after :
    (i : ℕ) (ref : String) (d d' : Db)
    → IsConfirmed i ref d d'
    → status_of i d' ≡ some TransactionStatus.completed
completed_after i ref d d' x = ground (
  arith,
  x.tables,
  x.grown.transactions,
  x.found,
  find-update x.transaction.id i (complete ref) d.transactions (λ y. refl),
  first-satisfies (λ (y : Transaction). y.id == i) d.transactions x.transaction x.found,
)

-- From tables that satisfy the ledger's invariant, a deposit is confirmed once: after a
-- confirmation that returned, any further confirmation or failure of the same transaction raises
-- the error of an invalid state and changes nothing, so no second pair of entries is written.
pub confirm_once :
    (i : ℕ) (ref text : String) (s : State) (t : Transaction)
    → IsLedger s.db
    → (confirm_deposit i ref s).0 ≡ ok t
    → let s' = (confirm_deposit i ref s).1 in
      (confirm_deposit i text s' ≡ (err invalid_transaction_state, s'))
      × (fail_deposit i text s' ≡ (err invalid_transaction_state, s'))
confirm_once i ref text s t h done = elim (confirm_deposit-outcome i ref s h) [
  | inl (e, failed, same) ↦ absurd (ground arith)
  | inr x ↦
      not_pending i (confirm_deposit i ref s).1 text
        (λ p. ground (arith, completed_after i ref s.db (confirm_deposit i ref s).1.db x))
]

failed_after :
    (i : ℕ) (text : String) (s : State) (t : Transaction)
    → (fail_deposit i text s).0 ≡ ok t
    → (status_of i (fail_deposit i text s).1.db ≡ some TransactionStatus.failed)
      × ((fail_deposit i text s).1.db.entries ≡ s.db.entries)
unfolding fail_deposit ◌>>=◌
failed_after i text s t done = elim (Result-cases (require_pending i s).0) [
  | inr (e, x) ↦ absurd (ground arith)
  | inl (u, x) ↦
      let (found, pending) = require_pending-found i s u x in
      let s1 = (require_pending i s).1 in
      ground (
        arith,
        fail_pending-db text u s1,
        pending_same i s,
        find-update u.id i fail s.db.transactions (λ y. refl),
        first-satisfies (λ (y : Transaction). y.id == i) s.db.transactions u found,
      )
]

-- A deposit fails once, without entries: after a failure that returned no entry has been written, and
-- any further confirmation or failure of the same transaction raises and changes nothing.
pub fail_once :
    (i : ℕ) (reason text : String) (s : State) (t : Transaction)
    → (fail_deposit i reason s).0 ≡ ok t
    → let s' = (fail_deposit i reason s).1 in
      (s'.db.entries ≡ s.db.entries)
      × (confirm_deposit i text s' ≡ (err invalid_transaction_state, s'))
      × (fail_deposit i text s' ≡ (err invalid_transaction_state, s'))
fail_once i reason text s t done =
    let (now, kept) = failed_after i reason s t done in
    let (c, f) = not_pending i (fail_deposit i reason s).1 text (λ p. ground (arith, now)) in
    (kept, c, f)

module _ (i : ℕ) (ref : String) (d d' : Db) (x : IsConfirmed i ref d d')
    (user : x.account.is_system ≡ false) where
  own_id : x.account.id ≡ meta_account x.transaction
  own_id = ==→≡ _ _ (
      first-satisfies (λ (a : Account). a.id == meta_account x.transaction) d.accounts x.account
        x.known)

  apart : x.clearing.id ≢ x.account.id
  apart e =
      let kept = x.grown.found (meta_account x.transaction) x.account x.known in
      ground (arith, x.system.found, x.system.system, kept, own_id)

  moved :
      (b : ℕ)
      → balance_of b d' ≡ (
          if b == x.clearing.id
          then balance_of b d -ℤ meta_amount x.transaction
          else if b == meta_account x.transaction
          then balance_of b d +ℤ meta_amount x.transaction
          else balance_of b d)
  moved b =
      rw
        (
          x.tables,
          sum-posted x.clearing.id x.account.id x.transaction.id (meta_amount x.transaction)
              (meta_currency x.transaction) x.opened.entries apart b,
        )
        (rw x.grown.entries (rw own_id refl))

-- From tables that satisfy the ledger's invariant, a confirmation that returns, of a transaction
-- whose account is no clearing account, credits that account with the amount in the transaction's
-- metadata, debits a clearing account of the currency there, and moves no other balance.
pub confirm_credits :
    (i : ℕ) (ref : String) (s : State) (t u : Transaction) (a : Account)
    → IsLedger s.db
    → (confirm_deposit i ref s).0 ≡ ok t
    → find_transaction i s.db ≡ some u
    → find_account (meta_account u) s.db ≡ some a
    → a.is_system ≡ false
    → (c : Account) × (c.is_system ≡ true)
      × (str_eq c.currency (meta_currency u) ≡ true)
      × ((b : ℕ)
          → balance_of b (confirm_deposit i ref s).1.db ≡ (
              if b == c.id
              then balance_of b s.db -ℤ meta_amount u
              else if b == meta_account u
              then balance_of b s.db +ℤ meta_amount u
              else balance_of b s.db))
confirm_credits i ref s t u a h done found known user = elim (confirm_deposit-outcome i ref s h) [
  | inl (e, failed, same) ↦ absurd (ground arith)
  | inr x ↦
      let d' = (confirm_deposit i ref s).1.db in
      let same_row : x.transaction ≡ u = ground (arith, x.found) in
      let same_account : x.account ≡ a = ground (arith, x.known, same_row) in
      let own : x.account.is_system ≡ false = ground (arith, same_account) in
      (
        x.clearing,
        x.system.system,
        ground (arith, x.system.same_currency, same_row),
        (λ b. rw same_row at (moved i ref s.db d' x own b)),
      )
]
