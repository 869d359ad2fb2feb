-- ===== src/Deposits/Ledger.antt =====
-- Deposits keep the ledger's invariant.
use paysika.Prelude.{ℕ, ◌≡◌, String, true, false, ◌∷◌, [], arith, Bool-cases, inl, inr}
use paysika.Prelude.Int.{nonneg_of_pos, pos, leb_ℤ-false}
use paysika.Errors.{Error, ok, err, Result-cases}
use paysika.Store.{State, Account, Transaction, ◌>>=◌}
use paysika.Store.Keeps.{untouched}
use paysika.Lock.{lock_accounts}
use paysika.Lock.Order.{lock_accounts-Keeps, lock_accounts-returns}
use paysika.Accounts.{get_account, get_or_create_platform_clearing_account}
use paysika.Accounts.Opening.{is_clearing_id, Extends, Extends-refl, platform_clearing-ExtendsFrom}
use paysika.Accounts.Clearing.{platform_clearing-IsSystemAccount}
use paysika.Ledger.Invariant.{IsLedger, posted-IsLedger, Extends-IsLedger, IsLedger-transactions}
use paysika.Deposits.{
  meta_account, meta_amount, meta_currency, is_incomplete, confirm_pending, confirm_deposit,
  require_pending, fail_deposit,
}
use paysika.Deposits.Steps.{
  fail_pending-db, get_account-Keeps, require_pending-Keeps, post_confirmed-db, confirmed,
}

-- The states of a deposit for an account and a currency: the account read, the clearing account there,
-- the locks taken.
module _ (account_id : ℕ) (currency : String) (s : State) where
  abbrev pub read_state : State
  read_state = (get_account account_id s).1

  abbrev pub cleared_state : State
  cleared_state = (get_or_create_platform_clearing_account currency read_state).1

  abbrev pub locked_state : Account → Account → State
  locked_state account clearing = (lock_accounts (account.id ∷ clearing.id ∷ []) cleared_state).1

  pub read_same : read_state.db ≡ s.db
  read_same = ((get_account-Keeps account_id s).at s (untouched s)).db

  pub locked_same : (a c : Account) → (locked_state a c).db ≡ cleared_state.db
  locked_same a c =
      ((lock_accounts-Keeps (a.id ∷ c.id ∷ []) cleared_state).at cleared_state
        (untouched cleared_state)).db

  module _ (h : IsLedger s.db) where
    pub cleared_grown : Extends s.db cleared_state.db
    cleared_grown =
        (platform_clearing-ExtendsFrom currency s.db).at read_state
          (rw read_same (Extends-refl s.db h.ordered))

    pub cleared-IsLedger : IsLedger cleared_state.db
    cleared-IsLedger = Extends-IsLedger s.db cleared_state.db cleared_grown h

    -- The clearing account that was returned is one.
    pub cleared_system :
        (c : Account)
        → (get_or_create_platform_clearing_account currency read_state).0 ≡ ok c
        → is_clearing_id c.id cleared_state.db ≡ true
    cleared_system c e =
        let x =
          platform_clearing-IsSystemAccount currency read_state c (rw read_same h.ordered) e in
        ground (arith, x.found, x.system)

module _ (ref : String) (t : Transaction) (s : State) (h : IsLedger s.db) where
  abbrev final : State
  final = (confirm_pending ref t s).1

  abbrev account_id : ℕ
  account_id = meta_account t

  abbrev currency : String
  currency = meta_currency t

  pub confirm_incomplete : is_incomplete t ≡ true → final.db ≡ s.db
  unfolding confirm_pending ◌>>=◌
  confirm_incomplete bad = ground arith

  module _ (good : is_incomplete t ≡ false) where
    pub confirm_unknown : (e : Error) → (get_account account_id s).0 ≡ err e → final.db ≡ s.db
    unfolding confirm_pending ◌>>=◌
    confirm_unknown e x = ground (arith, read_same account_id currency s)

    module _ (a : Account) (found : (get_account account_id s).0 ≡ ok a) where
      pub confirm_uncleared :
          (e : Error)
          → (get_or_create_platform_clearing_account currency (read_state account_id currency s)).0
            ≡ err e
          → final.db ≡ (cleared_state account_id currency s).db
      unfolding confirm_pending ◌>>=◌
      confirm_uncleared e x = ground arith

      pub confirm_posted :
          (c : Account)
          → (get_or_create_platform_clearing_account currency (read_state account_id currency s)).0
            ≡ ok c
          → final.db ≡ confirmed ref t a c (cleared_state account_id currency s).db
      unfolding confirm_pending ◌>>=◌
      confirm_posted c x = ground (
        arith,
        lock_accounts-returns (a.id ∷ c.id ∷ []) (cleared_state account_id currency s),
        locked_same account_id currency s a c,
        post_confirmed-db ref t a c (locked_state account_id currency s a c),
      )

      confirmed-IsLedger :
          (c : Account)
          → (get_or_create_platform_clearing_account currency (read_state account_id currency s)).0
            ≡ ok c
          → IsLedger (confirmed ref t a c (cleared_state account_id currency s).db)
      confirmed-IsLedger c x = IsLedger-transactions _ _ (
          posted-IsLedger c.id a.id t.id (meta_amount t) currency
            (cleared_state account_id currency s).db
            (nonneg_of_pos (meta_amount t) (leb_ℤ-false (meta_amount t) (pos 0) (ground arith)))
            (inl (cleared_system account_id currency s h c x))
            (cleared-IsLedger account_id currency s h))

  pub confirm_pending-IsLedger : IsLedger final.db
  confirm_pending-IsLedger = elim (Bool-cases (is_incomplete t)) [
    | inl bad ↦ rw (confirm_incomplete bad) h
    | inr good ↦ elim (Result-cases (get_account account_id s).0) [
      | inr (e, x) ↦ rw (confirm_unknown good e x) h
      | inl (a, found) ↦
          elim (Result-cases
            (get_or_create_platform_clearing_account currency
              (read_state account_id currency s)).0) [
                | inr (e, x) ↦
                    rw (confirm_uncleared good a found e x)
                      (cleared-IsLedger account_id currency s h)
                | inl (c, x) ↦
                    rw (confirm_posted good a found c x) (confirmed-IsLedger good a found c x)
              ]
    ]
  ]

pub pending_same : (t : ℕ) (s : State) → (require_pending t s).1.db ≡ s.db
pending_same t s = ((require_pending-Keeps t s).at s (untouched s)).db

-- From tables that satisfy the ledger's invariant, every confirmation, whether it returns or
-- raises, leaves tables that satisfy it.
pub confirm_deposit-IsLedger :
    (transaction_id : ℕ) (ref : String) (s : State)
    → IsLedger s.db
    → IsLedger (confirm_deposit transaction_id ref s).1.db
unfolding confirm_deposit ◌>>=◌
confirm_deposit-IsLedger transaction_id ref s h =
    let same = pending_same transaction_id s in
    elim (Result-cases (require_pending transaction_id s).0) [
      | inr (e, x) ↦ rw x (rw same h)
      | inl (t, x) ↦
          rw x (confirm_pending-IsLedger ref t (require_pending transaction_id s).1 (rw same h))
    ]

-- From tables that satisfy the ledger's invariant, every failure of a deposit, whether it returns
-- or raises, leaves tables that satisfy it.
pub fail_deposit-IsLedger :
    (transaction_id : ℕ) (reason : String) (s : State)
    → IsLedger s.db
    → IsLedger (fail_deposit transaction_id reason s).1.db
unfolding fail_deposit ◌>>=◌
fail_deposit-IsLedger transaction_id reason s h =
    let same = pending_same transaction_id s in
    elim (Result-cases (require_pending transaction_id s).0) [
      | inr (e, x) ↦ rw x (rw same h)
      | inl (t, x) ↦
          let s1 = (require_pending transaction_id s).1 in
          rw (x, fail_pending-db reason t s1) (IsLedger-transactions s1.db _ (rw same h))
    ]
