-- ===== src/Deposits/Outcome.antt =====
-- What a confirmation does to the tables, whatever it answers.
use paysika.Prelude.{ℕ, ◌≡◌, ◌⊎◌, String, false, true, some, arith, Bool-cases, inl, inr}
use paysika.Errors.{invalid_transaction_state, Result, Error, ok, err, Result-cases}
use paysika.Domain.Enums.{is_pending}
use paysika.Store.{State, Db, Account, Transaction, ◌>>=◌}
use paysika.Accounts.{get_account, get_or_create_platform_clearing_account, find_account}
use paysika.Accounts.Opening.{Extends}
use paysika.Accounts.Clearing.{IsSystemAccount, platform_clearing-IsSystemAccount}
use paysika.Ledger.Invariant.{IsLedger}
use paysika.Deposits.{
  fail_deposit, find_transaction, meta_account, meta_currency, is_incomplete, confirm_pending,
  confirm_deposit, require_pending,
}
use paysika.Deposits.Steps.{failed, fail_pending-db, confirmed, get_account-found}
use paysika.Deposits.Ledger.{read_state, read_same, cleared_grown, confirm_posted, pending_same}

-- The row that a pending transaction's id has.
pub require_pending-found :
    (i : ℕ) (s : State) (t : Transaction)
    → (require_pending i s).0 ≡ ok t
    → (find_transaction i s.db ≡ some t) × (is_pending t.status ≡ true)
unfolding require_pending ◌>>=◌
require_pending-found i s t e = ground arith

-- A confirmation took place: the transaction was pending with complete metadata and a known account,
-- and the tables, but for a clearing account that may have been opened, have its entries and its
-- completed row more.
pub record IsConfirmed (i : ℕ) (ref : String) (d d' : Db) : Type 0 where
  pub transaction : Transaction
  pub found : find_transaction i d ≡ some transaction
  pub pending : is_pending transaction.status ≡ true
  pub whole : is_incomplete transaction ≡ false
  pub account : Account
  pub known : find_account (meta_account transaction) d ≡ some account
  pub clearing : Account
  pub opened : Db
  pub grown : Extends d opened
  pub system : IsSystemAccount (meta_currency transaction) clearing opened
  pub tables : d' ≡ confirmed ref transaction account clearing opened

-- An error without any entry: accounts may have been opened.
pub record IsRefused (d d' : Db) : Type 0 where
  pub entries : d'.entries ≡ d.entries
  pub transactions : d'.transactions ≡ d.transactions

-- The call raised, and left entries and transactions alone.
abbrev pub Refused : State → Result Transaction × State → Type 0
Refused s (r, s') = (e : Error) × (r ≡ err e) × IsRefused s.db s'.db

module _ (i : ℕ) (ref : String) (s : State) (h : IsLedger s.db) where
  abbrev pending_state : State
  pending_state = (require_pending i s).1

  pending-IsLedger : IsLedger pending_state.db
  pending-IsLedger = rw (pending_same i s) h

  abbrev answer : Result Transaction × State
  answer = confirm_deposit i ref s

  stops_lookup : (e : Error) → (require_pending i s).0 ≡ err e → Refused s answer
  unfolding confirm_deposit ◌>>=◌
  stops_lookup e x = (e, ground arith, ground (arith, pending_same i s))

  module _ (t : Transaction) (x : (require_pending i s).0 ≡ ok t) where
    confirm_continues : answer ≡ confirm_pending ref t pending_state
    unfolding confirm_deposit ◌>>=◌
    confirm_continues = ground arith

    stops_incomplete : is_incomplete t ≡ true → Refused s (confirm_pending ref t pending_state)
    unfolding confirm_pending ◌>>=◌
    stops_incomplete bad =
        (invalid_transaction_state, ground arith, ground (arith, pending_same i s))

    stops_unknown :
        (e : Error)
        → is_incomplete t ≡ false
        → (get_account (meta_account t) pending_state).0 ≡ err e
        → Refused s (confirm_pending ref t pending_state)
    unfolding confirm_pending ◌>>=◌
    stops_unknown e good y = (
      e,
      ground arith,
      ground (arith, pending_same i s, read_same (meta_account t) (meta_currency t) pending_state),
    )

    module _ (good : is_incomplete t ≡ false) (a : Account)
        (y : (get_account (meta_account t) pending_state).0 ≡ ok a) where
      abbrev opening : Result Account × State
      opening =
          get_or_create_platform_clearing_account (meta_currency t)
            (read_state (meta_account t) (meta_currency t) pending_state)

      grown_here : Extends s.db opening.1.db
      grown_here =
          rw (pending_same i s) at
            (cleared_grown (meta_account t) (meta_currency t) pending_state pending-IsLedger)

      stops_clearing :
          (e : Error) → opening.0 ≡ err e → Refused s (confirm_pending ref t pending_state)
      unfolding confirm_pending ◌>>=◌
      stops_clearing e z = (
        e,
        ground arith,
        record {
          entries = ground (arith, grown_here.entries);
          transactions = ground (arith, grown_here.transactions);
        },
      )

      takes_place :
          (c : Account)
          → opening.0 ≡ ok c
          → IsConfirmed i ref s.db (confirm_pending ref t pending_state).1.db
      takes_place c z =
          let (found, pending) = require_pending-found i s t x in
          record {
            transaction = t;
            found = found;
            pending = pending;
            whole = good;
            account = a;
            known = rw (pending_same i s) at (get_account-found (meta_account t) pending_state a y);
            clearing = c;
            opened = opening.1.db;
            grown = grown_here;
            system =
                platform_clearing-IsSystemAccount (meta_currency t)
                  (read_state (meta_account t) (meta_currency t) pending_state) c
                  (rw (read_same (meta_account t) (meta_currency t) pending_state)
                    pending-IsLedger.ordered)
                  z;
            tables = confirm_posted ref t pending_state pending-IsLedger good a y c z;
          }

  -- From tables that satisfy the ledger's invariant, a confirmation raises and leaves entries and
  -- transactions alone, or its transaction was pending with complete metadata and a known account,
  -- and the tables, but for accounts that may have been opened, have its two entries from a
  -- clearing account of the currency and its completed row more.
  pub confirm_deposit-outcome : Refused s answer ⊎ IsConfirmed i ref s.db answer.1.db
  confirm_deposit-outcome = elim (Result-cases (require_pending i s).0) [
    | inr (e, x) ↦ inl (stops_lookup e x)
    | inl (t, x) ↦ rw (confirm_continues t x) (elim (Bool-cases (is_incomplete t)) [
      | inl bad ↦ inl (stops_incomplete t x bad)
      | inr good ↦ elim (Result-cases (get_account (meta_account t) pending_state).0) [
        | inr (e, y) ↦ inl (stops_unknown t x e good y)
        | inl (a, y) ↦ elim (Result-cases (opening t x good a y).0) [
          | inr (e, z) ↦ inl (stops_clearing t x good a y e z)
          | inl (c, z) ↦ inr (takes_place t x good a y c z)
        ]
      ]
    ])
  ]

-- A failure that returns found the transaction pending, and leaves the tables with its row failed.
pub fail_deposit-returns :
    (i : ℕ) (reason : String) (s : State) (t : Transaction)
    → (fail_deposit i reason s).0 ≡ ok t
    → (u : Transaction) × (find_transaction i s.db ≡ some u)
      × (is_pending u.status ≡ true)
      × ((fail_deposit i reason s).1.db ≡ failed u s.db)
unfolding fail_deposit ◌>>=◌
fail_deposit-returns i reason s t done = elim (Result-cases (require_pending i s).0) [
  | inr (e, x) ↦ absurd (ground arith)
  | inl (u, x) ↦
      let (found, pending) = require_pending-found i s u x in
      (
        u,
        found,
        pending,
        ground (arith, fail_pending-db reason u (require_pending i s).1, pending_same i s),
      )
]
