-- ===== src/Deposits/Stale.antt =====
-- A confirmation that goes on with a row that it read before another session confirmed it: nothing
-- locks the row between the check of its status and the entries.
use paysika.Prelude.{ℕ, String, ◌≡◌, ◌≢◌, ◌∙◌, some, true, false, arith}
use paysika.Prelude.Int.{◌+ℤ◌}
use paysika.Errors.{ok}
use paysika.Domain.Enums.{Currency, of_value, is_pending}
use paysika.Store.{State, Account, Transaction}
use paysika.Accounts.{find_account}
use paysika.Balance.Reads.{balance_of}
use paysika.Ledger.Sums.{sum-posted}
use paysika.Transfers.Success.{IsReady}
use paysika.Deposits.{
  find_transaction, meta_account, meta_amount, meta_currency, is_incomplete, confirm_pending,
  confirm_deposit, complete,
}
use paysika.Deposits.Steps.{confirmed}
use paysika.Deposits.Success.{IsOpened, confirm_deposit-succeeds, confirm_pending-succeeds}

-- Two sessions have read one pending deposit of an account that is not the clearing account. After the
-- first has confirmed it, the second, which sees the tables that the first has left and goes on with
-- the row that it read, confirms it again: both return, and the account is credited twice.
pub confirm_stale :
    (i : ℕ) (ref other : String) (s b : State) (t : Transaction) (a : Account) {c : Currency}
    (opened : IsOpened (meta_currency t) s)
    → IsReady s
    → find_transaction i s.db ≡ some t
    → is_pending t.status ≡ true
    → is_incomplete t ≡ false
    → find_account (meta_account t) s.db ≡ some a
    → of_value (meta_currency t) ≡ some c
    → opened.account.id ≢ a.id
    → IsReady b
    → b.db ≡ (confirm_deposit i ref s).1.db
    → ((confirm_deposit i ref s).0 ≡ ok (complete ref t))
      × ((confirm_pending other t b).0 ≡ ok (complete other t))
      × (balance_of a.id (confirm_pending other t b).1.db
          ≡ balance_of a.id s.db +ℤ meta_amount t +ℤ meta_amount t)
confirm_stale i ref other s b t a opened ready found pending whole known supported apart ready_b
      seen =
    let first =
      confirm_deposit-succeeds i ref s ready t found pending whole a known opened supported in
    let tables : b.db ≡ confirmed ref t a opened.account s.db = seen ∙ first.1 in
    let opened_b : IsOpened (meta_currency t) b = record {
      user = opened.user;
      system = rw tables opened.system;
      account = opened.account;
      clearing = rw tables opened.clearing;
    } in
    let second =
      confirm_pending-succeeds other b ready_b t whole a (rw tables known) opened_b supported in
    let once =
      sum-posted opened.account.id a.id t.id (meta_amount t) (meta_currency t) s.db.entries apart
        a.id in
    let twice =
      sum-posted opened.account.id a.id t.id (meta_amount t) (meta_currency t)
        (confirmed ref t a opened.account s.db).entries apart a.id in
    (first.0, second.0, ground (arith, second.1, tables, once, twice))
