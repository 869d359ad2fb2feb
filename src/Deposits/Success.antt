-- ===== src/Deposits/Success.antt =====
-- When a confirmation and a failure go through.
use paysika.Prelude.{◌∙◌, ◌≡◌, ℕ, String, some, true, false, arith, first, str_eq, ◌∷◌, []}
use paysika.Errors.{ok}
use paysika.Domain.Enums.{Currency, of_value, is_pending}
use paysika.Store.{State, Account, Transaction, User, ◌>>=◌}
use paysika.Store.Keeps.{untouched}
use paysika.Accounts.{
  get_account, find_account, system_name, is_clearing, get_or_create_platform_clearing_account,
  get_or_create_system_user, get_or_create_clearing_account,
}
use paysika.Transfers.Success.{IsReady}
use paysika.Ledger.{add_entries}
use paysika.Ledger.Effects.{settle-returns}
use paysika.Deposits.{
  meta_amount, deposit_failed, fail, fail_pending, fail_deposit, lock_accounts, find_transaction,
  meta_account, meta_currency, is_incomplete, confirm_pending, confirm_deposit, require_pending,
  complete, post_confirmed, update_transaction,
}
use paysika.Lock.Order.{lock_accounts-returns, lock_accounts-Keeps}
use paysika.Deposits.Steps.{failed, post_confirmed-db, confirmed}
use paysika.EventBus.Delivery.{publish_lem}

-- The clearing account of the currency has been opened.
pub record IsOpened (currency : String) (s : State) : Type 0 where
  pub user : User
  pub system : first (λ u. str_eq u.username system_name) s.db.users ≡ some user
  pub account : Account
  pub clearing : first (is_clearing user.id currency) s.db.accounts ≡ some account

opened_clearing :
    (currency : String) (s : State) (o : IsOpened currency s)
    → get_or_create_platform_clearing_account currency s ≡ (ok o.account, s)
unfolding get_or_create_platform_clearing_account get_or_create_system_user
    get_or_create_clearing_account ◌>>=◌
opened_clearing currency s o = ground (arith, o.system, o.clearing)

module _ (ref : String) (s : State) (ready : IsReady s) (t : Transaction)
    (whole : is_incomplete t ≡ false) (a : Account)
    (known : find_account (meta_account t) s.db ≡ some a) (opened : IsOpened (meta_currency t) s)
    {c : Currency} (supported : of_value (meta_currency t) ≡ some c) where
  account_found : get_account (meta_account t) s ≡ (ok a, s)
  unfolding get_account ◌>>=◌
  account_found = ground arith

  posted_returns :
      (s' : State) → IsReady s' → (post_confirmed ref t a opened.account s').0 ≡ ok (complete ref t)
  unfolding post_confirmed add_entries update_transaction ◌>>=◌
  posted_returns s' r =
      settle-returns a.id opened.account.id (meta_currency t) _ (complete ref t) _ supported r.wired
        r.queue

  -- Past the check of the status a confirmation goes through, whatever status the table has.
  pub confirm_pending-succeeds :
      ((confirm_pending ref t s).0 ≡ ok (complete ref t))
      × ((confirm_pending ref t s).1.db ≡ confirmed ref t a opened.account s.db)
  unfolding confirm_pending ◌>>=◌
  confirm_pending-succeeds =
      let ids = a.id ∷ opened.account.id ∷ [] in
      let kept = (lock_accounts-Keeps ids s).at s (untouched s) in
      let s' = (lock_accounts ids s).1 in
      let cleared = opened_clearing (meta_currency t) s opened in
      let taken = lock_accounts-returns ids s in
      (
        ground (
          arith,
          account_found,
          cleared,
          taken,
          posted_returns s'
              (record { queue = rw kept.context ready.queue; wired = kept.handlers ∙ ready.wired }),
        ),
        ground (
          arith,
          account_found,
          cleared,
          taken,
          kept.db,
          post_confirmed-db ref t a opened.account s',
        ),
      )

module _ (i : ℕ) (ref : String) (s : State) (ready : IsReady s) (t : Transaction)
    (found : find_transaction i s.db ≡ some t) (pending : is_pending t.status ≡ true) where
  pending_found : require_pending i s ≡ (ok t, s)
  unfolding require_pending ◌>>=◌
  pending_found = ground arith

  -- A confirmation of a pending transaction with complete metadata, whose account exists, in a
  -- supported currency with its clearing account open, with the queue up and the handlers
  -- registered, returns the completed transaction, and the tables are the old ones with its two
  -- entries and its completed row.
  pub confirm_deposit-succeeds :
      is_incomplete t ≡ false
      → (a : Account) → find_account (meta_account t) s.db ≡ some a
      → (opened : IsOpened (meta_currency t) s) {c : Currency} → of_value (meta_currency t) ≡ some c
      → ((confirm_deposit i ref s).0 ≡ ok (complete ref t))
        × ((confirm_deposit i ref s).1.db ≡ confirmed ref t a opened.account s.db)
  unfolding confirm_deposit ◌>>=◌
  confirm_deposit-succeeds whole a known opened supported =
      let done = confirm_pending-succeeds ref s ready t whole a known opened supported in
      (ground (arith, pending_found, done.0), ground (arith, pending_found, done.1))

  -- A failure of a pending transaction, with the queue up and the handlers registered, returns the
  -- failed transaction, and the tables are the old ones with its failed row.
  pub fail_deposit-succeeds :
      ((fail_deposit i ref s).0 ≡ ok (fail t)) × ((fail_deposit i ref s).1.db ≡ failed t s.db)
  unfolding fail_deposit fail_pending update_transaction ◌>>=◌
  fail_deposit-succeeds =
      let event = deposit_failed t.id (meta_account t) (meta_amount t) (meta_currency t) ref in
      let s' : State = record s { db = failed t s.db } in
      let sent = publish_lem event s' ready.wired ready.queue in
      (ground (arith, pending_found, sent), ground (arith, pending_found, sent))
