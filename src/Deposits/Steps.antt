-- ===== src/Deposits/Steps.antt =====
-- What the steps of a deposit do to the tables.
use paysika.Prelude.{Option, ℕ, ◌≡◌, String, some, arith}
use paysika.Prelude.Int.{ℤ}
use paysika.Errors.{ok}
use paysika.Domain.Events.{deposit_failed, deposit_completed}
use paysika.Store.{State, Db, Account, Transaction, ◌>>=◌}
use paysika.Store.Keeps.{Keeps, Untouched, untouched, keeps_rules}
use paysika.Accounts.{get_account, find_account}
use paysika.Ledger.{add_entries}
use paysika.Ledger.Effects.{settle-Keeps}
use paysika.Ledger.Sums.{posted}
use paysika.Deposits.{
  meta_account, fail_pending, fail, post_deposit, post_confirmed, update_rows, update_transaction,
  complete, meta_amount, meta_currency, require_pending,
}
use paysika.EventBus.Delivery.{publish-Keeps}

pub get_account-Keeps : (a : ℕ) (o : State) → Keeps (Untouched o) (get_account a)
unfolding get_account
get_account-Keeps a o = search keeps_rules

-- A lookup returns the account that it finds.
pub get_account-found :
    (a : ℕ) (s : State) (r : Account) → (get_account a s).0 ≡ ok r → find_account a s.db ≡ some r
unfolding get_account ◌>>=◌
get_account-found a s r e = ground arith

pub require_pending-Keeps : (t : ℕ) (o : State) → Keeps (Untouched o) (require_pending t)
unfolding require_pending
require_pending-Keeps t o = search keeps_rules

-- The tables after the entries of a direct deposit, whether or not the event could be published.
pub post_deposit-db :
    (account_id : ℕ) (amount : ℤ) (currency description : String) (key : Option String)
    (clearing : Account) (t : Transaction) (s : State)
    → (post_deposit account_id amount currency description key clearing t s).1.db
      ≡ record s.db { entries = posted clearing.id account_id t.id amount currency s.db.entries }
unfolding post_deposit add_entries ◌>>=◌
post_deposit-db account_id amount currency description key clearing t s =
    let s' : State = record s {
      db = record s.db {
        entries = posted clearing.id account_id t.id amount currency s.db.entries;
      };
    } in
    ((settle-Keeps account_id clearing.id currency
        (deposit_completed t.id account_id amount currency) t s').at
      s' (untouched s')).db

-- The tables with a confirmed deposit: its two entries, and its row completed.
abbrev pub confirmed : String → Transaction → Account → Account → Db → Db
confirmed provider_reference t account clearing d = record d {
  entries = posted clearing.id account.id t.id (meta_amount t) (meta_currency t) d.entries;
  transactions = update_rows t.id (complete provider_reference) d.transactions;
}

pub post_confirmed-db :
    (ref : String) (t : Transaction) (account clearing : Account) (s : State)
    → (post_confirmed ref t account clearing s).1.db ≡ confirmed ref t account clearing s.db
unfolding post_confirmed add_entries update_transaction ◌>>=◌
post_confirmed-db ref t account clearing s =
    let s' : State = record s { db = confirmed ref t account clearing s.db } in
    ((settle-Keeps account.id clearing.id (meta_currency t)
        (deposit_completed t.id account.id (meta_amount t) (meta_currency t)) (complete ref t)
        s').at
      s' (untouched s')).db

-- The tables with a failed deposit.
abbrev pub failed : Transaction → Db → Db
failed t d = record d { transactions = update_rows t.id fail d.transactions }

pub fail_pending-db :
    (reason : String) (t : Transaction) (s : State) → (fail_pending reason t s).1.db ≡ failed t s.db
unfolding fail_pending update_transaction ◌>>=◌
fail_pending-db reason t s =
    let s' : State = record s { db = failed t s.db } in
    let sent =
      (publish-Keeps (deposit_failed t.id (meta_account t) (meta_amount t) (meta_currency t) reason)
          s').at
        s' (untouched s') in
    ground (arith, sent.db)
