-- ===== src/Deposits/Initiated.antt =====
-- When a deposit is initiated.
use paysika.Prelude.{refl, ℕ, String, ◌≡◌, none, some, true, false, arith, str_eq}
use paysika.Prelude.Int.{ℤ, pos, leb_ℤ}
use paysika.Errors.{ok}
use paysika.Store.{State, Account, Transaction, next_id, ◌>>=◌}
use paysika.Accounts.{find_account, get_account}
use paysika.EventBus.Delivery.{publish_initiated, registered}
use paysika.Ledger.{find_existing, build_correlation_id, go_on, key_taken}
use paysika.Ledger.Effects.{insert_transaction_free, with_transaction}
use paysika.Deposits.{initiate_deposit, new_initiate}
use paysika.Deposits.Direct.{initiated}

module _ (account_id : ℕ) (amount : ℤ) (currency description provider : String) (s : State)
    (a : Account) (known : find_account account_id s.db ≡ some a)
    (own_currency : str_eq a.currency currency ≡ true) (positive : leb_ℤ amount (pos 0) ≡ false)
    (wired : s.handlers ≡ registered) where
  abbrev row : ℕ → Transaction
  row = initiated account_id amount currency description none s provider

  abbrev new_row : Transaction
  new_row = row (next_id (λ (t : Transaction). t.id) s.db.transactions)

  -- Initiating a deposit of a positive amount for an account in the currency, without a key and with
  -- the handlers registered, returns its row, also when the queue is down, and adds it to the tables.
  pub initiate_deposit-succeeds :
      initiate_deposit account_id amount currency description none provider s
      ≡ (ok new_row, record s { db = with_transaction row s.db })
  unfolding initiate_deposit new_initiate build_correlation_id get_account go_on key_taken
      find_existing ◌>>=◌
  initiate_deposit-succeeds =
      let s' : State = record s { db = with_transaction row s.db } in
      ground (
        arith,
        known,
        insert_transaction_free none row s refl,
        publish_initiated new_row.id account_id amount currency s' wired,
      )
