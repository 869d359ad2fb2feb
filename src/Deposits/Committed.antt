-- ===== src/Deposits/Committed.antt =====
-- The confirmation and the failure of a deposit do not commit.
use paysika.Prelude.{Option, String, ℕ, Bool}
use paysika.Store.{Db, Account, Transaction, pure, ◌>>◌}
use paysika.Store.Keeps.{Keeps-pure, Keeps-bind, Keeps}
use paysika.Accounts.{
  get_account, add_account, add_user, get_or_create_system_user, get_or_create_clearing_account,
  get_or_create_platform_clearing_account,
}
use paysika.Ledger.{add_entries, build_correlation_id, go_on, Inserted, existing, created}
use paysika.Deposits.{
  deposit_initiated, publish, ℤ, new_initiate, initiate_deposit, require_pending, post_confirmed,
  update_transaction, confirm_pending, confirm_deposit, fail_pending, fail_deposit,
}
use paysika.Ledger.Committed.{
  publish-HasCommitted, insert-HasCommitted, HasCommitted, Untouched-HasCommitted, committed_rules,
}
use paysika.Deposits.Steps.{get_account-Keeps, require_pending-Keeps}

module _ (c : Db) where
  account-HasCommitted : (i : ℕ) → Keeps (HasCommitted c) (get_account i)
  account-HasCommitted i = Untouched-HasCommitted _ c (get_account-Keeps i)

  pending-HasCommitted : (i : ℕ) → Keeps (HasCommitted c) (require_pending i)
  pending-HasCommitted i = Untouched-HasCommitted _ c (require_pending-Keeps i)

ruleset shared_rules = (committed_rules, account-HasCommitted, pending-HasCommitted)

module _ (c : Db) where
  add_account-HasCommitted :
      (u : ℕ) (x name : String) (system : Bool)
      → Keeps (HasCommitted c) (add_account u x name system)
  unfolding add_account
  add_account-HasCommitted u x name system = search shared_rules depth 12

  add_user-HasCommitted : (x y z : String) → Keeps (HasCommitted c) (add_user x y z)
  unfolding add_user
  add_user-HasCommitted x y z = search shared_rules depth 12

  clearing-HasCommitted :
      (x : String) → Keeps (HasCommitted c) (get_or_create_platform_clearing_account x)
  unfolding get_or_create_platform_clearing_account get_or_create_system_user
      get_or_create_clearing_account
  clearing-HasCommitted x =
      search (shared_rules, add_account-HasCommitted, add_user-HasCommitted) depth 12

  post-HasCommitted :
      (ref : String) (t : Transaction) (x y : Account)
      → Keeps (HasCommitted c) (post_confirmed ref t x y)
  unfolding post_confirmed add_entries update_transaction
  post-HasCommitted ref t x y = search shared_rules depth 12

  pub confirm_deposit-HasCommitted :
      (i : ℕ) (ref : String) → Keeps (HasCommitted c) (confirm_deposit i ref)
  unfolding confirm_deposit confirm_pending
  confirm_deposit-HasCommitted i ref =
      search (shared_rules, clearing-HasCommitted, post-HasCommitted) depth 12

  pub fail_deposit-HasCommitted :
      (i : ℕ) (reason : String) → Keeps (HasCommitted c) (fail_deposit i reason)
  unfolding fail_deposit fail_pending update_transaction
  fail_deposit-HasCommitted i reason = search shared_rules depth 12

  initiated-HasCommitted :
      (account_id : ℕ) (amount : ℤ) (currency : String) (i : Inserted)
      → Keeps
          (HasCommitted c)
          (go_on i (λ t. publish (deposit_initiated t.id account_id amount currency) >> pure t))
  unfolding go_on
  initiated-HasCommitted account_id amount currency (existing t) = record { at = λ s h. h }
  initiated-HasCommitted account_id amount currency (created t) = record {
    at =
        (Keeps-bind (publish (deposit_initiated t.id account_id amount currency)) (λ _. pure t)
          (publish-HasCommitted c (deposit_initiated t.id account_id amount currency))
          (λ _. Keeps-pure t)).at;
  }

  pub initiate_deposit-HasCommitted :
      (account_id : ℕ) (amount : ℤ) (currency description : String) (key : Option String)
      (provider : String)
      → Keeps
          (HasCommitted c)
          (initiate_deposit account_id amount currency description key provider)
  unfolding initiate_deposit new_initiate build_correlation_id
  initiate_deposit-HasCommitted account_id amount currency description key provider =
      search (shared_rules, initiated-HasCommitted, insert-HasCommitted) depth 14
