-- ===== src/Accounts/Created.antt =====
-- What `create_account` returns and when it writes nothing.
use paysika.Prelude.{ℕ, String, ◌≡◌, none, some, ==_refl, arith}
use paysika.Errors.{Error, ok, err}
use paysika.Store.{State, Account, next_id, ◌>>=◌}
use paysika.Store.Freshness.{below-next_id}
use paysika.Accounts.{find_account, add_account, create_account}
use paysika.Accounts.Opening.{first-fresh}

module _ (user_id : ℕ) (currency name : String) (s : State) where
  -- A call that raises changes nothing.
  pub create_account-raises :
      (e : Error)
      → (create_account user_id currency name s).0 ≡ err e
      → (create_account user_id currency name s).1 ≡ s
  unfolding create_account add_account ◌>>=◌
  create_account-raises e x = ground arith

  -- A call that returns has opened the user's account in the currency, under a new id.
  pub create_account-returns :
      (a : Account)
      → (create_account user_id currency name s).0 ≡ ok a
      → (a.user_id ≡ user_id)
        × (a.currency ≡ currency)
        × (find_account a.id (create_account user_id currency name s).1.db ≡ some a)
        × (find_account a.id s.db ≡ none)
  unfolding create_account add_account ◌>>=◌
  create_account-returns a x =
      let n = next_id (λ (b : Account). b.id) s.db.accounts in
      let new = first-fresh n s.db.accounts (below-next_id (λ b. b.id) s.db.accounts) in
      (ground arith, ground arith, ground (arith, ==_refl n), ground (arith, new))
