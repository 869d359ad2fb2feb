-- ===== src/Api/Accounts/Access.antt =====
-- Who reads an account through the endpoints, and what the endpoints write.
use paysika.Prelude.{
  lookup, ℕ, String, Option, none, some, true, List, ◌==◌, ◌≡◌, ◌⊎◌, inl, inr, refl, arith,
}
use paysika.Prelude.Int.{ℤ}
use paysika.Errors.{err, Result-cases, Error, ok, Result}
use paysika.Domain.Enums.{Currency, of_value}
use paysika.Store.{Action, cache_balance, take_lock, State, Db, Account, Transaction, ◌>>=◌}
use paysika.Store.Keeps.{Keeps, Untouched, keeps_rules}
use paysika.Accounts.{find_account}
use paysika.Accounts as Service
use paysika.Accounts.Opening.{create_account-Extends, Extends}
use paysika.Balance.Reads.{balance_of, frame_rules}
use paysika.Balance.Snapshots.{computed_total-eq-sum, IsSound}
use paysika.Balance as Balances
use paysika.Queries.{Pagination}
use paysika.Queries as Queries
use paysika.Api.Accounts.{
  create_account, Answer, AccountCreate, account_body, balance_body, list_accounts, get_balance,
  get_account_transactions, page_answer,
}
use paysika.Ledger.Invariant.{Extends-IsLedger, IsLedger}
use paysika.Domain.Money.{make}
use paysika.Api.{committed_now, end_request}
use paysika.Accounts.Created.{create_account-returns, create_account-raises}

module _ (paginate : List Transaction → ℤ → ℤ → Pagination) (items_per_page max_per_page : ℤ)
    (user account_id : ℕ) (page per_page : Option ℤ) where
  list-Keeps : (o : State) → Keeps (Untouched o) (list_accounts user)
  unfolding list_accounts Service.get_user_accounts
  list-Keeps o = search keeps_rules

  balance-Keeps : (o : State) → Keeps (Untouched o) (get_balance user account_id)
  unfolding get_balance Service.get_account
  balance-Keeps o = search frame_rules depth 12

  transactions-Keeps :
      (o : State)
      → Keeps (Untouched o) (
          get_account_transactions paginate items_per_page max_per_page user account_id page
            per_page)
  unfolding get_account_transactions page_answer Service.get_account
      Queries.get_account_transactions
  transactions-Keeps o = search keeps_rules depth 12

-- The cache has no balance of the account, or the one that the tables give.
abbrev pub IsFresh : ℕ → String → State → Type 0
IsFresh account_id currency s =
    (lookup account_id s.balance_cache ≡ none)
    ⊎ (lookup account_id s.balance_cache
        ≡ some (record { amount = balance_of account_id s.db; currency = currency }))

-- From sound tables, where the cache has no balance of the account or the one that the tables give,
-- the owner of an account in a supported currency is answered the sum of its successful entries.
pub get_balance_owned :
    (user account_id : ℕ) (s : State) (a : Account) {c : Currency}
    → IsSound s.db
    → find_account account_id s.db ≡ some a
    → (a.user_id == user) ≡ true
    → of_value a.currency ≡ some c
    → IsFresh account_id a.currency s
    → (get_balance user account_id s).0
      ≡ ok (200, balance_body account_id a.currency (balance_of account_id s.db))
unfolding get_balance Service.get_account Balances.get_balance Balances.compute_balance make
    take_lock cache_balance ◌>>=◌
get_balance_owned user account_id s a sound found own supported (inl missing) =
    ground (arith, computed_total-eq-sum account_id s.db sound)
get_balance_owned user account_id s a sound found own supported (inr cached) = ground arith

-- What an opened account leaves: the session and the committed tables agree and satisfy the
-- ledger's invariant; they are the old ones, or they extend them and the answer is 201 with an
-- account of the user in the currency asked for.
pub record IsOpening (user : ℕ) (request : AccountCreate) (committed : Db) (answer : Result Answer)
    (s' : State) : Type 0 where
  pub agree : s'.db ≡ s'.committed
  pub ledger : IsLedger s'.committed
  pub outcome :
      (s'.committed ≡ committed)
      ⊎ ((a : Account) × (answer ≡ ok (201, account_body a))
          × (a.user_id ≡ user)
          × (a.currency ≡ request.currency)
          × (find_account a.id s'.committed ≡ some a)
          × (find_account a.id committed ≡ none)
          × Extends committed s'.committed)

Extends-from : {d c d' : Db} → d ≡ c → Extends d d' → Extends c d'
Extends-from {d' = d'} e x = rw e at x

module _ (user : ℕ) (request : AccountCreate) (s : State) where
  abbrev opening : Action Account
  opening = Service.create_account user request.currency request.name

  endpoint_raised :
      (e : Error) → (opening s).0 ≡ err e → create_account user request s ≡ (err e, (opening s).1)
  unfolding create_account ◌>>=◌
  endpoint_raised e x = ground arith

  endpoint_returned :
      (a : Account)
      → (opening s).0 ≡ ok a
      → create_account user request s ≡ (ok (201, account_body a), committed_now (opening s).1)
  unfolding create_account ◌>>=◌
  endpoint_returned a x = ground arith

  -- From a session without changes of its own and committed tables that satisfy the ledger's
  -- invariant, a request for an account, when it has ended, leaves such a session and such tables;
  -- they are the old ones, or the answer is 201 with an account of the user in the currency asked
  -- for, which is new in the tables, and they extend the old ones.
  pub create_account-IsOpening :
      s.db ≡ s.committed
      → IsLedger s.committed
      → IsOpening user request s.committed
          (create_account user request s).0
          (end_request (create_account user request s).1)
  create_account-IsOpening clean h = elim (Result-cases (opening s).0) [
    | inr (e, x) ↦
        rw (endpoint_raised e x, create_account-raises user request.currency request.name s e x)
          (record { agree = refl; ledger = h; outcome = inl refl })
    | inl (a, x) ↦
        let new = create_account-returns user request.currency request.name s a x in
        let grown =
          create_account-Extends user request.currency request.name s (rw clean h.ordered) in
        rw (endpoint_returned a x) (record {
          agree = refl;
          ledger = Extends-IsLedger s.db (opening s).1.db grown (rw clean h);
          outcome = inr (a, refl, new.0, new.1, new.2, rw clean at new.3, Extends-from clean grown);
        })
  ]

-- No endpoint that reads accounts, balances or transactions changes the tables, the configuration
-- or the handlers, whatever it answers.
pub reads-Keeps :
    (paginate : List Transaction → ℤ → ℤ → Pagination) (items_per_page max_per_page : ℤ)
    (user account_id : ℕ) (page per_page : Option ℤ) (o : State)
    → Keeps (Untouched o) (list_accounts user)
      × Keeps (Untouched o) (get_balance user account_id)
      × Keeps (Untouched o) (
          get_account_transactions paginate items_per_page max_per_page user account_id page
            per_page)
reads-Keeps paginate items_per_page max_per_page user account_id page per_page o = (
  list-Keeps paginate items_per_page max_per_page user account_id page per_page o,
  balance-Keeps paginate items_per_page max_per_page user account_id page per_page o,
  transactions-Keeps paginate items_per_page max_per_page user account_id page per_page o,
)
