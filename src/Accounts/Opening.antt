-- ===== src/Accounts/Opening.antt =====
-- What opening accounts changes in the tables: accounts are only added, under new ids.
use paysika.Prelude.{
  ℕ, ◌<◌, ◌≡◌, refl, Bool, false, Option, none, some, List, [], ◌∷◌, ◌==◌, ◌||◌, arith, All, first,
  str_eq, Bool-cases, inl, inr, String,
}
use paysika.Store.{State, Db, Account, User, next_id, ◌>>=◌}
use paysika.Store.Freshness.{below-next_id}
use paysika.Store.Keeps.{Keeps, keeps_rules}
use paysika.Accounts.{
  exists, find_account, owns, add_account, add_user, create_account, get_or_create_system_user,
  get_or_create_clearing_account, get_or_create_platform_clearing_account,
}

-- The ids of the accounts fall along the table.
abbrev pub IsDescending : List Account → Type 0
IsDescending [] = Unit
IsDescending (a ∷ rest) = All (λ b. b.id < a.id) rest × IsDescending rest

-- Whether the account with an id is a clearing account.
abbrev pub system_flag : Option Account → Bool
system_flag none = false
system_flag (some a) = a.is_system

abbrev pub is_clearing_id : ℕ → Db → Bool
is_clearing_id account_id d = system_flag (find_account account_id d)

first-All :
    (P : Account → Type 0) (p : Account → Bool) (xs : List Account) (r : Account)
    → first p xs ≡ some r
    → All P xs
    → P r
first-All P p [] r e h = cc
first-All P p (x ∷ xs) r e h = ground (arith, first-All P p xs r)

-- Where ids fall, a row that a query returns is the row with its id.
pub first-find :
    (p : Account → Bool) (xs : List Account) (r : Account)
    → IsDescending xs
    → first p xs ≡ some r
    → first (λ a. a.id == r.id) xs ≡ some r
first-find p [] r h e = cc
first-find p (x ∷ xs) r h e =
    ground (arith, first-find p xs r h.1, first-All (λ b. b.id < x.id) p xs r)

pub first-fresh :
    (n : ℕ) (xs : List Account) → All (λ a. a.id < n) xs → first (λ a. a.id == n) xs ≡ none
first-fresh n [] h = refl
first-fresh n (x ∷ xs) h = ground (arith, first-fresh n xs h.1)

-- Tables that differ by users and by accounts under new ids.
pub record Extends (d d' : Db) : Type 0 where
  pub entries : d'.entries ≡ d.entries
  pub snapshots : d'.snapshots ≡ d.snapshots
  pub transactions : d'.transactions ≡ d.transactions
  pub idempotency_records : d'.idempotency_records ≡ d.idempotency_records
  pub ordered : IsDescending d'.accounts
  pub found : (a : ℕ) (r : Account) → find_account a d ≡ some r → find_account a d' ≡ some r
  pub others : (a : ℕ) → is_clearing_id a d' ≡ false → is_clearing_id a d ≡ false

pub Extends-refl : (d : Db) → IsDescending d.accounts → Extends d d
Extends-refl d h = record {
  entries = refl;
  snapshots = refl;
  transactions = refl;
  idempotency_records = refl;
  ordered = h;
  found = λ a r e. e;
  others = λ a e. e;
}

abbrev pub ExtendsFrom : Db → State → Type 0
ExtendsFrom d s = Extends d s.db

with_account-Extends :
    (d d' : Db) (r : Account)
    → r.id ≡ next_id (λ a. a.id) d'.accounts
    → Extends d d'
    → Extends d (record d' { accounts = r ∷ d'.accounts })
with_account-Extends d d' r fresh h =
    let below : All (λ a. a.id < r.id) d'.accounts =
      rw fresh (below-next_id (λ a. a.id) d'.accounts) in
    let new = first-fresh r.id d'.accounts below in
    record {
      entries = h.entries;
      snapshots = h.snapshots;
      transactions = h.transactions;
      idempotency_records = h.idempotency_records;
      ordered = (below, h.ordered);
      found = λ a x e. ground (arith, h.found a x e, new);
      others = λ a e. ground (arith, h.others a, new);
    }

module _ (d : Db) (s : State) (h : Extends d s.db) where
  add_user-at : (username email hash : String) → Extends d (add_user username email hash s).1.db
  unfolding add_user ◌>>=◌
  add_user-at username email hash =
      elim (Bool-cases
        (exists (first (λ u. str_eq u.username username || str_eq u.email email) s.db.users))) [
          | inl taken ↦ rw taken h
          | inr free ↦ rw free (record {
            entries = h.entries;
            snapshots = h.snapshots;
            transactions = h.transactions;
            idempotency_records = h.idempotency_records;
            ordered = h.ordered;
            found = h.found;
            others = h.others;
          })
        ]

  add_account-at :
      (user_id : ℕ) (currency name : String) (system : Bool)
      → Extends d (add_account user_id currency name system s).1.db
  unfolding add_account ◌>>=◌
  add_account-at user_id currency name system =
      elim (Bool-cases (exists (first (owns user_id currency) s.db.accounts))) [
        | inl taken ↦ rw taken h
        | inr free ↦ rw free (with_account-Extends d s.db _ refl h)
      ]

pub add_user-ExtendsFrom :
    (username email hash : String) (d : Db) → Keeps (ExtendsFrom d) (add_user username email hash)
add_user-ExtendsFrom username email hash d = record {
  at = λ s h. add_user-at d s h username email hash;
}

add_account-ExtendsFrom :
    (user_id : ℕ) (currency name : String) (system : Bool) (d : Db)
    → Keeps (ExtendsFrom d) (add_account user_id currency name system)
add_account-ExtendsFrom user_id currency name system d = record {
  at = λ s h. add_account-at d s h user_id currency name system;
}

ruleset extends_rules = (keeps_rules, add_user-ExtendsFrom, add_account-ExtendsFrom)

-- Opening an account, or failing to, extends the tables.
pub create_account-ExtendsFrom :
    (user_id : ℕ) (currency name : String) (d : Db)
    → Keeps (ExtendsFrom d) (create_account user_id currency name)
unfolding create_account
create_account-ExtendsFrom user_id currency name d = search extends_rules depth 12

-- Where account ids are unique, opening an account, or failing to, leaves entries, snapshots and
-- transactions as they were; every account found before is found as it was, no system account stops
-- being one, and account ids stay unique.
pub create_account-Extends :
    (user_id : ℕ) (currency name : String) (s : State)
    → IsDescending s.db.accounts
    → Extends s.db (create_account user_id currency name s).1.db
create_account-Extends user_id currency name s h =
    (create_account-ExtendsFrom user_id currency name s.db).at s (Extends-refl s.db h)

pub system_user-ExtendsFrom : (d : Db) → Keeps (ExtendsFrom d) get_or_create_system_user
unfolding get_or_create_system_user
system_user-ExtendsFrom d = search extends_rules depth 12

clearing-ExtendsFrom :
    (u : User) (currency : String) (d : Db)
    → Keeps (ExtendsFrom d) (get_or_create_clearing_account u currency)
unfolding get_or_create_clearing_account
clearing-ExtendsFrom u currency d = search extends_rules depth 12

-- So does getting or creating the clearing account of a currency.
pub platform_clearing-ExtendsFrom :
    (currency : String) (d : Db)
    → Keeps (ExtendsFrom d) (get_or_create_platform_clearing_account currency)
unfolding get_or_create_platform_clearing_account
platform_clearing-ExtendsFrom currency d =
    search (extends_rules, system_user-ExtendsFrom, clearing-ExtendsFrom)
