-- ===== src/Accounts.antt =====
-- app/services/account_service.py, with the inserts of app/models/account.py and user.py.
pub mod Opening
pub mod Clearing
pub mod Created
use paysika.Prelude.{
  ℕ, String, Bool, true, false, Option, none, some, List, ◌∷◌, ◌==◌, ◌&&◌, ◌||◌, str_eq, first,
  select, if◌then◌else◌,
}
use paysika.Errors.{account_not_found, conflict, not_found, value_error, integrity_error}
use paysika.Domain.Enums.{of_value}
use paysika.Store.{
  Action, Db, Account, User, pure, gets, or_raise, raise_if, modify_db, next_id, match_option,
  ◌>>=◌, ◌>>◌,
}

abbrev pub exists : {A : Type 0} → Option A → Bool
exists none = false
exists (some a) = true

-- `db.session.get(Account, account_id)`.
abbrev pub find_account : ℕ → Db → Option Account
find_account account_id d = first (λ a. a.id == account_id) d.accounts

-- `db.session.get(User, user_id)`.
abbrev pub find_user : ℕ → Db → Option User
find_user user_id d = first (λ u. u.id == user_id) d.users

abbrev pub owns : ℕ → String → Account → Bool
owns user_id currency a = a.user_id == user_id && str_eq a.currency currency

-- `db.session.add(account); db.session.flush()`, under the constraint uq_account_user_currency.
unfoldable pub add_account : ℕ → String → String → Bool → Action Account
add_account user_id currency name is_system = do
  d ← gets (λ s. s.db)
  raise_if (exists (first (owns user_id currency) d.accounts)) integrity_error
  let account : Account = record {
    id = next_id (λ a. a.id) d.accounts;
    user_id = user_id;
    currency = currency;
    name = name;
    is_system = is_system;
  }
  modify_db (λ d. record d { accounts = account ∷ d.accounts })
  pure account

-- `db.session.add(user)` with a flush, under the unique username and email.
unfoldable pub add_user : String → String → String → Action User
add_user username email password_hash = do
  d ← gets (λ s. s.db)
  raise_if (exists (first (λ u. str_eq u.username username || str_eq u.email email) d.users))
      integrity_error
  let user : User = record {
    id = next_id (λ u. u.id) d.users;
    username = username;
    email = email;
    password_hash = password_hash;
  }
  modify_db (λ d. record d { users = user ∷ d.users })
  pure user

unfoldable pub create_account : ℕ → String → String → Action Account
create_account user_id currency name = do
  raise_if (if exists (of_value currency) then false else true) value_error
  d ← gets (λ s. s.db)
  or_raise (find_user user_id d) not_found
  raise_if (exists (first (owns user_id currency) d.accounts)) conflict
  add_account user_id currency name false

unfoldable pub get_account : ℕ → Action Account
get_account account_id = do
  d ← gets (λ s. s.db)
  or_raise (find_account account_id d) account_not_found

unfoldable pub get_user_accounts : ℕ → Action (List Account)
get_user_accounts user_id = gets (λ s. select (λ a. a.user_id == user_id) s.db.accounts)

abbrev pub system_name : String
system_name = "__system__"

-- The first half of `get_or_create_platform_clearing_account`.
unfoldable pub get_or_create_system_user : Action User
get_or_create_system_user = do
  found ← gets (λ s. first (λ u. str_eq u.username system_name) s.db.users)
  password_hash ← gets (λ s. s.context.system_password_hash)
  match_option found (λ user. pure user) (add_user system_name "system@internal" password_hash)

abbrev pub is_clearing : ℕ → String → Account → Bool
is_clearing user_id currency a = owns user_id currency a && a.is_system

unfoldable pub get_or_create_clearing_account : User → String → Action Account
get_or_create_clearing_account system_user currency = do
  found ← gets (λ s. first (is_clearing system_user.id currency) s.db.accounts)
  name ← gets (λ s. s.context.clearing_name)
  match_option found (λ account. pure account) (add_account system_user.id currency name true)

unfoldable pub get_or_create_platform_clearing_account : String → Action Account
get_or_create_platform_clearing_account currency = do
  system_user ← get_or_create_system_user
  get_or_create_clearing_account system_user currency
