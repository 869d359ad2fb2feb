-- ===== src/Exchange.antt =====
-- app/services/fx_service.py and app/services/fx_provider: exchange rates and the transfer between two
-- currencies.
pub mod Rounding
pub mod Steps
pub mod Ledger
pub mod Frankfurter
use paysika.Prelude.{
  ℕ, String, Bool, true, false, Option, none, some, List, [], ◌∷◌, ◌==◌, ◌&&◌, ◌+◌, ◌*◌, ◌/◌, ◌%◌,
  ◌^◌, ◌++◌, str_eq, ltb, not, if◌then◌else◌, or_else,
}
use paysika.Prelude.Int.{ℤ, pos, negsuc, neg, leb_ℤ, ◌*ℤ◌}
use paysika.Errors.{
  Result, ok, err, currency_mismatch, account_not_found, insufficient_funds, value_error,
}
use paysika.Domain.Enums.{TransactionType, TransactionStatus}
use paysika.Domain.Money.{make, less, decimal, code}
use paysika.Store.{
  Action, Account, Transaction, Rate, Description, written, of_exchange, pure, lift, gets, or_raise,
  raise_if, modify, match_option, ◌>>=◌, ◌>>◌,
}
use paysika.Lock.{lock_accounts}
use paysika.Accounts.{find_account, get_or_create_platform_clearing_account}
use paysika.Balance.{get_balance, refresh_balance_cache, maybe_create_snapshot}
use package.paysika.Ledger.{
  find_existing, build_correlation_id, insert_transaction, go_on, add_entries, double_entry,
}

abbrev pub Provider : Type 0
Provider = String → String → Option Rate

abbrev rate_of : ℕ → ℕ → Rate
rate_of coefficient places = record { coefficient = pos coefficient; places = places }

-- `FallbackProvider.fetch_rate`.
pub fallback_rate : Provider
fallback_rate source target =
    if str_eq source "USD" && str_eq target "EUR"
    then some (rate_of 92 2)
    else if str_eq source "EUR" && str_eq target "USD"
    then some (rate_of 109 2)
    else if str_eq source "USD" && str_eq target "GBP"
    then some (rate_of 79 2)
    else if str_eq source "GBP" && str_eq target "USD"
    then some (rate_of 127 2)
    else if str_eq source "EUR" && str_eq target "GBP"
    then some (rate_of 86 2)
    else if str_eq source "GBP" && str_eq target "EUR"
    then some (rate_of 116 2)
    else if str_eq source "USD" && str_eq target "NGN"
    then some (rate_of 155_000 2)
    else if str_eq source "NGN" && str_eq target "USD"
    then some (rate_of 645 6)
    else if str_eq source "USD" && str_eq target "XAF"
    then some (rate_of 60_500 2)
    else if str_eq source "XAF" && str_eq target "USD"
    then some (rate_of 1653 6)
    else none

-- `get_provider`: `frankfurter` is the provider that asks the HTTP service, which answers no rate
-- where the request fails.
pub get_provider : Provider → String → Result Provider
get_provider frankfurter name =
    if str_eq name "fallback"
    then ok fallback_rate
    else if str_eq name "frankfurter"
    then ok frankfurter
    else err value_error

-- The value of `cache.get(_fx_cache_key(source, target))`.
unfoldable pub cached_rate : String → String → List ((String × String) × Rate) → Option Rate
cached_rate source target [] = none
cached_rate source target (((a, b), rate) ∷ rest) =
    if str_eq a source && str_eq b target then some rate else cached_rate source target rest

-- The nearest whole number to n / d, and of two that are equally near the even one.
pub half_even : ℕ → ℕ → ℕ
half_even n d =
    let q = n / d in
    let r = n % d in
    if ltb (2 * r) d then q else if ltb d (2 * r) then q + 1 else if q % 2 == 0 then q else q + 1

-- `(amount * rate).quantize(Decimal("0.0001"))`, in ten-thousandths.
pub exchanged : ℤ → Rate → ℤ
unfolding half_even
exchanged amount rate = elim (amount *ℤ rate.coefficient) [
  | pos n ↦ pos (half_even n (10 ^ rate.places))
  | negsuc n ↦ neg (pos (half_even (n + 1) (10 ^ rate.places)))
]

-- `description or f"FX ..."`.
abbrev pub describe_exchange : String → ℤ → String → ℤ → String → Description
describe_exchange description amount source target_amount target =
    if str_eq description ""
    then of_exchange amount source target_amount target
    else written description

abbrev pub exchange_row :
    ℤ → String → ℤ → String → Rate → Option String → String → String → ℕ → ℕ → Transaction
exchange_row amount source target_amount target rate key correlation_id description now id =
    record {
      id = id;
      type = TransactionType.fx_exchange;
      status = TransactionStatus.completed;
      idempotency_key = key;
      correlation_id = correlation_id;
      description = describe_exchange description amount source target_amount target;
      metadata =
          some (record {
            account_id = none;
            amount = none;
            currency = none;
            exchange_rate = some rate;
          });
      provider_reference = none;
      provider = none;
      created_at = now;
    }

module _ (frankfurter : Provider) (provider_name source_currency target_currency : String) where
  -- `_get_provider().fetch_rate(...)` past the cache; the rate is cached.
  pub fetch_rate : Action Rate
  fetch_rate = do
    provider ← lift (get_provider frankfurter provider_name)
    rate ← or_raise (provider source_currency target_currency) currency_mismatch
    modify (λ s. record s { fx_cache = ((source_currency, target_currency), rate) ∷ s.fx_cache })
    pure rate

  pub get_exchange_rate : Action Rate
  get_exchange_rate = if str_eq source_currency target_currency then pure (rate_of 1 0) else do
    cached ← gets (λ s. cached_rate source_currency target_currency s.fx_cache)
    match_option cached (λ rate. pure rate) fetch_rate

module _ (source_account_id target_account_id : ℕ) (amount : ℤ)
    (source_currency target_currency : String) where
  -- The locks, the currencies and the funds.
  pub check_exchange : Account → Account → Account → Account → Action Unit
  check_exchange source target fx_source fx_target = do
    lock_accounts (source.id ∷ target.id ∷ fx_source.id ∷ fx_target.id ∷ [])
    raise_if (not (str_eq source.currency source_currency)) currency_mismatch
    raise_if (not (str_eq target.currency target_currency)) currency_mismatch
    balance ← get_balance source_account_id source_currency true false
    required ← lift (make (decimal amount) (code source_currency))
    short ← lift (less balance required)
    raise_if short insufficient_funds

  -- The four entries, the caches and the snapshots.
  pub post_exchange : ℤ → Account → Account → Transaction → Action Transaction
  post_exchange target_amount fx_source fx_target txn = do
    add_entries (
        double_entry source_account_id fx_source.id txn.id amount source_currency
        ++ double_entry fx_target.id target_account_id txn.id target_amount target_currency)
    refresh_balance_cache source_account_id source_currency
    refresh_balance_cache fx_source.id source_currency
    refresh_balance_cache fx_target.id target_currency
    refresh_balance_cache target_account_id target_currency
    maybe_create_snapshot source_account_id
    maybe_create_snapshot fx_source.id
    maybe_create_snapshot fx_target.id
    maybe_create_snapshot target_account_id
    pure txn

  -- From the transaction on.
  pub record_exchange : String → Option String → Rate → Account → Account → Action Transaction
  record_exchange description key rate fx_source fx_target = do
    correlation_id ← build_correlation_id
    now ← gets (λ s. s.context.now)
    let target_amount = exchanged amount rate
    inserted ← insert_transaction key (
        exchange_row amount source_currency target_amount target_currency rate key correlation_id
          description now)
    go_on inserted (post_exchange target_amount fx_source fx_target)

  -- For a rate: the accounts, the clearing accounts, the checks and the transaction.
  pub exchange : String → Option String → Rate → Action Transaction
  exchange description key rate = do
    d ← gets (λ s. s.db)
    source ← or_raise (find_account source_account_id d) account_not_found
    target ← or_raise (find_account target_account_id d) account_not_found
    fx_source ← get_or_create_platform_clearing_account source_currency
    fx_target ← get_or_create_platform_clearing_account target_currency
    check_exchange source target fx_source fx_target
    record_exchange description key rate fx_source fx_target

  pub execute_fx_transfer : Provider → String → String → Option String → Action Transaction
  execute_fx_transfer frankfurter provider_name description key = do
    raise_if (str_eq source_currency target_currency) currency_mismatch
    raise_if (leb_ℤ amount (pos 0)) currency_mismatch
    found ← gets (λ s. find_existing key s.db)
    match_option found (λ t. pure t)
        (get_exchange_rate frankfurter provider_name source_currency target_currency
          >>= exchange description key)
