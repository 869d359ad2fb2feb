-- ===== src/Domain/Enums.antt =====
-- app/domain/enums.py: the string enumerations. A column that stores the `.value` of a member holds
-- the member.
use paysika.Prelude.{
  String, Bool, true, false, Option, none, some, str_eq, if◌then◌else◌, ◌≡◌, arith,
}

pub data TransactionType : Type 0 where
  deposit transfer withdrawal fx_exchange : TransactionType

pub data TransactionStatus : Type 0 where
  pending completed failed : TransactionStatus

pub data EntryType : Type 0 where
  debit credit : EntryType

pub data EntryStatus : Type 0 where
  pending success failed : EntryStatus

pub data Currency : Type 0 where
  usd eur gbp ngn xaf : Currency

abbrev pub is_pending : TransactionStatus → Bool
is_pending TransactionStatus.pending = true
is_pending TransactionStatus.completed = false
is_pending TransactionStatus.failed = false

abbrev pub is_deposit : TransactionType → Bool
is_deposit TransactionType.deposit = true
is_deposit TransactionType.transfer = false
is_deposit TransactionType.withdrawal = false
is_deposit TransactionType.fx_exchange = false

abbrev pub is_success : EntryStatus → Bool
is_success EntryStatus.pending = false
is_success EntryStatus.success = true
is_success EntryStatus.failed = false

abbrev pub same_currency : Currency → Currency → Bool
same_currency usd usd = true
same_currency eur eur = true
same_currency gbp gbp = true
same_currency ngn ngn = true
same_currency xaf xaf = true
same_currency _ _ = false

-- `Currency.value`.
pub value : Currency → String
value usd = "USD"
value eur = "EUR"
value gbp = "GBP"
value ngn = "NGN"
value xaf = "XAF"

-- `Currency(text)`, `none` where it raises `ValueError`.
unfoldable pub of_value : String → Option Currency
of_value text =
    if str_eq text "USD"
    then some usd
    else if str_eq text "EUR"
    then some eur
    else if str_eq text "GBP"
    then some gbp
    else if str_eq text "NGN"
    then some ngn
    else if str_eq text "XAF"
    then some xaf
    else none

pub same_currency_refl : (c : Currency) → same_currency c c ≡ true
same_currency_refl c = ground arith

pub same_currency→≡ : (c d : Currency) → same_currency c d ≡ true → c ≡ d
same_currency→≡ c d h = ground arith
