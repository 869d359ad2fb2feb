-- ===== src/Domain/Money.antt =====
-- app/domain/money.py: the Money value object. A Decimal is a whole number of ten-thousandths, the
-- scale of the ledger's Numeric(19, 4) columns.
pub mod Laws
use paysika.Prelude.{String, Bool, Option, none, some, not}
use paysika.Prelude.Int.{ℤ, pos, ◌+ℤ◌, ◌-ℤ◌, ◌*ℤ◌, neg, ltb_ℤ, leb_ℤ, eqb_ℤ}
use paysika.Errors.{Result, ok, err, type_error, value_error, then_do, or_error, check}
use paysika.Domain.Enums.{Currency, of_value, same_currency}
use mathlib.Core.Bool.{◌&&◌}

pub record Money : Type 0 where
  pub amount : ℤ
  pub currency : Currency

-- What the constructor is given: a text is the decimal that it spells, if it spells one.
pub data Amount : Type 0 where
  decimal : ℤ → Amount
  integer : ℤ → Amount
  text : Option ℤ → Amount
  float : Amount

pub data CurrencyArg : Type 0 where
  member : Currency → CurrencyArg
  code : String → CurrencyArg

abbrev pub unit : ℤ
unit = pos 10_000

-- `Decimal(str(amount))`, with `float` refused first.
pub read_amount : Amount → Result ℤ
read_amount (decimal d) = ok d
read_amount (integer n) = ok (n *ℤ unit)
read_amount (text none) = err value_error
read_amount (text (some d)) = ok d
read_amount float = err type_error

pub read_currency : CurrencyArg → Result Currency
read_currency (member c) = ok c
read_currency (code name) = or_error (of_value name) value_error

-- `Money(amount, currency)`.
unfoldable pub make : Amount → CurrencyArg → Result Money
unfolding read_amount read_currency
make amount currency =
    then_do (read_amount amount)
      λ a. then_do (read_currency currency) λ c. ok (record { amount = a; currency = c })

-- `_check_currency`.
pub check_currency : Money → Money → Result (Unit {0})
check_currency a b = check (not (same_currency a.currency b.currency)) value_error

-- `__add__`.
pub add : Money → Money → Result Money
unfolding check_currency make
add a b =
    then_do (check_currency a b) λ _. make (decimal (a.amount +ℤ b.amount)) (member a.currency)

-- `__sub__`.
pub sub : Money → Money → Result Money
unfolding check_currency make
sub a b =
    then_do (check_currency a b) λ _. make (decimal (a.amount -ℤ b.amount)) (member a.currency)

-- `__neg__`.
pub negate : Money → Result Money
unfolding make
negate a = make (decimal (neg a.amount)) (member a.currency)

-- `__eq__`.
pub equal : Money → Money → Bool
equal a b = eqb_ℤ a.amount b.amount && same_currency a.currency b.currency

-- `__lt__`.
unfoldable pub less : Money → Money → Result Bool
unfolding check_currency
less a b = then_do (check_currency a b) λ _. ok (ltb_ℤ a.amount b.amount)

-- `__le__`.
pub less_eq : Money → Money → Result Bool
unfolding check_currency
less_eq a b = then_do (check_currency a b) λ _. ok (leb_ℤ a.amount b.amount)

-- `__gt__`.
pub greater : Money → Money → Result Bool
unfolding check_currency
greater a b = then_do (check_currency a b) λ _. ok (ltb_ℤ b.amount a.amount)

-- `__ge__`.
pub greater_eq : Money → Money → Result Bool
unfolding check_currency
greater_eq a b = then_do (check_currency a b) λ _. ok (leb_ℤ b.amount a.amount)

pub is_positive : Money → Bool
is_positive a = ltb_ℤ (pos 0) a.amount

pub is_negative : Money → Bool
is_negative a = ltb_ℤ a.amount (pos 0)

pub is_zero : Money → Bool
is_zero a = eqb_ℤ a.amount (pos 0)

-- `Money.zero`.
pub zero : CurrencyArg → Result Money
unfolding make
zero currency = make (decimal (pos 0)) currency
