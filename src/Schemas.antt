-- ===== src/Schemas.antt =====
-- app/schemas and `validate_request` of app/utils/decorators.py: what a request's body must be. A field
-- is what pydantic's coercion makes of it, none where it is missing or of another type.
pub mod Amounts
pub mod Requests
pub mod Webhook
use Prim.Native.Char.{code}
use Prim.Native.String.{count}
use paysika.Prelude.{
  ◌==◌, ℕ, ◌+◌, String, Bool, true, false, Option, none, some, List, [], ◌∷◌, ◌&&◌, leb, not,
  if◌then◌else◌, length,
}
use paysika.Prelude.Int.{ℤ, pos, leb_ℤ}
use paysika.Errors.{Error, validation, arithmetic_error}
use paysika.Store.{Action, raise}
use paysika.Idempotency.{Response}

-- A value that has been validated, a value that has not, or an exception that pydantic does not catch.
pub data Validated (A : Type 0) : Type 0 where
  valid : A → Validated A
  invalid : Validated A
  raised : Error → Validated A

-- Every field is looked at, and the exception of one ends it all.
abbrev pub both : {A B : Type 0} → Validated A → Validated B → Validated (A × B)
both (raised e) y = raised e
both (valid a) (valid b) = valid (a, b)
both (valid a) invalid = invalid
both (valid a) (raised e) = raised e
both invalid (valid b) = invalid
both invalid invalid = invalid
both invalid (raised e) = raised e

abbrev pub map_valid : {A B : Type 0} → (A → B) → Validated A → Validated B
map_valid f (valid a) = valid (f a)
map_valid f invalid = invalid
map_valid f (raised e) = raised e

-- What `Decimal(text)` may be.
pub data Decimal : Type 0 where
  finite : ℤ → Decimal
  infinity : Decimal
  minus_infinity : Decimal
  nan : Decimal

-- The code points of a text. `String` has its own `[]` and `∷`.
abbrev pub codes : String → List ℕ
codes String.[] = []
codes (String.◌∷◌ c s) = code c ∷ codes s

abbrev pub all_upper : List ℕ → Bool
all_upper [] = true
all_upper (c ∷ cs) = leb 65 c && leb c 90 && all_upper cs

-- `Field(..., min_length=3, max_length=3, pattern="^[A-Z]{3}$")`.
pub currency_field : Option String → Validated String
currency_field none = invalid
currency_field (some text) =
    if length (codes text) == 3 && all_upper (codes text) then valid text else invalid

-- `Field(..., min_length=low, max_length=high)`.
pub text_field : ℕ → ℕ → Option String → Validated String
text_field low high none = invalid
text_field low high (some text) =
    if leb low (length (codes text)) && leb (length (codes text)) high then valid text else invalid

-- `Field(default="", max_length=high)`: a missing field is `none`, and one of another type `some none`.
pub default_field : ℕ → Option (Option String) → Validated String
unfolding text_field
default_field high none = valid ""
default_field high (some text) = text_field 0 high text

pub int_field : Option ℤ → Validated ℤ
int_field none = invalid
int_field (some n) = valid n

-- `decimal` is `Decimal`, none where it raises.
module _ (decimal : String → Option Decimal) where
  -- The order of a NaN raises `InvalidOperation`, outside the `try`.
  pub amount_sign : String → Decimal → Validated String
  amount_sign text (finite d) = if leb_ℤ d (pos 0) then invalid else valid text
  amount_sign text infinity = valid text
  amount_sign text minus_infinity = invalid
  amount_sign text nan = raised arithmetic_error

  -- `validate_amount`, the same in the three schemas that have it.
  pub validate_amount : String → Validated String
  unfolding amount_sign
  validate_amount text = elim (decimal text) [ none ↦ invalid | some d ↦ amount_sign text d ]

  pub amount_field : Option String → Validated String
  unfolding validate_amount
  amount_field none = invalid
  amount_field (some text) = validate_amount text

-- The body of a transfer request, and the same once it has been validated.
pub record TransferInput : Type 0 where
  pub source : Option ℤ
  pub target : Option ℤ
  pub amount : Option String
  pub currency : Option String
  pub description : Option (Option String)

pub record ValidTransfer : Type 0 where
  pub source : ℤ
  pub target : ℤ
  pub amount : String
  pub currency : String
  pub description : String

pub record DepositInput : Type 0 where
  pub account : Option ℤ
  pub amount : Option String
  pub currency : Option String
  pub description : Option (Option String)

pub record ValidDeposit : Type 0 where
  pub account : ℤ
  pub amount : String
  pub currency : String
  pub description : String

pub record UserInput : Type 0 where
  pub username : Option String
  pub email : Option String
  pub password : Option String

pub record ValidUser : Type 0 where
  pub username : String
  pub email : String
  pub password : String

-- `AccountCreate`: a currency and a name.
pub account_schema : Option String → Option (Option String) → Validated (String × String)
unfolding currency_field default_field
account_schema currency name = both (currency_field currency) (default_field 120 name)

-- `EmailStr`, where `is_email` is what the library accepts.
pub email_field : (String → Bool) → Option String → Validated String
email_field is_email none = invalid
email_field is_email (some text) = if is_email text then valid text else invalid

-- `UserRegister`.
pub user_schema : (String → Bool) → UserInput → Validated ValidUser
unfolding text_field email_field
user_schema is_email i =
    map_valid (λ v. record { username = v.0; email = v.1.0; password = v.1.1 })
      (both (text_field 3 80 i.username)
        (both (email_field is_email i.email) (text_field 8 128 i.password)))

module _ (decimal : String → Option Decimal) where
  pub transfer_schema : TransferInput → Validated ValidTransfer
  unfolding int_field amount_field currency_field default_field
  transfer_schema i =
      map_valid
        (λ v. record {
          source = v.0;
          target = v.1.0;
          amount = v.1.1.0;
          currency = v.1.1.1.0;
          description = v.1.1.1.1;
        })
        (both (int_field i.source) (
          both (int_field i.target) (
            both (amount_field decimal i.amount)
              (both (currency_field i.currency) (default_field 500 i.description)))))

  -- `DepositRequest` and `DepositInitiateRequest`, which are alike.
  pub deposit_schema : DepositInput → Validated ValidDeposit
  unfolding int_field amount_field currency_field default_field
  deposit_schema i =
      map_valid
        (λ v. record { account = v.0; amount = v.1.0; currency = v.1.1.0; description = v.1.1.1 })
        (both (int_field i.account) (
          both (amount_field decimal i.amount)
            (both (currency_field i.currency) (default_field 500 i.description))))

-- The wrapper of the decorator: a body that is no JSON is `none`.
module _ {J A : Type 0} (schema : J → Validated A) (handler : A → Action Response) where
  run_valid : Validated A → Action Response
  run_valid (valid a) = handler a
  run_valid invalid = raise validation
  run_valid (raised e) = raise e

  pub validate_request : Option J → Action Response
  unfolding run_valid
  validate_request none = raise validation
  validate_request (some json) = run_valid (schema json)
