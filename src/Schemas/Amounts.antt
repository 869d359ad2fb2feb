-- ===== src/Schemas/Amounts.antt =====
-- Which amounts the schemas let through, and which requests reach their handlers.
use paysika.Prelude.{
  String, ◌≡◌, inl, inr, Option, some, none, true, arith, Bool-cases, Option-cases,
}
use paysika.Prelude.Int.{ℤ, pos, ◌<ℤ◌, ◌≤ℤ◌, leb_ℤ, leb_ℤ-false}
use paysika.Errors.{arithmetic_error}
use paysika.Schemas.{
  Validated, valid, invalid, raised, Decimal, finite, infinity, minus_infinity, nan,
  validate_amount, amount_sign,
}

-- Positive amounts, and infinity.
pub data IsPayable : Decimal → Type 0 where
  positive : {d : ℤ} → pos 0 <ℤ d → IsPayable (finite d)
  unbounded : IsPayable infinity

-- What the check of an amount answers, by what the text is read as.
pub data Checked (text : String) : Option Decimal → Validated String → Type 0 where
  passes : {d : Decimal} → IsPayable d → Checked text (some d) (valid text)
  unread : Checked text none invalid
  not_positive : {d : ℤ} → d ≤ℤ pos 0 → Checked text (some (finite d)) invalid
  below_all : Checked text (some minus_infinity) invalid
  unordered : Checked text (some nan) (raised arithmetic_error)

not_above : (d : ℤ) → leb_ℤ d (pos 0) ≡ true → d ≤ℤ pos 0
not_above d h = ground arith

amount_sign-Checked :
    (decimal : String → Option Decimal) (text : String) (d : Decimal)
    → Checked text (some d) (amount_sign decimal text d)
unfolding amount_sign
amount_sign-Checked decimal text (finite d) = elim (Bool-cases (leb_ℤ d (pos 0))) [
  | inl low ↦ rw low (not_positive (not_above d low))
  | inr high ↦ rw high (passes (positive (leb_ℤ-false d (pos 0) high)))
]
amount_sign-Checked decimal text infinity = passes unbounded
amount_sign-Checked decimal text minus_infinity = below_all
amount_sign-Checked decimal text nan = unordered

-- The schemas' check of an amount returns the text unchanged if it reads as a positive decimal or as
-- infinity, refuses it if it does not read as a decimal or is not positive, and raises an error that
-- no one catches if it is a NaN.
pub validate_amount-Checked :
    (decimal : String → Option Decimal) (text : String)
    → Checked text (decimal text) (validate_amount decimal text)
unfolding validate_amount
validate_amount-Checked decimal text = elim (Option-cases (decimal text)) [
  | inl missing ↦ rw (missing, validate_amount) unread
  | inr (d, e) ↦ rw (e, validate_amount) (amount_sign-Checked decimal text d)
]
