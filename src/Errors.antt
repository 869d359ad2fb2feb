-- ===== src/Errors.antt =====
-- app/utils/exceptions.py and app/middleware/error_handlers.py: the exceptions that services raise,
-- and the HTTP status that the error handlers answer. Messages are left out.
use paysika.Prelude.{ℕ, Bool, true, false, Option, none, some, ◌≡◌, ◌⊎◌, inl, inr, refl}

-- The subclasses of `APIError`, and the other exceptions that reach a handler.
pub data Error : Type 0 where
  api_error : ℕ → Error
  not_found conflict unauthorized forbidden validation : Error
  insufficient_funds account_not_found currency_mismatch invalid_transaction_state : Error
  type_error value_error arithmetic_error assertion_error integrity_error runtime_error
        queue_error :
      Error

-- `APIError` subclasses carry their status; anything else meets the handler for 500.
pub status_code : Error → ℕ
status_code (api_error code) = code
status_code not_found = 404
status_code conflict = 409
status_code unauthorized = 401
status_code forbidden = 403
status_code validation = 422
status_code insufficient_funds = 422
status_code account_not_found = 404
status_code currency_mismatch = 422
status_code invalid_transaction_state = 409
status_code type_error = 500
status_code value_error = 500
status_code arithmetic_error = 500
status_code assertion_error = 500
status_code integrity_error = 500
status_code runtime_error = 500
status_code queue_error = 500

pub data Result (A : Type 0) : Type 0 where
  ok : A → Result A
  err : Error → Result A

-- An exception ends the computation.
abbrev pub then_do : {A B : Type 0} → Result A → (A → Result B) → Result B
then_do (ok a) f = f a
then_do (err e) f = err e

abbrev pub or_error : {A : Type 0} → Option A → Error → Result A
or_error none e = err e
or_error (some a) e = ok a

abbrev pub check : Bool → Error → Result (Unit {0})
check true e = err e
check false e = ok tt

pub Result-cases :
    {A : Type 0} (r : Result A) → ((a : A) × (r ≡ ok a)) ⊎ ((e : Error) × (r ≡ err e))
Result-cases (ok a) = inl (a, refl)
Result-cases (err e) = inr (e, refl)
