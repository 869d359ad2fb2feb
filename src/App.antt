-- ===== src/App.antt =====
-- app/__init__.py, app/middleware and config.py: the commands, the answers to errors, the correlation
-- id of a request, and the checks at the start.
pub mod Cleanup
pub mod Settings
pub mod Correlation
use paysika.Prelude.{
  ℕ, ◌+◌, ◌*◌, String, Bool, true, false, Option, none, some, List, [], ◌∷◌, ltb, not, length,
  select, or_else, if◌then◌else◌,
}
use paysika.Errors.{Error, Result, ok, err, status_code}
use paysika.Errors as Errors
use paysika.Store.{
  Action, State, IdempotencyRecord, error_body, status_body, pure, gets, modify, modify_db, is_set,
  ◌>>=◌, ◌>>◌,
}
use paysika.Idempotency.{Response}
use paysika.Api.{committed_now}
use paysika.Jobs.{recover_orphan_deposits}

-- `IdempotencyRecord.created_at < now - hours`. Times are in microseconds.
abbrev pub is_old : ℕ → ℕ → IdempotencyRecord → Bool
is_old hours now r = ltb (r.created_at + hours * 3_600_000_000) now

-- `flask cleanup-idempotency`: the number that it prints.
pub cleanup_idempotency : ℕ → Action ℕ
cleanup_idempotency hours = do
  now ← gets (λ s. s.context.now)
  old ← gets (λ s. select (is_old hours now) s.db.idempotency_records)
  modify_db (λ d. record d {
    idempotency_records = select (λ r. not (is_old hours now r)) d.idempotency_records;
  })
  modify committed_now
  pure (length old)

-- `flask recover-orphan-deposits`, which initialises the jobs first.
pub recover_command : ℕ → Action ℕ
recover_command delay_minutes = recover_orphan_deposits true delay_minutes

-- The callbacks of the tokens, of the rate limit, and of health.
abbrev pub expired_token : Response
expired_token = (401, error_body "Token has expired")

abbrev pub invalid_token : Response
invalid_token = (401, error_body "Invalid token")

abbrev pub missing_token : Response
missing_token = (401, error_body "Authorization token required")

abbrev pub rate_limited : Response
rate_limited = (429, error_body "Rate limit exceeded. Try again later.")

abbrev pub health_answer : Response
health_answer = (200, status_body "healthy")

-- Whether an exception is an `APIError`.
pub is_api_error : Error → Bool
is_api_error Errors.type_error = false
is_api_error Errors.value_error = false
is_api_error Errors.arithmetic_error = false
is_api_error Errors.assertion_error = false
is_api_error Errors.integrity_error = false
is_api_error Errors.runtime_error = false
is_api_error Errors.queue_error = false
is_api_error _ = true

-- `handle_api_error`, and `internal_error` for anything else. `message` is `error.message`.
pub respond : (Error → String) → Result Response → Response
unfolding is_api_error
respond message (ok response) = response
respond message (err e) =
    if is_api_error e
    then (status_code e, error_body (message e))
    else (500, error_body "Internal server error")

-- `extract_correlation_id`, for the header and a new `uuid4().hex`.
unfoldable pub extract_correlation_id : Option String → String → String
extract_correlation_id header hex = if is_set header then or_else header "" else hex

-- The request runs with the id, and the answer has it as its header X-Correlation-ID.
pub with_correlation_id :
    {A : Type 0} → Option String → String → Action A → State → (String × Result A) × State
unfolding extract_correlation_id
with_correlation_id header hex handler s =
    let id = extract_correlation_id header hex in
    let (r, s') = handler (record s { context = record s.context { correlation_id = some id } }) in
    ((id, r), s')
