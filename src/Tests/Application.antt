-- ===== src/Tests/Application.antt =====
-- The schemas, the users' endpoints, the configuration and the commands.
use paysika.Prelude.{
  ◌≤◌, arith, IsSelection, if◌then◌else◌, ◌≡◌, ◌⊎◌, ℕ, ◌+◌, String, false, Option, none, some, List,
  [], ◌∷◌, length, str_eq, refl,
}
use paysika.Prelude.Int.{ℤ, pos}
use paysika.Errors.{Error, ok, err}
use paysika.Store.{
  next_id, Action, status_body, pure, State, Db, IdempotencyRecord, Transaction, ◌>>=◌,
}
use paysika.Idempotency.{Response}
use paysika.Schemas.{
  codes, Decimal, finite, nan, validate_amount, TransferInput, ValidTransfer, transfer_schema,
  ValidUser, validate_request,
}
use paysika.Schemas.Amounts.{Checked, validate_amount-Checked}
use paysika.Schemas.Requests.{IsGuarded, validate_request-transfers}
use paysika.Auth.{Library, register_user}
use paysika.Accounts.{add_user}
use paysika.Api.Users.{register, login, me, me_registered, tokens_body, user_body}
use paysika.App.{extract_correlation_id, cleanup_idempotency, with_correlation_id}
use paysika.App.Cleanup.{IsRecent, cleanup_idempotency_lem}
use paysika.App.Correlation.{with_correlation_id-transfer}
use paysika.App.Settings.{Settings, base_config, init_app, int_or, text_or, production}
use paysika.Transfers.{execute_transfer}
use paysika.Transfers.Outcome.{transferred}
use paysika.Tests.Data.{start, small, small-IsSound, start-IsReady}
use paysika.Tests.Transfers.{covered, apart, positive}

-- A reading of two texts.
abbrev decimal : String → Option Decimal
decimal text =
    if str_eq text "NaN"
    then some nan
    else if str_eq text "20"
    then some (finite (pos 200_000))
    else none

validate_amount-Checked_example : Checked "NaN" (decimal "NaN") (validate_amount decimal "NaN")
validate_amount-Checked_example = validate_amount-Checked decimal "NaN"

abbrev form : TransferInput
form = record {
  source = some (pos 2);
  target = some (pos 3);
  amount = some "20";
  currency = some "USD";
  description = none;
}

abbrev echo : ValidTransfer → Action Response
echo v = pure (201, status_body v.amount)

validate_request-transfers_example :
    ((i : TransferInput) × (v : ValidTransfer) × (some form ≡ some i)
      × IsGuarded decimal i v
      × (validate_request (transfer_schema decimal) echo (some form) start ≡ echo v start))
    ⊎ ((e : Error) × (validate_request (transfer_schema decimal) echo (some form) start
          ≡ (err e, start)))
validate_request-transfers_example = validate_request-transfers decimal echo (some form) start

abbrev plain : Library
plain = record {
  hash_password = λ p. p;
  check_hash = λ h p. str_eq h p;
  access_token = λ i. "access";
  refresh_token = λ i. "refresh";
}

abbrev carol : ValidUser
carol = record { username = "carol"; email = "carol@mail.test"; password = "password" }

carol_run : (register plain carol start).0 ≡ ok (201, user_body 4 "carol" "carol@mail.test")
unfolding register register_user add_user next_id ◌>>=◌
carol_run = refl

me_registered_example :
    let s' = (register plain carol start).1 in
    (id : ℕ) × (login plain "carol" "password" s' ≡ (ok (200, tokens_body "access" "refresh"), s'))
    × (me id s' ≡ (ok (200, user_body 4 "carol" "carol@mail.test"), s'))
me_registered_example =
    me_registered plain carol start (user_body 4 "carol" "carol@mail.test") "password" carol_run
      refl

abbrev record_at : ℕ → IdempotencyRecord
record_at t = record {
  key = "k";
  request_hash = "h";
  response_code = 201;
  response_body = status_body "done";
  created_at = t;
}

-- A table with an old record and a new one.
abbrev kept : Db
kept = record small { idempotency_records = record_at 20 ∷ record_at 3 ∷ [] }

abbrev resting : State
resting = record start { db = kept; committed = kept }

cleanup_idempotency_lem_example :
    (n : ℕ) × (after : List IdempotencyRecord) × ((cleanup_idempotency 0 resting).0 ≡ ok n)
    × ((cleanup_idempotency 0 resting).1.committed ≡ record kept { idempotency_records = after })
    × (n + length after ≡ 2)
    × IsSelection (IsRecent 0 30) kept.idempotency_records after
cleanup_idempotency_lem_example = cleanup_idempotency_lem 0 resting refl

abc_fits : length (codes (extract_correlation_id (some "abc") "hex")) ≤ 64
unfolding extract_correlation_id
abc_fits = ground arith

with_correlation_id-transfer_example :
    let handler = execute_transfer 2 3 (pos 200_000) "USD" "rent" none in
    let ((id, r), s') = with_correlation_id (some "abc") "hex" handler start in
    (t : Transaction) × (r ≡ ok t)
    × (t.correlation_id ≡ id)
    × (s'.db ≡ transferred 2 3 (pos 200_000) "USD" "rent" none id 30 small)
    × ((text : String) → some "abc" ≡ some text → str_eq text "" ≡ false → id ≡ text)
with_correlation_id-transfer_example =
    with_correlation_id-transfer (some "abc") "hex" 2 3 (pos 200_000) "USD" "rent" start abc_fits
      small-IsSound covered start-IsReady apart positive

-- An environment that sets every secret.
abbrev pub environment : String → Option String
environment name =
    if str_eq name "DATABASE_URL"
    then some "postgresql://db"
    else if str_eq name "SECRET_KEY"
    then some "one"
    else if str_eq name "JWT_SECRET_KEY"
    then some "two"
    else if str_eq name "WEBHOOK_SECRET"
    then some "three"
    else none

abbrev pub number : String → Option ℤ
number text = if str_eq text "20" then some (pos 20) else some (pos 100)

abbrev pub settings : Settings
settings = record {
  secret_key = "one";
  jwt_secret_key = "two";
  items_per_page = pos 20;
  max_per_page = pos 100;
  ledger_snapshot_threshold = pos 100;
  idempotency_key_ttl_hours = pos 100;
  platform_clearing_account_name = "Platform Clearing";
  supported_currencies = "USD,EUR,GBP,NGN,XAF";
  webhook_secret = "three";
  webhook_timestamp_tolerance = pos 100;
}

pub started_up : production environment number ≡ ok settings
unfolding production base_config init_app int_or text_or
started_up = refl
