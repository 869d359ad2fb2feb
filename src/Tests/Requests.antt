-- ===== src/Tests/Requests.antt =====
-- Exchanges, repeated requests, transfer requests and webhooks.
use paysika.Prelude.{◌^◌, ◌%◌, ◌⊎◌, ◌≡◌, ◌≤◌, ◌*◌, ◌+◌, ℕ, true, false, some, refl, arith, ◌∷◌}
use paysika.Prelude.Int.{pos}
use paysika.Errors.{ok}
use paysika.Store.{Account, Db, status_body, ◌>>=◌, pure}
use paysika.Ledger.Invariant.{IsLedger}
use paysika.Exchange.{exchanged, execute_fx_transfer, fallback_rate}
use paysika.Exchange.Rounding.{exchanged-nearest}
use paysika.Balance.Reads.{balance_of}
use paysika.Accounts.Opening.{is_clearing_id}
use paysika.Exchange.{cached_rate}
use paysika.Prelude.Int.{◌≤ℤ◌}
use paysika.Exchange.Steps.{IsPriced, fallback_rate-IsSensible}
use paysika.Exchange.Ledger.{execute_fx_transfer-IsLedger}
use paysika.Idempotency.{
  Response, require_idempotency_key, get_existing_response, run_handler, save_response,
  cache_response,
}
use paysika.Idempotency.Replay.{require_idempotency_key_replayed}
use paysika.Api.{TransferRequest, WebhookRequest, create_transfer, end_request, payment_webhook}
use paysika.Api.Requests.{create_transfer-IsFinished, IsFinished}
use paysika.Api.Webhook.{payment_webhook-IsAtomic, IsAtomic}
use paysika.Tests.Data.{start, small, small-IsLedger}

exchanged-nearest_example :
    (m : ℕ) × (exchanged (pos 25) (record { coefficient = pos 1; places = 1 }) ≡ pos m)
    × (2 * (10 ^ 1 * m) ≤ 2 * (25 * 1) + 10 ^ 1)
    × (2 * (25 * 1) ≤ 2 * (10 ^ 1 * m) + 10 ^ 1)
    × (((2 * (25 * 1) ≡ 2 * (10 ^ 1 * m) + 10 ^ 1) ⊎ (2 * (10 ^ 1 * m) ≡ 2 * (25 * 1) + 10 ^ 1))
        → m % 2 ≡ 0)
exchanged-nearest_example = exchanged-nearest 25 1 1

abbrev euros : Account
euros = record { id = 4; user_id = 3; currency = "EUR"; name = "Bob"; is_system = false }

-- The tables with an account in EUR.
abbrev abroad : Db
abroad = record small { accounts = euros ∷ small.accounts }

abroad_solvent : (a : ℕ) → is_clearing_id a abroad ≡ false → pos 0 ≤ℤ balance_of a abroad
abroad_solvent a user = ground (arith, small-IsLedger.solvent a, small-IsLedger.solvent 4 refl)

no_rates : IsPriced (record start { db = abroad })
unfolding cached_rate
no_rates a b r e = cc

abroad-IsLedger : IsLedger abroad
abroad-IsLedger = record {
  sound = record { exact = small-IsLedger.sound.exact; positive = small-IsLedger.sound.positive };
  balanced = small-IsLedger.balanced;
  solvent = abroad_solvent;
  ordered = ((ground arith, (ground arith, (ground arith, tt))), small-IsLedger.ordered);
}

execute_fx_transfer-IsLedger_example :
    IsLedger
      (execute_fx_transfer 2 4
        (pos 100_000)
        "USD"
        "EUR"
        fallback_rate
        "fallback"
        "trip"
        (some "k")
        (record start { db = abroad })).1.db
execute_fx_transfer-IsLedger_example =
    execute_fx_transfer-IsLedger fallback_rate "fallback" 2 4 (pos 100_000) "USD" "EUR" "trip"
      (some "k") (record start { db = abroad }) fallback_rate-IsSensible no_rates abroad-IsLedger

abbrev done : Response
done = (201, status_body "done")

first_run : (require_idempotency_key (some "k1") "h1" (pure done) start).0 ≡ ok done
unfolding require_idempotency_key run_handler save_response cache_response get_existing_response
    ◌>>=◌
first_run = refl

require_idempotency_key_replayed_example :
    let s' = (require_idempotency_key (some "k1") "h1" (pure done) start).1 in
    require_idempotency_key (some "k1") "h1" (pure (200, status_body "other")) s' ≡ (ok done, s')
unfolding get_existing_response ◌>>=◌
require_idempotency_key_replayed_example =
    require_idempotency_key_replayed "k1" "h1" (pure done) start refl refl done
      (pure (200, status_body "other")) first_run

abbrev pub rent : TransferRequest
rent = record {
  source_account_id = 2;
  target_account_id = 3;
  amount = pos 200_000;
  currency = "USD";
  description = "rent";
}

create_transfer-IsFinished_example :
    IsFinished small (create_transfer 2 rent start).0 (end_request (create_transfer 2 rent start).1)
create_transfer-IsFinished_example = create_transfer-IsFinished 2 rent start refl small-IsLedger

abbrev pub hook : WebhookRequest
hook = record {
  payload = "p";
  signature = "forged";
  ascii = true;
  event_type = "deposit.completed";
  provider_reference = "r1";
  reason = "";
  timestamp = some (pos 30);
  reference = some (pos 2);
}

-- With no secret configured the deposit is confirmed.
payment_webhook-IsAtomic_example :
    IsAtomic small
      (payment_webhook (λ k p. "digest") "" 300 hook start).0
      (payment_webhook (λ k p. "digest") "" 300 hook start).1
payment_webhook-IsAtomic_example =
    payment_webhook-IsAtomic start refl small-IsLedger (λ k p. "digest") "" 300 hook
