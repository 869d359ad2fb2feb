-- ===== src/Tests/System.antt =====
-- Runs of requests and jobs on the small tables.
use paysika.Prelude.{◌≡◌, some, refl, arith, str_eq}
use paysika.Prelude.Int.{pos, ◌+ℤ◌}
use paysika.Errors.{ok}
use paysika.Domain.Enums.{of_value, TransactionStatus}
use paysika.Store.{State}
use paysika.Balance.Reads.{balance_of}
use paysika.Deposits.{confirm_deposit, confirm_pending, complete}
use paysika.Deposits.Stale.{confirm_stale}
use paysika.Api.{create_transfer, payment_webhook, end_request}
use paysika.Idempotency.{require_idempotency_key}
use paysika.System.Bank.{bank_of}
use paysika.System.Refinement.{BankRun, Run-BankRun}
use paysika.System.Steps.{Setting, transfers, webhooks, Run, here, next, IsAtRest, Run-IsAtRest}
use paysika.System.Finality.{IsFinal, IsSettled, Run-IsSettled}
use paysika.Tests.Data.{
  start, small, small-IsLedger, start-IsReady, purse, first_deposit, second_deposit,
}
use paysika.Tests.Requests.{rent, hook}
use paysika.Tests.Deposits.{opened}
use paysika.System.Records.{Run-records}

abbrev setting : Setting
setting = record {
  library = record {
    hash_password = λ p. p;
    check_hash = str_eq;
    access_token = λ i. "access";
    refresh_token = λ i. "refresh";
  };
  hexdigest = λ k p. "digest";
  secret = "";
  tolerance = 300;
  paginate = λ rows page per_page. record { items = rows; total = 1; pages = 1 };
  items_per_page = pos 20;
  max_per_page = pos 100;
}

start-IsAtRest : IsAtRest start
start-IsAtRest = record { clean = refl; ledger = small-IsLedger }

-- A transfer of Alice's, and the webhook that confirms her second deposit.
abbrev paid : State
paid = (end_request (require_idempotency_key (some "k9") "h" (create_transfer 2 rent) start).1)

abbrev confirmed_later : State
confirmed_later = end_request (payment_webhook (λ k p. "digest") "" 300 hook paid).1

morning : Run setting start confirmed_later
morning = next (next here (transfers 2 (some "k9") "h" rent start)) (webhooks hook paid)

Run-IsAtRest_example : IsAtRest confirmed_later
Run-IsAtRest_example = Run-IsAtRest setting morning start-IsAtRest

Run-BankRun_example : BankRun (bank_of small) (bank_of confirmed_later.committed)
Run-BankRun_example = Run-BankRun setting morning start-IsAtRest

first-IsFinal : IsFinal 1 TransactionStatus.completed small
first-IsFinal = record {
  transaction = first_deposit;
  found = refl;
  own_status = refl;
  settled = refl;
}

Run-IsSettled_example : IsSettled 1 TransactionStatus.completed small confirmed_later.committed
Run-IsSettled_example =
    Run-IsSettled setting 1 TransactionStatus.completed morning start-IsAtRest first-IsFinal

-- Another session that sees the tables after the first confirmation.
abbrev late : State
late = record start { db = (confirm_deposit 2 "r1" start).1.db }

confirm_stale_example :
    ((confirm_deposit 2 "r1" start).0 ≡ ok (complete "r1" second_deposit))
    × ((confirm_pending "r2" second_deposit late).0 ≡ ok (complete "r2" second_deposit))
    × (balance_of 2 (confirm_pending "r2" second_deposit late).1.db
        ≡ balance_of 2 small +ℤ pos 500_000 +ℤ pos 500_000)
unfolding of_value
confirm_stale_example =
    confirm_stale 2 "r1" "r2" start late second_deposit purse opened start-IsReady refl refl refl
      refl refl (λ e. ground arith) (record { queue = refl; wired = refl }) refl

Run-records_example : confirmed_later.committed.idempotency_records ≡ small.idempotency_records
Run-records_example = Run-records setting morning start-IsAtRest
