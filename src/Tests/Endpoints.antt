-- ===== src/Tests/Endpoints.antt =====
-- The endpoints of accounts and deposits, and repeated webhooks.
use paysika.Prelude.{◌≡◌, ◌*◌, suc, some, none, inl, refl, arith, List, [], length, take, drop}
use paysika.Prelude.Int.{◌-ℤ◌, pos, ℤ}
use paysika.Errors.{ok}
use paysika.Domain.Enums.{of_value, TransactionStatus}
use paysika.Store.{◌>>=◌, Body, Transaction, deposit_body, next_id}
use paysika.Balance.Reads.{balance_of}
use paysika.Deposits.Direct.{initiated}
use paysika.Ledger.Effects.{with_transaction}
use paysika.Api.{
  refuse_signature, is_stale, DepositRequest, create_deposit, payment_webhook, end_request,
  rolled_back, WebhookRequest,
}
use paysika.Api.Initiation.{create_deposit_accepted}
use paysika.Api.Events.{IsAccepted, payment_webhook_again}
use paysika.Api.Accounts.{AccountCreate, Answer, balance_body, forbidden_answer}
use paysika.Api.Accounts as Endpoint
use paysika.Api.Accounts.Access.{get_balance_owned, create_account-IsOpening, IsOpening}
use paysika.Queries.{Pagination}
use paysika.Tests.Data.{start, outage, small, small-IsLedger, small-IsSound, purse}
use paysika.Tests.Requests.{hook}

-- Pages from 1 on, and as many pages as rows.
pages : List Transaction → ℤ → ℤ → Pagination
pages rows (pos (suc p)) (pos (suc n)) = record {
  items = take (suc n) (drop (p * suc n) rows);
  total = length rows;
  pages = length rows;
}
pages rows page per_page = record { items = []; total = length rows; pages = length rows }

get_balance_owned_example :
    (Endpoint.get_balance 2 2 start).0 ≡ ok (200, balance_body 2 "USD" (balance_of 2 small))
unfolding of_value
get_balance_owned_example =
    get_balance_owned 2 2 start purse small-IsSound refl refl refl (inl refl)

abbrev euro_account : AccountCreate
euro_account = record { currency = "EUR"; name = "Travel" }

create_account-IsOpening_example :
    IsOpening 2 euro_account small
      (Endpoint.create_account 2 euro_account start).0
      (end_request (Endpoint.create_account 2 euro_account start).1)
create_account-IsOpening_example = create_account-IsOpening 2 euro_account start refl small-IsLedger

abbrev savings_plan : DepositRequest
savings_plan = record { account_id = 2; amount = pos 700_000; currency = "USD"; description = "" }

create_deposit_accepted_example :
    let row = initiated 2 (pos 700_000) "USD" "" none outage "mock" in
    ((create_deposit 2 savings_plan outage).0
      ≡ ok (
        202,
        deposit_body
            (next_id (λ (t : Transaction). t.id) small.transactions)
            TransactionStatus.pending
            2
            (pos 700_000)
            "USD",
      ))
    × ((create_deposit 2 savings_plan outage).1.committed ≡ with_transaction row small)
create_deposit_accepted_example =
    create_deposit_accepted 2 savings_plan outage purse refl refl refl refl refl

-- A webhook about the deposit that is completed already.
abbrev repeat : WebhookRequest
repeat = record hook { reference = some (pos 1) }

repeat-IsAccepted : IsAccepted (λ k p. "digest") "" 300 repeat 1 start
unfolding is_stale refuse_signature ◌-ℤ◌ ◌>>=◌
repeat-IsAccepted = record {
  signed = refl;
  time = pos 30;
  timed = refl;
  recent = refl;
  reference = refl;
}

payment_webhook_again_example :
    (message : Body) × (payment_webhook (λ k p. "digest") "" 300 repeat start
      ≡ (ok (422, message), rolled_back start))
payment_webhook_again_example =
    payment_webhook_again (λ k p. "digest") "" 300 repeat 1 start repeat-IsAccepted (inl refl)
      (λ e. ground arith)
