-- ===== src/Tests/Outage.antt =====
-- A transfer request while the queue is down.
use paysika.Prelude.{◌≡◌, ◌∷◌, [], ℕ, false, refl, some}
use paysika.Prelude.Int.{pos, ◌-ℤ◌}
use paysika.Errors.{ok, err, queue_error}
use paysika.Domain.Enums.{of_value, usd}
use paysika.Domain.Events.{transfer_completed}
use paysika.Store.{◌>>=◌}
use paysika.EventBus.{get_user_email}
use paysika.EventBus.Delivery.{recipients}
use paysika.Balance.{get_balance}
use paysika.Balance.Reads.{balance_of}
use paysika.Transfers.Outage.{IsCut}
use paysika.Api.{create_transfer, end_request}
use paysika.Api.Outage.{create_transfer_down}
use paysika.Tests.Data.{outage, small, small-IsSound, purse}
use paysika.Tests.Requests.{rent}
use paysika.Tests.Transfers.{covered, apart, positive}

mailed :
    (t : ℕ)
    → recipients (transfer_completed t 2 3 (pos 200_000) "USD") small
      ≡ "alice@mail.test" ∷ "bob@mail.test" ∷ []
unfolding get_user_email ◌>>=◌
mailed t = refl

cut : IsCut 2 3 (pos 200_000) "USD" outage
cut = record {
  sound = small-IsSound;
  covered = record {
    source_account = covered.source_account;
    target_account = covered.target_account;
    supported = covered.supported;
    funds = covered.funds;
  };
  apart = apart;
  positive = positive;
  wired = refl;
  down = refl;
  first = "alice@mail.test";
  others = "bob@mail.test" ∷ [];
  mailed = mailed;
}

supported : of_value "USD" ≡ some usd
unfolding of_value
supported = refl

create_transfer_down_example :
    let s' = end_request (create_transfer 2 rent outage).1 in
    ((create_transfer 2 rent outage).0 ≡ err queue_error)
    × (s'.db ≡ small)
    × (s'.committed ≡ small)
    × ((get_balance 2 "USD" false false s').0
        ≡ ok (record { amount = balance_of 2 small -ℤ pos 200_000; currency = usd }))
create_transfer_down_example =
    create_transfer_down 2 rent outage purse refl refl "USD" refl cut supported
