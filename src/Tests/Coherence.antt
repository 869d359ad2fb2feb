-- ===== src/Tests/Coherence.antt =====
-- A transfer request and a webhook under a cache that holds a balance.
use paysika.Prelude.{◌∷◌, [], refl, arith}
use paysika.Prelude.Int.{pos, ◌+ℤ◌}
use paysika.Store.{State}
use paysika.Balance.{sum_where}
use paysika.Balance.Coherence.{IsCoherent}
use paysika.Ledger.Coherence.{IsRight}
use paysika.Api.{payment_webhook, create_transfer, end_request}
use paysika.Api.Coherence.{payment_webhook-IsRight, create_transfer-IsRight}
use paysika.Tests.Data.{start, small-IsSound, start-IsReady}
use paysika.Tests.Requests.{hook, rent}

abbrev warm : State
warm = record start { balance_cache = (2, record { amount = pos 500_000; currency = "USD" }) ∷ [] }

warm-IsCoherent : IsCoherent warm
unfolding sum_where ◌+ℤ◌
warm-IsCoherent = record { at = λ a v e. ground arith }

create_transfer-IsRight_example : IsRight (end_request (create_transfer 2 rent warm).1)
create_transfer-IsRight_example =
    create_transfer-IsRight 2 rent warm
      (record { queue = start-IsReady.queue; wired = start-IsReady.wired })
      (record { sound = small-IsSound; coherent = warm-IsCoherent }) refl

payment_webhook-IsRight_example : IsRight (payment_webhook (λ k p. "digest") "" 300 hook warm).1
payment_webhook-IsRight_example =
    payment_webhook-IsRight warm
      (record { queue = start-IsReady.queue; wired = start-IsReady.wired })
      (record { sound = small-IsSound; coherent = warm-IsCoherent }) refl (λ k p. "digest") "" 300
      hook
