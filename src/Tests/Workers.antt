-- ===== src/Tests/Workers.antt =====
-- The recovery of the pending deposit.
use paysika.Prelude.{List, IsSelection, ◌≡◌, true, refl, ◌++◌, [], map, length}
use paysika.Errors.{ok}
use paysika.Store.{Transaction, notify_provider}
use paysika.Deposits.{meta_amount, meta_currency}
use paysika.Jobs.{recover_orphan_deposits}
use paysika.Jobs.Recovery.{IsForgotten, recover_orphan_deposits_lem}
use paysika.Tests.Data.{start, small}

recover_orphan_deposits_lem_example :
    (found : List Transaction) × IsSelection (IsForgotten 0 30) small.transactions found
    × (recover_orphan_deposits true 0 start ≡ (
      ok (length found),
      record start {
        jobs = [] ++ map (λ t. notify_provider t.id (meta_amount t) (meta_currency t)) found;
      },
    ))
recover_orphan_deposits_lem_example = recover_orphan_deposits_lem 0 start refl
