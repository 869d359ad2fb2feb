-- ===== src/Tests/Parts.antt =====
-- Locks and balances.
use paysika.Prelude.{◌≡◌, ℕ, refl, List, [], ◌∷◌, ◌++◌, map}
use mathlib.Core.List.{Perm}
use paysika.Errors.{ok}
use paysika.Store.{account_row}
use paysika.Lock.{lock_accounts}
use paysika.Lock.Order.{lock_accounts_lem, IsAscending}
use paysika.Balance.{computed_total, sum_where, counts}
use paysika.Balance.Snapshots.{computed_total-eq-sum}
use paysika.Tests.Data.{start, small, small-IsSound}

lock_accounts_lem_example :
    (order : List ℕ) × IsAscending order
    × Perm order (3 ∷ 1 ∷ [])
    × (lock_accounts (3 ∷ 1 ∷ []) start
        ≡ (ok tt, record start { locks = [] ++ map account_row order }))
lock_accounts_lem_example = lock_accounts_lem (3 ∷ 1 ∷ []) start refl

computed_total-eq-sum_example : computed_total 2 small ≡ sum_where (counts 2) small.entries
computed_total-eq-sum_example = computed_total-eq-sum 2 small small-IsSound
