-- ===== src/Transfers/Committed.antt =====
-- A transfer does not commit.
use paysika.Prelude.{ℕ, String, Option}
use paysika.Prelude.Int.{ℤ}
use paysika.Store.{Db, Transaction}
use paysika.Store.Keeps.{Keeps}
use paysika.Ledger.{add_entries, build_correlation_id, go_on, Inserted, existing, created}
use paysika.Ledger.Committed.{
  HasCommitted, Untouched-HasCommitted, committed_rules, insert-HasCommitted,
}
use paysika.Transfers.{check_transfer, post_transfer, new_transfer, execute_transfer}
use paysika.Transfers.Steps.{check_transfer-Keeps}

module _ (c : Db) (source target : ℕ) (amount : ℤ) (currency : String) where
  check-HasCommitted : Keeps (HasCommitted c) (check_transfer source target amount currency)
  check-HasCommitted =
      Untouched-HasCommitted _ c (check_transfer-Keeps source target amount currency)

  post-HasCommitted :
      (t : Transaction) → Keeps (HasCommitted c) (post_transfer source target amount currency t)
  unfolding post_transfer add_entries
  post-HasCommitted t = search committed_rules depth 12

  go_on-HasCommitted :
      (i : Inserted)
      → Keeps (HasCommitted c) (go_on i (post_transfer source target amount currency))
  unfolding go_on
  go_on-HasCommitted (existing t) = record { at = λ s h. h }
  go_on-HasCommitted (created t) = record { at = (post-HasCommitted t).at }

  pub execute_transfer-HasCommitted :
      (description : String) (key : Option String)
      → Keeps (HasCommitted c) (execute_transfer source target amount currency description key)
  unfolding execute_transfer new_transfer build_correlation_id
  execute_transfer-HasCommitted description key =
      search (committed_rules, check-HasCommitted, go_on-HasCommitted, insert-HasCommitted) depth 12
