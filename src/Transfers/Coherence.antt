-- ===== src/Transfers/Coherence.antt =====
-- A transfer and the cache of balances.
use paysika.Prelude.{arith, inl, none, inr, Option-cases, Option, ℕ, ◌≡◌, String, some, refl}
use paysika.Prelude.Int.{ℤ}
use paysika.Domain.Enums.{Currency, of_value}
use paysika.Domain.Events.{transfer_completed}
use paysika.Store.{State, Transaction, ◌>>=◌}
use paysika.Store.Keeps.{Keeps-gets, Keeps-bind, keeps_rules, Keeps, IsQuiet}
use paysika.Balance.Coherence.{quiet_rules}
use paysika.Ledger.{build_correlation_id, add_entries}
use paysika.Ledger.Sums.{posted, posted-IsSound}
use paysika.Ledger.Coherence.{
  go_on-IsRight, insert_transaction-IsRight, Keeps-IsRight, IsRight, settle-IsCoherent,
  balance-posted,
}
use paysika.Transfers.{new_transfer, execute_transfer, post_transfer, check_transfer}
use paysika.Transfers.Steps.{check_transfer-covers, post_transfer-db}
use paysika.Balance.Snapshots.{IsSound}
use paysika.Errors.{Result-cases}

module _ (source target : ℕ) (amount : ℤ) (currency : String) where
  check_transfer-IsQuiet :
      (o : State) → Keeps (IsQuiet o) (check_transfer source target amount currency)
  unfolding check_transfer
  check_transfer-IsQuiet o = search quiet_rules depth 25

  post_transfer-IsRight :
      {c : Currency}
      → of_value currency ≡ some c
      → (t : Transaction) → Keeps IsRight (post_transfer source target amount currency t)
  unfolding post_transfer add_entries ◌>>=◌
  post_transfer-IsRight known t = record {
    at = λ s h.
        let s' : State = record s {
          db = record s.db { entries = posted source target t.id amount currency s.db.entries };
        } in
        let sound = posted-IsSound source target t.id amount currency s.db h.sound in
        record {
          sound = rw (post_transfer-db source target amount currency t s) sound;
          coherent =
              settle-IsCoherent source target currency
                (transfer_completed t.id source target amount currency) t s' known s sound refl
                (balance-posted source target t.id amount currency s) h.coherent;
        };
  }

module _ (source target : ℕ) (amount : ℤ) (currency description : String)
    (key : Option String) where
  check_transfer-IsRight : Keeps IsRight (check_transfer source target amount currency)
  check_transfer-IsRight =
      Keeps-IsRight (check_transfer source target amount currency)
        (check_transfer-IsQuiet source target amount currency)

  supported-IsRight :
      {c : Currency}
      → of_value currency ≡ some c
      → Keeps IsRight (new_transfer source target amount currency description key)
  unfolding new_transfer build_correlation_id
  supported-IsRight known = Keeps-bind _ _ check_transfer-IsRight (λ _.
      Keeps-bind _ _ (Keeps-gets _) (λ id. Keeps-bind _ _ (Keeps-gets _) (λ now.
        Keeps-bind _ _ (insert_transaction-IsRight _ _)
          (λ r. go_on-IsRight r _ (post_transfer-IsRight source target amount currency known)))))

  -- In a currency that is not supported the checks raise.
  unsupported :
      (s : State)
      → IsSound s.db
      → of_value currency ≡ none
      → (new_transfer source target amount currency description key s).1
        ≡ (check_transfer source target amount currency s).1
  unfolding new_transfer ◌>>=◌
  unsupported s sound unknown =
      elim (Result-cases (check_transfer source target amount currency s).0) [
        | inr (e, failed) ↦ ground arith
        | inl (u, passed) ↦
            let (c, known) =
              (check_transfer-covers source target amount currency s sound passed).supported in
            absurd (ground arith)
      ]

  new_transfer-IsRight : Keeps IsRight (new_transfer source target amount currency description key)
  new_transfer-IsRight = record {
    at = λ s h. elim (Option-cases (of_value currency)) [
      | inr (c, known) ↦ (supported-IsRight known).at s h
      | inl unknown ↦ rw (unsupported s h.sound unknown) (check_transfer-IsRight.at s h)
    ];
  }

  -- From sound tables and a cache of balances that is right about them, every transfer, whether it
  -- returns or raises, leaves sound tables and a cache that is right about them.
  pub execute_transfer-IsRight :
      (s : State)
      → IsRight s
      → IsRight (execute_transfer source target amount currency description key s).1
  unfolding execute_transfer
  execute_transfer-IsRight s h =
      let kept : Keeps IsRight (execute_transfer source target amount currency description key) =
        search (keeps_rules, new_transfer-IsRight) depth 20 in
      kept.at s h
