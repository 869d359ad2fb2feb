-- ===== src/Transfers/Outcome.antt =====
-- What a transfer does to the tables, whatever it answers.
use paysika.Prelude.{
  false, true, or_else, ℕ, ◌≡◌, ◌≢◌, ◌⊎◌, inl, inr, String, Option, none, some, arith, Option-cases,
  Bool-cases, ◌==◌,
}
use paysika.Prelude.Int.{ℤ, pos, ◌<ℤ◌, leb_ℤ, leb_ℤ-false}
use paysika.Errors.{err, Error, ok, Result-cases}
use paysika.Store.Keeps.{untouched}
use paysika.Store.{State, Db, Transaction, next_id, ◌>>=◌}
use paysika.Balance.Snapshots.{IsSound}
use paysika.Ledger.{find_existing, key_taken, go_on, build_correlation_id}
use paysika.Ledger.Effects.{with_transaction, insert_transaction_free, insert_transaction_taken}
use paysika.Ledger.Sums.{posted}
use paysika.Transfers.{transfer_row, check_transfer, new_transfer, execute_transfer}
use paysika.Transfers.Steps.{
  IsCovered, check_transfer-Keeps, check_transfer-covers, post_transfer-db,
}

module _ (source target : ℕ) (amount : ℤ) (currency description : String)
    (key : Option String) where
  -- The tables with the transaction of a transfer and its two entries.
  abbrev pub transferred : String → ℕ → Db → Db
  transferred correlation_id now d =
      let id = next_id (λ (t : Transaction). t.id) d.transactions in
      record (with_transaction (transfer_row key correlation_id description now) d) {
        entries = posted source target id amount currency d.entries;
      }

  -- A transfer took place: its requirements were met, and the tables have it, and only it, more.
  pub record IsTransferred (d d' : Db) : Type 0 where
    pub covered : IsCovered source target amount currency d
    pub key_free : key_taken key d ≡ none
    pub correlation_id : String
    pub now : ℕ
    pub tables : d' ≡ transferred correlation_id now d

  module _ (s : State) (sound : IsSound s.db) where
    abbrev checked : State
    checked = (check_transfer source target amount currency s).1

    unchanged : checked.db ≡ s.db
    unchanged = ((check_transfer-Keeps source target amount currency s).at s (untouched s)).db

    abbrev correlation : String
    correlation = or_else checked.context.correlation_id checked.context.uuid

    abbrev row : ℕ → Transaction
    row = transfer_row key correlation description checked.context.now

    new_transfer-taken :
        (t : Transaction)
        → key_taken key checked.db ≡ some t
        → (new_transfer source target amount currency description key s).1.db ≡ s.db
    unfolding new_transfer build_correlation_id go_on ◌>>=◌
    new_transfer-taken t taken =
        ground (arith, unchanged, insert_transaction_taken key row checked t taken)

    pub new_transfer-free :
        (check_transfer source target amount currency s).0 ≡ ok tt
        → key_taken key checked.db ≡ none
        → (new_transfer source target amount currency description key s).1.db
          ≡ transferred correlation checked.context.now s.db
    unfolding new_transfer build_correlation_id go_on ◌>>=◌
    new_transfer-free passed free =
        let id = next_id (λ (t : Transaction). t.id) checked.db.transactions in
        ground (
          arith,
          unchanged,
          passed,
          insert_transaction_free key row checked free,
          post_transfer-db source target amount currency (row id)
              (record checked { db = with_transaction row checked.db }),
        )

    new_transfer-failed :
        (e : Error)
        → (check_transfer source target amount currency s).0 ≡ err e
        → (new_transfer source target amount currency description key s).1.db ≡ s.db
    unfolding new_transfer ◌>>=◌
    new_transfer-failed e failed = ground (arith, unchanged, failed)

    pub new_transfer-outcome :
        let s' = (new_transfer source target amount currency description key s).1 in
        (s'.db ≡ s.db) ⊎ IsTransferred s.db s'.db
    new_transfer-outcome = elim (Result-cases (check_transfer source target amount currency s).0) [
      | inr (e, failed) ↦ inl (new_transfer-failed e failed)
      | inl (u, passed) ↦ elim (Option-cases (key_taken key checked.db)) [
        | inr (t, taken) ↦ inl (new_transfer-taken t taken)
        | inl free ↦ inr (record {
          covered = check_transfer-covers source target amount currency s sound passed;
          key_free = rw unchanged at free;
          correlation_id = correlation;
          now = checked.context.now;
          tables = new_transfer-free passed free;
        })
      ]
    ]

    pub execute_transfer-stopped :
        ((source == target) ≡ true)
          ⊎ ((leb_ℤ amount (pos 0) ≡ true)
              ⊎ ((t : Transaction) × (find_existing key s.db ≡ some t)))
        → (execute_transfer source target amount currency description key s).1.db ≡ s.db
    unfolding execute_transfer ◌>>=◌
    execute_transfer-stopped h = ground arith

    pub execute_transfer-started :
        (source == target) ≡ false
        → leb_ℤ amount (pos 0) ≡ false
        → find_existing key s.db ≡ none
        → execute_transfer source target amount currency description key s
          ≡ new_transfer source target amount currency description key s
    unfolding execute_transfer ◌>>=◌
    execute_transfer-started apart positive fresh = ground arith

    -- From sound tables, whatever a transfer answers, either the tables are as before, or its
    -- accounts differ, its amount is positive, both accounts exist in its supported currency, the
    -- source holds the amount, no transaction has its key, and the tables have the transaction and
    -- its two entries, and nothing else, more.
    pub execute_transfer-outcome :
        let s' = (execute_transfer source target amount currency description key s).1 in
        (s'.db ≡ s.db) ⊎ ((source ≢ target) × (pos 0 <ℤ amount) × IsTransferred s.db s'.db)
    execute_transfer-outcome = elim (Bool-cases (source == target)) [
      | inl e ↦ inl (execute_transfer-stopped (inl e))
      | inr apart ↦ elim (Bool-cases (leb_ℤ amount (pos 0))) [
        | inl e ↦ inl (execute_transfer-stopped (inr (inl e)))
        | inr positive ↦ elim (Option-cases (find_existing key s.db)) [
          | inr found ↦ inl (execute_transfer-stopped (inr (inr found)))
          | inl fresh ↦
              rw (execute_transfer-started apart positive fresh) (elim new_transfer-outcome [
                | inl kept ↦ inl kept
                | inr moved ↦ inr (ground arith, leb_ℤ-false amount (pos 0) positive, moved)
              ])
        ]
      ]
    ]
