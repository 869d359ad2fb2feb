-- ===== src/Jobs/Committed.antt =====
-- What the jobs commit.
use paysika.Prelude.{
  Bool-cases, Option-cases, refl, ℕ, String, Bool, true, false, Option, some, ◌≡◌, ◌⊎◌, inl, inr,
  arith,
}
use paysika.Prelude.Int.{ℤ}
use paysika.Store.{State, ◌>>=◌}
use paysika.Balance.{new_snapshot, add_snapshot, compute_and_create_snapshot}
use paysika.Deposits.{find_transaction, update_rows, update_transaction}
use paysika.Jobs.{PaymentAnswer, with_payment, run_notify_provider, run_create_snapshot}

-- The notification of the provider commits nothing, or the reference of the payment that the provider
-- has created.
pub run_notify_provider_commits :
    (initialised : Bool) (create_payment : ℕ → ℤ → String → Option PaymentAnswer) (i : ℕ)
    (amount : ℤ) (currency : String) (s : State)
    → let s' = (run_notify_provider initialised create_payment i amount currency s).1 in
      (s'.committed ≡ s.committed)
      ⊎ ((answer : PaymentAnswer) × (create_payment i amount currency ≡ some answer)
          × (answer.is_ok ≡ true)
          × (s'.db ≡ record s.db {
            transactions = update_rows i (with_payment answer.payment_id) s.db.transactions;
          })
          × (s'.committed ≡ s'.db))
unfolding run_notify_provider update_transaction ◌>>=◌
run_notify_provider_commits false create_payment i amount currency s = inl refl
run_notify_provider_commits true create_payment i amount currency s =
    elim (Option-cases (create_payment i amount currency)) [
      | inl failed ↦ inl (ground arith)
      | inr (answer, made) ↦ elim (Bool-cases answer.is_ok) [
        | inr bad ↦ inl (ground arith)
        | inl good ↦ elim (Option-cases (find_transaction i s.db)) [
          | inl missing ↦ inl (ground arith)
          | inr (t, found) ↦ inr (answer, made, good, ground arith, ground arith)
        ]
      ]
    ]

-- The job of a snapshot commits the snapshot that is due, if the worker is initialised.
pub run_create_snapshot_commits :
    (a : ℕ) (s : State)
    → let s' = (run_create_snapshot true a s).1 in
      (s'.db ≡ add_snapshot (new_snapshot s.context.snapshot_threshold a s.db) s.db)
      × (s'.committed ≡ s'.db)
unfolding run_create_snapshot compute_and_create_snapshot ◌>>=◌
run_create_snapshot_commits a s = (refl, refl)
