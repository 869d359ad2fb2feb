-- ===== src/Transfers/Ledger.antt =====
-- A transfer keeps the ledger's invariant, and moves the amount.
use paysika.Prelude.{if◌then◌else◌, ℕ, ◌≡◌, ◌⊎◌, inl, inr, String, Option, ◌==◌}
use paysika.Prelude.Int.{nonneg_of_pos, ℤ, ◌+ℤ◌, ◌-ℤ◌}
use paysika.Store.{State}
use paysika.Balance.Reads.{balance_of}
use paysika.Ledger.Sums.{sum-posted}
use paysika.Ledger.Invariant.{IsLedger, posted-IsLedger, IsLedger-transactions}
use paysika.Transfers.{execute_transfer}
use paysika.Transfers.Outcome.{execute_transfer-outcome}

module _ (source target : ℕ) (amount : ℤ) (currency description : String) (key : Option String)
    (s : State) (h : IsLedger s.db) where
  abbrev result : State
  result = (execute_transfer source target amount currency description key s).1

  -- From tables that satisfy the ledger's invariant every call of a transfer, whatever it is given
  -- and whether it returns or raises, leaves tables that satisfy it: snapshots agree with the entries,
  -- each transaction's entries cancel in each currency, and no account but a clearing account is
  -- overdrawn.
  pub execute_transfer-IsLedger : IsLedger result.db
  execute_transfer-IsLedger =
      elim (execute_transfer-outcome source target amount currency description key s h.sound) [
        | inl kept ↦ rw kept h
        | inr (apart, positive, moved) ↦ rw moved.tables (
            IsLedger-transactions _ _ (
              posted-IsLedger source target _ amount currency s.db (nonneg_of_pos amount positive)
                (inr moved.covered.funds) h))
      ]

  -- From tables that satisfy the ledger's invariant, a transfer leaves every balance as it was, or
  -- it lowers the source's by the amount, raises the target's by it, and leaves all others.
  pub execute_transfer-moves :
      ((a : ℕ) → balance_of a result.db ≡ balance_of a s.db)
      ⊎ ((a : ℕ)
          → balance_of a result.db ≡ (
              if a == source
              then balance_of a s.db -ℤ amount
              else if a == target
              then balance_of a s.db +ℤ amount
              else balance_of a s.db))
  execute_transfer-moves =
      elim (execute_transfer-outcome source target amount currency description key s h.sound) [
        | inl kept ↦ inl (λ a. rw kept)
        | inr (apart, positive, moved) ↦
            inr (λ a.
              rw moved.tables (sum-posted source target _ amount currency s.db.entries apart a))
      ]
