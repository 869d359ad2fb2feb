-- ===== src/Ledger/Invariant.antt =====
-- The invariant of the ledger's tables, and the two ways in which the services change what it speaks
-- of: posting a double entry and opening accounts.
use paysika.Prelude.{
  inr, ==→≡, inl, Bool-cases, ℕ, ◌≡◌, Bool, true, false, String, arith, ◌==◌, ◌&&◌, str_eq, ◌∙◌,
  ◌⊎◌, List,
}
use paysika.Prelude.Int.{ℤ, pos, ◌≤ℤ◌, ◌+ℤ◌, ◌-ℤ◌, int_laws}
use paysika.Store.{Transaction, Db, LedgerEntry}
use paysika.Balance.{sum_where}
use paysika.Balance.Snapshots.{IsSound}
use paysika.Balance.Reads.{balance_of}
use paysika.Accounts.Opening.{IsDescending, is_clearing_id, Extends}
use paysika.Ledger.Sums.{sum-posted_self, posted, sum-posted, sum-posted_balanced, posted-IsSound}

-- The entries of a transaction in a currency.
abbrev pub of_transaction : ℕ → String → LedgerEntry → Bool
of_transaction t currency e = e.transaction_id == t && str_eq e.currency currency

pub record IsLedger (d : Db) : Type 0 where
  -- every snapshot is the sum of the entries that it stands for
  pub sound : IsSound d
  -- double entry: the entries of each transaction cancel in each currency
  pub balanced : (t : ℕ) (c : String) → sum_where (of_transaction t c) d.entries ≡ pos 0
  -- no account but a clearing account is overdrawn
  pub solvent : (a : ℕ) → is_clearing_id a d ≡ false → pos 0 ≤ℤ balance_of a d
  -- account ids are unique
  pub ordered : IsDescending d.accounts

nonneg_add : (x y : ℤ) → pos 0 ≤ℤ x → pos 0 ≤ℤ y → pos 0 ≤ℤ x +ℤ y
nonneg_add x y h k = omega int_laws

nonneg_sub : (x y : ℤ) → y ≤ℤ x → pos 0 ≤ℤ x -ℤ y
nonneg_sub x y h = omega int_laws

module _ (debited credited t : ℕ) (amount : ℤ) (currency : String) (d : Db) where
  abbrev after : Db
  after = record d { entries = posted debited credited t amount currency d.entries }

  solvent_after :
      pos 0 ≤ℤ amount
      → (is_clearing_id debited d ≡ true) ⊎ (amount ≤ℤ balance_of debited d)
      → (a : ℕ) → is_clearing_id a d ≡ false
      → pos 0 ≤ℤ balance_of a d
      → pos 0 ≤ℤ balance_of a after
  solvent_after positive covered a user held = elim (Bool-cases (debited == credited)) [
    | inl same ↦
        rw
          (sum-posted_self debited credited t amount currency d.entries (==→≡ debited credited same)
            a)
          held
    | inr apart ↦
        rw (sum-posted debited credited t amount currency d.entries (λ e. ground arith) a) (
          ground (
            arith,
            nonneg_add (balance_of a d) amount held positive,
            nonneg_sub (balance_of a d) amount,
          ))
  ]

  -- A double entry of an amount that is not negative keeps the invariant, if the account debited is a clearing
  -- account or holds the amount.
  pub posted-IsLedger :
      pos 0 ≤ℤ amount
      → (is_clearing_id debited d ≡ true) ⊎ (amount ≤ℤ balance_of debited d)
      → IsLedger d
      → IsLedger after
  posted-IsLedger positive covered h = record {
    sound = posted-IsSound debited credited t amount currency d h.sound;
    balanced = λ u c.
        sum-posted_balanced debited credited t amount currency d.entries
          (λ x y. x == u && str_eq y c)
        ∙ h.balanced u c;
    solvent = λ a user. solvent_after positive covered a user (h.solvent a user);
    ordered = h.ordered;
  }

-- Opening accounts keeps the invariant.
pub Extends-IsLedger : (d d' : Db) → Extends d d' → IsLedger d → IsLedger d'
Extends-IsLedger d d' x h = record {
  sound = record {
    exact = rw (x.snapshots, x.entries) h.sound.exact;
    positive = rw x.entries h.sound.positive;
  };
  balanced = λ t c. rw x.entries (h.balanced t c);
  solvent = λ a user. rw x.entries (h.solvent a (x.others a user));
  ordered = x.ordered;
}

-- The transactions themselves are no part of the invariant.
pub IsLedger-transactions :
    (d : Db) (ts : List Transaction) → IsLedger d → IsLedger (record d { transactions = ts })
IsLedger-transactions d ts h = record {
  sound = record { exact = h.sound.exact; positive = h.sound.positive };
  balanced = h.balanced;
  solvent = h.solvent;
  ordered = h.ordered;
}
