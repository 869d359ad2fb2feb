-- ===== src/Ledger/Sums.antt =====
-- What posting a double entry does to the sums of entries.
use paysika.Prelude.{refl, if◌then◌else◌, ℕ, ◌≡◌, ◌≢◌, String, Bool, List, ◌∷◌, ◌==◌, arith}
use paysika.Prelude.Int.{ℤ, neg, ◌+ℤ◌, ◌-ℤ◌, int_laws}
use paysika.Domain.Enums.{debit}
use paysika.Store.{LedgerEntry, Db, next_id}
use paysika.Balance.{sum_where, counts}
use paysika.Balance.Snapshots.{IsSound, insert-IsSound}
use paysika.Ledger.{entry, insert_entries, double_entry}

neg-add : (x t : ℤ) → neg x +ℤ (x +ℤ t) ≡ t
neg-add x t = omega int_laws

add-neg : (x t : ℤ) → x +ℤ (neg x +ℤ t) ≡ t
add-neg x t = omega int_laws

neg-eq-sub : (x t : ℤ) → neg x +ℤ t ≡ t -ℤ x
neg-eq-sub x t = omega int_laws

+ℤ_comm : (x t : ℤ) → x +ℤ t ≡ t +ℤ x
+ℤ_comm x t = omega int_laws

-- The entries of a double entry, posted over given ones.
abbrev pub posted : ℕ → ℕ → ℕ → ℤ → String → List LedgerEntry → List LedgerEntry
posted debited credited t amount currency es =
    insert_entries (double_entry debited credited t amount currency) es

module _ (debited credited t : ℕ) (amount : ℤ) (currency : String) (es : List LedgerEntry) where
  -- The account debited loses the amount, the account credited gains it, and no other account moves.
  pub sum-posted :
      debited ≢ credited
      → (a : ℕ)
      → sum_where (counts a) (posted debited credited t amount currency es) ≡ (
          if a == debited
          then sum_where (counts a) es -ℤ amount
          else if a == credited
          then sum_where (counts a) es +ℤ amount
          else sum_where (counts a) es)
  unfolding sum_where
  sum-posted apart a =
      ground (
        arith,
        neg-eq-sub amount (sum_where (counts a) es),
        +ℤ_comm amount (sum_where (counts a) es),
      )

  -- Between an account and itself no balance moves.
  pub sum-posted_self :
      debited ≡ credited
      → (a : ℕ)
      → sum_where (counts a) (posted debited credited t amount currency es)
        ≡ sum_where (counts a) es
  unfolding sum_where
  sum-posted_self same a = ground (arith, add-neg amount (sum_where (counts a) es))

  -- Under a filter that sees the transaction and the currency only, a double entry adds nothing.
  pub sum-posted_balanced :
      (p : ℕ → String → Bool)
      → sum_where
          (λ e. p e.transaction_id e.currency)
          (posted debited credited t amount currency es)
        ≡ sum_where (λ e. p e.transaction_id e.currency) es
  unfolding sum_where
  sum-posted_balanced p =
      ground (arith, add-neg amount (sum_where (λ e. p e.transaction_id e.currency) es))

-- Posting keeps the database sound for its snapshots.
pub posted-IsSound :
    (debited credited t : ℕ) (amount : ℤ) (currency : String) (d : Db)
    → IsSound d
    → IsSound (record d { entries = posted debited credited t amount currency d.entries })
posted-IsSound debited credited t amount currency d h =
    let d' : Db = record d {
      entries =
          entry debited t (neg amount) debit currency (next_id (λ e. e.id) d.entries) ∷ d.entries;
    } in
    insert-IsSound _ d' refl (insert-IsSound _ d refl h)
