-- ===== src/Balance/Snapshots.antt =====
-- Why a balance from a snapshot is the balance: what holds of every snapshot, and that inserting
-- entries and taking snapshots keeps it.
use paysika.Prelude.{
  Option, ℕ, ◌<◌, ◌≡◌, refl, Option, none, some, List, ◌∷◌, ◌==◌, arith, All, latest, Option-cases,
  inl, inr, or_else, ==→≡,
}
use paysika.Store.{Db, LedgerEntry, BalanceSnapshot, next_id}
use paysika.Store.Freshness.{next_id_mono, below-next_id, next_id-pos}
use paysika.Balance.{sum_where, counts, latest_snapshot, computed_total, new_snapshot, add_snapshot}
use paysika.Balance.Sums.{
  counts_upto, upto-add-after, sum-after_zero, sum-upto_last, All-map, latest-All, latest-max,
}

abbrev pub last_of : BalanceSnapshot → ℕ
last_of n = or_else n.last_entry_id 0

-- A snapshot holds the sum of its account's entries up to its last entry, and any entry that is
-- inserted later has a larger id.
pub record IsExact (entries : List LedgerEntry) (n : BalanceSnapshot) : Type 0 where
  pub holds : n.balance ≡ sum_where (counts_upto n.account_id (last_of n)) entries
  pub past : last_of n < next_id (λ e. e.id) entries

-- Every snapshot is exact, and ids are positive.
pub record IsSound (d : Db) : Type 0 where
  pub exact : All (IsExact d.entries) d.snapshots
  pub positive : All (λ e. 0 < e.id) d.entries

-- In a sound database the balance from the latest snapshot and the entries after it is the sum of
-- all the account's successful entries.
pub computed_total-eq-sum :
    (a : ℕ) (d : Db) → IsSound d → computed_total a d ≡ sum_where (counts a) d.entries
unfolding computed_total
computed_total-eq-sum a d h = elim (Option-cases (latest_snapshot a d)) [
  | inl n ↦ ground (arith, sum-after_zero a d.entries h.positive)
  | inr (n, e) ↦
      let (x, own) =
        latest-All (λ n. n.id) (λ n. n.account_id == a) (IsExact d.entries) d.snapshots n e
          h.exact in
      ground (arith, x.holds, ==→≡ n.account_id a own, upto-add-after a (last_of n) d.entries)
]

IsExact-insert :
    (e : LedgerEntry) (es : List LedgerEntry) (n : BalanceSnapshot)
    → e.id ≡ next_id (λ x. x.id) es
    → IsExact es n
    → IsExact (e ∷ es) n
unfolding sum_where
IsExact-insert e es n fresh h = record {
  holds = ground (arith, h.holds, h.past);
  past = omega (arith, h.past, next_id_mono (λ (x : LedgerEntry). x.id) e es);
}

-- An entry with a new id, of whatever account, status and amount, keeps the database sound.
pub insert-IsSound :
    (e : LedgerEntry) (d : Db)
    → e.id ≡ next_id (λ x. x.id) d.entries
    → IsSound d
    → IsSound (record d { entries = e ∷ d.entries })
insert-IsSound e d fresh h = record {
  exact = All-map d.snapshots (λ n. IsExact-insert e d.entries n fresh) h.exact;
  positive = (omega (arith, fresh, next_id-pos (λ (x : LedgerEntry). x.id) d.entries), h.positive);
}

-- The snapshot that the job takes is exact.
new_snapshot-IsExact :
    (threshold a : ℕ) (d : Db) (n : BalanceSnapshot)
    → new_snapshot threshold a d ≡ some n
    → IsExact d.entries n
unfolding new_snapshot
new_snapshot-IsExact threshold a d n h =
    elim (Option-cases (latest (λ e. e.id) (counts a) d.entries)) [
      | inl x ↦ ground arith
      | inr (e, x) ↦ record {
        holds = ground (
          arith,
          sum-upto_last a e.id d.entries (latest-max (λ e. e.id) (counts a) d.entries e x),
        );
        past =
            let (low, own) =
              latest-All (λ e. e.id) (counts a) (λ y. y.id < next_id (λ e. e.id) d.entries)
                d.entries e x (below-next_id (λ e. e.id) d.entries) in
            ground (arith, low);
      }
    ]

-- The snapshot of any account at any threshold, if one is taken, leaves a sound database sound.
pub new_snapshot-IsSound :
    (threshold a : ℕ) (d : Db) → IsSound d → IsSound (add_snapshot (new_snapshot threshold a d) d)
unfolding add_snapshot
new_snapshot-IsSound threshold a d h = elim (Option-cases (new_snapshot threshold a d)) [
  | inl x ↦ rw x h
  | inr (n, x) ↦
      rw x (record {
        exact = (new_snapshot-IsExact threshold a d n x, h.exact);
        positive = h.positive;
      })
]

-- A snapshot leaves entries, accounts and transactions alone.
pub add_snapshot_else :
    (o : Option BalanceSnapshot) (d : Db)
    → ((add_snapshot o d).entries ≡ d.entries)
      × ((add_snapshot o d).accounts ≡ d.accounts)
      × ((add_snapshot o d).transactions ≡ d.transactions)
      × ((add_snapshot o d).idempotency_records ≡ d.idempotency_records)
unfolding add_snapshot
add_snapshot_else none d = (refl, refl, refl, refl)
add_snapshot_else (some n) d = (refl, refl, refl, refl)
