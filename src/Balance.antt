-- ===== src/Balance.antt =====
-- app/services/balance_service.py: the balance of an account from its latest snapshot and the entries
-- after it, the cache of balances, and the creation of snapshots.
pub mod Sums
pub mod Snapshots
pub mod Reads
pub mod Coherence
use paysika.Prelude.{
  ℕ, ◌+◌, String, Bool, true, false, Option, none, some, List, [], ◌∷◌, ◌==◌, ◌&&◌, ◌||◌, ltb, not,
  latest, lookup, erase, length, select, or_else, if◌then◌else◌,
}
use paysika.Prelude.Int.{ℤ, pos, ◌+ℤ◌}
use paysika.Errors.{ok}
use paysika.Domain.Enums.{is_success}
use paysika.Domain.Money.{Money, make, decimal, code}
use paysika.Store.{
  Action, Db, LedgerEntry, BalanceSnapshot, create_snapshot, entry_rows, pure, lift, gets, modify,
  modify_db, when, enqueue, take_lock, cache_balance, next_id, match_option, ◌>>=◌, ◌>>◌,
}

-- `coalesce(sum(amount), 0)` over the entries that satisfy the filter.
unfoldable pub sum_where : (LedgerEntry → Bool) → List LedgerEntry → ℤ
sum_where p [] = pos 0
sum_where p (e ∷ es) = if p e then e.amount +ℤ sum_where p es else sum_where p es

-- The filter on the account and the status, and with it on the id.
abbrev pub counts : ℕ → LedgerEntry → Bool
counts account_id e = e.account_id == account_id && is_success e.status

abbrev pub counts_after : ℕ → ℕ → LedgerEntry → Bool
counts_after account_id last e = counts account_id e && ltb last e.id

abbrev pub latest_snapshot : ℕ → Db → Option BalanceSnapshot
latest_snapshot account_id d = latest (λ n. n.id) (λ n. n.account_id == account_id) d.snapshots

abbrev pub snapshot_balance : Option BalanceSnapshot → ℤ
snapshot_balance none = pos 0
snapshot_balance (some n) = n.balance

-- `snapshot.last_entry_id or 0`.
abbrev pub snapshot_last : Option BalanceSnapshot → ℕ
snapshot_last none = 0
snapshot_last (some n) = or_else n.last_entry_id 0

abbrev pub snapshot_count : Option BalanceSnapshot → ℕ
snapshot_count none = 0
snapshot_count (some n) = n.entry_count

-- The total that `get_balance` reads from the tables.
unfoldable pub computed_total : ℕ → Db → ℤ
computed_total account_id d =
    let snapshot = latest_snapshot account_id d in
    snapshot_balance snapshot
    +ℤ sum_where (counts_after account_id (snapshot_last snapshot)) d.entries

-- `get_balance` past the cache.
unfoldable pub compute_balance : ℕ → String → Bool → Bool → Action Money
compute_balance account_id currency use_lock force = do
  d ← gets (λ s. s.db)
  when use_lock (take_lock (entry_rows account_id (snapshot_last (latest_snapshot account_id d))))
  result ← lift (make (decimal (computed_total account_id d)) (code currency))
  when (not use_lock || force)
      (cache_balance account_id (record { amount = result.amount; currency = currency }))
  pure result

unfoldable pub get_balance : ℕ → String → Bool → Bool → Action Money
get_balance account_id currency use_lock force = do
  cached ← gets (λ s. if not use_lock && not force then lookup account_id s.balance_cache else none)
  match_option cached (λ v. lift (make (decimal v.amount) (code v.currency)))
      (compute_balance account_id currency use_lock force)

pub invalidate_balance_cache : ℕ → Action Unit
invalidate_balance_cache account_id =
    modify (λ s. record s { balance_cache = erase account_id s.balance_cache })

unfoldable pub refresh_balance_cache : ℕ → String → Action Unit
refresh_balance_cache account_id currency = do get_balance account_id currency false true; pure tt

-- The number of entries of the account after its latest snapshot.
abbrev pub entries_after_snapshot : ℕ → Db → ℕ
entries_after_snapshot account_id d =
    length
      (select (counts_after account_id (snapshot_last (latest_snapshot account_id d))) d.entries)

-- `_compute_and_create_snapshot`, on a threshold from the configuration.
pub new_snapshot : ℕ → ℕ → Db → Option BalanceSnapshot
new_snapshot threshold account_id d =
    if ltb (entries_after_snapshot account_id d) threshold
    then none
    else elim (latest (λ e. e.id) (counts account_id) d.entries) [
      | none ↦ none
      | some entry ↦ some (record {
        id = next_id (λ n. n.id) d.snapshots;
        account_id = account_id;
        balance = sum_where (counts account_id) d.entries;
        entry_count =
            entries_after_snapshot account_id d + snapshot_count (latest_snapshot account_id d);
        last_entry_id = some entry.id;
      })
    ]

pub add_snapshot : Option BalanceSnapshot → Db → Db
add_snapshot none d = d
add_snapshot (some n) d = record d { snapshots = n ∷ d.snapshots }

unfoldable pub compute_and_create_snapshot : ℕ → Action (Option BalanceSnapshot)
unfolding new_snapshot add_snapshot
compute_and_create_snapshot account_id = do
  threshold ← gets (λ s. s.context.snapshot_threshold)
  created ← gets (λ s. new_snapshot threshold account_id s.db)
  modify_db (add_snapshot created)
  pure created

-- A failure of the queue is logged and swallowed.
attempt : Action Unit → Action Unit
attempt m s = let (r, s') = m s in (ok tt, s')

unfoldable pub maybe_create_snapshot : ℕ → Action Unit
unfolding attempt enqueue
maybe_create_snapshot account_id = do
  threshold ← gets (λ s. s.context.snapshot_threshold)
  d ← gets (λ s. s.db)
  when (not (ltb (entries_after_snapshot account_id d) threshold))
      (attempt (enqueue (create_snapshot account_id)))
