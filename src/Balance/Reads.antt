-- ===== src/Balance/Reads.antt =====
-- What `get_balance` answers and writes, through the cache, past it and under a lock.
use paysika.Prelude.{==_refl, ℕ, ◌≡◌, String, Bool, true, false, none, some, arith}
use paysika.Prelude.Int.{ℤ}
use paysika.Errors.{ok, err, value_error}
use paysika.Domain.Enums.{Currency, of_value}
use paysika.Domain.Money.{make}
use paysika.Store.Keeps.{Keeps, Untouched, keeps_rules}
use paysika.Store.{Lock, take_lock, cache_balance, ◌>>=◌, State, Db, CachedBalance}
use paysika.Balance.{
  refresh_balance_cache, maybe_create_snapshot, sum_where, counts, compute_balance, get_balance,
}
use paysika.Balance.Snapshots.{IsSound, computed_total-eq-sum}

-- The account's balance: the sum of its successful entries.
abbrev pub balance_of : ℕ → Db → ℤ
balance_of a d = sum_where (counts a) d.entries

take_lock-Keeps : (l : Lock) (o : State) → Keeps (Untouched o) (take_lock l)
unfolding take_lock
take_lock-Keeps l o = record {
  at = λ s h. ground (arith, h.db, h.committed, h.context, h.handlers);
}

cache_balance-Keeps :
    (a : ℕ) (v : CachedBalance) (o : State) → Keeps (Untouched o) (cache_balance a v)
unfolding cache_balance
cache_balance-Keeps a v o = record {
  at = λ s h. record {
    db = h.db;
    committed = h.committed;
    context = h.context;
    handlers = h.handlers;
  };
}

compute_balance-Keeps :
    (a : ℕ) (c : String) (use_lock force : Bool) (o : State)
    → Keeps (Untouched o) (compute_balance a c use_lock force)
unfolding compute_balance
compute_balance-Keeps a c use_lock force o =
    search (keeps_rules, take_lock-Keeps, cache_balance-Keeps) depth 12

pub get_balance-Keeps :
    (a : ℕ) (c : String) (use_lock force : Bool) (o : State)
    → Keeps (Untouched o) (get_balance a c use_lock force)
unfolding get_balance
get_balance-Keeps a c use_lock force o = search (keeps_rules, compute_balance-Keeps) depth 12

pub refresh_balance_cache-Keeps :
    (a : ℕ) (c : String) (o : State) → Keeps (Untouched o) (refresh_balance_cache a c)
unfolding refresh_balance_cache
refresh_balance_cache-Keeps a c o = search (keeps_rules, get_balance-Keeps)

pub maybe_create_snapshot-Keeps :
    (a : ℕ) (o : State) → Keeps (Untouched o) (maybe_create_snapshot a)
unfolding maybe_create_snapshot ◌>>=◌
maybe_create_snapshot-Keeps a o = record {
  at = λ s h. ground (arith, h.db, h.committed, h.context, h.handlers);
}

-- The cache and the queue are written, and the tables are left alone.
pub ruleset frame_rules =
    (keeps_rules, get_balance-Keeps, refresh_balance_cache-Keeps, maybe_create_snapshot-Keeps)

module _ (a : ℕ) (currency : String) (s : State) where
  -- From sound tables, for a supported currency, a read under the lock answers the sum of the
  -- account's successful entries, whatever the cache holds, and leaves the cache alone.
  pub get_balance-locked :
      {c : Currency}
      → IsSound s.db
      → of_value currency ≡ some c
      → ((get_balance a currency true false s).0
          ≡ ok (record { amount = balance_of a s.db; currency = c }))
        × ((get_balance a currency true false s).1.balance_cache ≡ s.balance_cache)
  unfolding get_balance compute_balance make take_lock cache_balance ◌>>=◌
  get_balance-locked sound known = ground (arith, computed_total-eq-sum a s.db sound)

  pub get_balance-unknown :
      of_value currency ≡ none → (get_balance a currency true false s).0 ≡ err value_error
  unfolding get_balance compute_balance make take_lock cache_balance ◌>>=◌
  get_balance-unknown unknown = ground arith

module _ (a : ℕ) (s : State) where
  -- A refresh in a supported currency returns, and so does the check for a snapshot, also when the
  -- queue is down.
  pub refresh_balance_cache-returns :
      (currency : String) {c : Currency}
      → of_value currency ≡ some c
      → (refresh_balance_cache a currency s).0 ≡ ok tt
  unfolding refresh_balance_cache get_balance compute_balance make take_lock cache_balance ◌>>=◌
  refresh_balance_cache-returns currency known = ground arith

  pub maybe_create_snapshot-returns : (maybe_create_snapshot a s).0 ≡ ok tt
  unfolding maybe_create_snapshot ◌>>=◌
  maybe_create_snapshot-returns = ground arith

-- From sound tables, after a refresh in a supported currency a plain read, in whatever currency it
-- is asked for, answers the account's balance in the currency of the refresh, and changes nothing.
pub get_balance-refresh :
    (a : ℕ) (currency asked : String) (s : State) {c : Currency}
    → IsSound s.db
    → of_value currency ≡ some c
    → let s' = (refresh_balance_cache a currency s).1 in
      get_balance a asked false false s'
      ≡ (ok (record { amount = balance_of a s.db; currency = c }), s')
unfolding refresh_balance_cache get_balance compute_balance make take_lock cache_balance ◌>>=◌
get_balance-refresh a currency asked s sound known =
    ground (arith, computed_total-eq-sum a s.db sound, ==_refl a)
