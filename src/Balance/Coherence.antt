-- ===== src/Balance/Coherence.antt =====
-- The cached balances against the tables.
use paysika.Prelude.{
  refl, ◌==◌, List, [], ==→≡, List, true, ℕ, ◌≡◌, String, false, some, arith, lookup, erase, ◌∷◌,
}
use paysika.Store.{State, CachedBalance, take_lock, cache_balance, ◌>>=◌}
use paysika.Store.Keeps.{Keeps, IsQuiet, keeps_rules}
use paysika.Domain.Enums.{Currency, of_value}
use paysika.Domain.Money.{make}
use paysika.Lock.Quiet.{take_lock-IsQuiet, lock_accounts-IsQuiet}
use paysika.Balance.{ok, get_balance, compute_balance, refresh_balance_cache, maybe_create_snapshot}
use paysika.Balance.Snapshots.{IsSound, computed_total-eq-sum}
use paysika.Balance.Reads.{balance_of}

-- Whatever balance the cache holds of an account is the account's balance in the session's tables.
pub record IsCoherent (s : State) : Type 0 where
  pub at :
      (a : ℕ) (v : CachedBalance) → lookup a s.balance_cache ≡ some v → v.amount ≡ balance_of a s.db

pub IsQuiet-IsCoherent : {o s : State} → IsQuiet o s → IsCoherent o → IsCoherent s
IsQuiet-IsCoherent h c = record { at = λ a v e. rw h.db (c.at a v (rw h.cache at e)) }

-- A read under the lock does not write the cache.
compute_balance-IsQuiet :
    (a : ℕ) (c : String) (o : State) → Keeps (IsQuiet o) (compute_balance a c true false)
unfolding compute_balance ◌>>=◌
compute_balance-IsQuiet a c o = search (keeps_rules, take_lock-IsQuiet) depth 12

pub get_balance-IsQuiet :
    (a : ℕ) (c : String) (o : State) → Keeps (IsQuiet o) (get_balance a c true false)
unfolding get_balance
get_balance-IsQuiet a c o = search (keeps_rules, compute_balance-IsQuiet) depth 12

pub maybe_create_snapshot-IsQuiet :
    (a : ℕ) (o : State) → Keeps (IsQuiet o) (maybe_create_snapshot a)
unfolding maybe_create_snapshot ◌>>=◌
maybe_create_snapshot-IsQuiet a o = record { at = λ s h. ground (arith, h.db, h.cache) }

pub ruleset quiet_rules =
    (keeps_rules, lock_accounts-IsQuiet, get_balance-IsQuiet, maybe_create_snapshot-IsQuiet)

-- A refresh in a supported currency puts the account's balance in the place of whatever was cached.
pub refresh_balance_cache_lem :
    (a : ℕ) (currency : String) (s : State) {c : Currency}
    → IsSound s.db
    → of_value currency ≡ some c
    → refresh_balance_cache a currency s ≡ (
      ok tt,
      record s {
        balance_cache =
            (a, record { amount = balance_of a s.db; currency = currency })
            ∷ erase a s.balance_cache;
      },
    )
unfolding refresh_balance_cache get_balance compute_balance make take_lock cache_balance ◌>>=◌
refresh_balance_cache_lem a currency s sound known =
    ground (arith, computed_total-eq-sum a s.db sound)

pub lookup-erase_other :
    (k j : ℕ) (d : List (ℕ × CachedBalance)) → (k == j) ≡ false → lookup k (erase j d) ≡ lookup k d
lookup-erase_other k j [] e = refl
lookup-erase_other k j ((i, v) ∷ d) e = ground (arith, lookup-erase_other k j d)

-- A cache that is right about every account but two is right about all once both have been refreshed.
pub refreshed-IsCoherent :
    (one other : ℕ) (currency : String) (s : State) {c : Currency}
    → IsSound s.db
    → of_value currency ≡ some c
    → ((a : ℕ) (v : CachedBalance)
        → (a == one) ≡ false
        → (a == other) ≡ false
        → lookup a s.balance_cache ≡ some v
        → v.amount ≡ balance_of a s.db)
    → IsCoherent (refresh_balance_cache other currency (refresh_balance_cache one currency s).1).1
refreshed-IsCoherent one other currency s sound known h =
    let s1 : State = record s {
      balance_cache =
          (one, record { amount = balance_of one s.db; currency = currency })
          ∷ erase one s.balance_cache;
    } in
    rw
      (
        refresh_balance_cache_lem one currency s sound known,
        refresh_balance_cache_lem other currency s1 sound known,
      )
      (record {
        at = λ a v e. ground (
          arith,
          h a v,
          ==→≡ a one,
          ==→≡ a other,
          lookup-erase_other a other s1.balance_cache,
          lookup-erase_other a one s.balance_cache,
        );
      })

-- A plain read answers what is cached.
pub get_balance-cached :
    (a : ℕ) (asked : String) (s : State) (v : CachedBalance) {c : Currency}
    → lookup a s.balance_cache ≡ some v
    → of_value v.currency ≡ some c
    → (get_balance a asked false false s).0 ≡ ok (record { amount = v.amount; currency = c })
unfolding get_balance make ◌>>=◌
get_balance-cached a asked s v cached known = ground (arith, cached, known)
