-- ===== src/Ledger/Coherence.antt =====
-- What the steps after a flush of entries leave in the cache of balances.
use paysika.Prelude.{
  none, sym, ℕ, ◌≡◌, ◌==◌, ◌∙◌, String, Option, some, false, arith, inl, inr, Option-cases,
}
use paysika.Prelude.Int.{ℤ}
use paysika.Errors.{err, value_error}
use paysika.Domain.Enums.{Currency, of_value}
use paysika.Domain.Events.{Event}
use paysika.Store.{cache_balance, take_lock, Action, State, Transaction, pure, ◌>>=◌, ◌>>◌}
use paysika.Store.Keeps.{Keeps, IsQuiet, quiet}
use paysika.EventBus.{publish}
use paysika.EventBus.Quiet.{publish-IsQuiet}
use paysika.Balance.{
  compute_balance, get_balance, refresh_balance_cache, maybe_create_snapshot, sum_where, counts,
}
use paysika.Balance.Snapshots.{IsSound}
use paysika.Balance.Reads.{balance_of, refresh_balance_cache-returns}
use paysika.Balance.Coherence.{IsCoherent, IsQuiet-IsCoherent, refreshed-IsCoherent, quiet_rules}
use paysika.Ledger.{key_taken, Inserted, settle, insert_transaction, go_on, existing, created}
use paysika.Ledger.Sums.{posted}
use paysika.Ledger.Effects.{insert_transaction_free, insert_transaction_taken, with_transaction}
use paysika.Domain.Money.{make}

module _ (one other : ℕ) (currency : String) (e : Event) (t : Transaction) where
  -- After the refreshes.
  rest : Action Transaction
  rest = do maybe_create_snapshot one; maybe_create_snapshot other; publish e; pure t

  rest-IsQuiet : (o : State) → Keeps (IsQuiet o) rest
  unfolding rest
  rest-IsQuiet o = search (quiet_rules, publish-IsQuiet) depth 20

  module _ (s : State) {c : Currency} (known : of_value currency ≡ some c) where
    abbrev refreshed : State
    refreshed = (refresh_balance_cache other currency (refresh_balance_cache one currency s).1).1

    settle-rest : settle one other currency e t s ≡ rest refreshed
    unfolding settle rest ◌>>=◌
    settle-rest = ground (
      arith,
      refresh_balance_cache-returns one s currency known,
      refresh_balance_cache-returns other (refresh_balance_cache one currency s).1 currency known,
    )

    -- Where a cache was right and the tables have changed for two accounts only, what follows the flush
    -- makes it right, whether or not the event could be published.
    pub settle-IsCoherent :
        (o : State)
        → IsSound s.db
        → s.balance_cache ≡ o.balance_cache
        → ((a : ℕ)
            → (a == one) ≡ false
            → (a == other) ≡ false
            → balance_of a s.db ≡ balance_of a o.db)
        → IsCoherent o
        → IsCoherent (settle one other currency e t s).1
    settle-IsCoherent o sound cache moved h = rw settle-rest (
        IsQuiet-IsCoherent ((rest-IsQuiet refreshed).at refreshed (quiet refreshed)) (
          refreshed-IsCoherent one other currency s sound known
            (λ a v p q x. h.at a v (rw cache at x) ∙ sym (moved a p q))))

-- Other accounts do not move.
pub balance-posted :
    (debited credited t : ℕ) (amount : ℤ) (currency : String) (s : State) (a : ℕ)
    → (a == debited) ≡ false
    → (a == credited) ≡ false
    → sum_where (counts a) (posted debited credited t amount currency s.db.entries)
      ≡ sum_where (counts a) s.db.entries
unfolding sum_where
balance-posted debited credited t amount currency s a p q = ground arith

-- Sound tables under a cache that is right about them.
pub record IsRight (s : State) : Type 0 where
  pub sound : IsSound s.db
  pub coherent : IsCoherent s

module _ {A : Type 0} where
  pub Keeps-IsRight : (m : Action A) → ((o : State) → Keeps (IsQuiet o) m) → Keeps IsRight m
  Keeps-IsRight m k = record {
    at = λ s h.
        let q = (k s).at s (quiet s) in
        record { sound = rw q.db h.sound; coherent = IsQuiet-IsCoherent q h.coherent };
  }

with_transaction-IsRight :
    (row : ℕ → Transaction) (s : State)
    → IsRight s
    → IsRight (record s { db = with_transaction row s.db })
with_transaction-IsRight row s h = record {
  sound = record { exact = h.sound.exact; positive = h.sound.positive };
  coherent = record { at = λ a v e. h.coherent.at a v e };
}

pub insert_transaction-IsRight :
    (key : Option String) (row : ℕ → Transaction) → Keeps IsRight (insert_transaction key row)
insert_transaction-IsRight key row = record {
  at = λ s h. elim (Option-cases (key_taken key s.db)) [
    | inl free ↦ rw (insert_transaction_free key row s free) (with_transaction-IsRight row s h)
    | inr (t, taken) ↦ rw (insert_transaction_taken key row s t taken) h
  ];
}

pub go_on-IsRight :
    (r : Inserted) (f : Transaction → Action Transaction)
    → ((t : Transaction) → Keeps IsRight (f t))
    → Keeps IsRight (go_on r f)
unfolding go_on
go_on-IsRight (existing t) f k = record { at = λ s h. h }
go_on-IsRight (created t) f k = record { at = (k t).at }

-- In a currency that is not supported the first refresh raises.
pub settle-unsupported :
    (one other : ℕ) (currency : String) (e : Event) (t : Transaction) (s : State)
    → of_value currency ≡ none
    → settle one other currency e t s ≡ (err value_error, s)
unfolding settle refresh_balance_cache get_balance compute_balance make take_lock cache_balance
    ◌>>=◌
settle-unsupported one other currency e t s unknown = ground arith
