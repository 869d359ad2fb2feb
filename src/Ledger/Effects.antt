-- ===== src/Ledger/Effects.antt =====
-- What the shared steps do to the tables.
use text.Mathlib.TextPositions.{eq_refl}
use paysika.Prelude.{
  ap, ◌∙◌, true, if◌then◌else◌, ℕ, ◌≡◌, String, false, Option, none, some, ◌∷◌, arith, str_eq,
}
use paysika.Errors.{ok, err, integrity_error}
use paysika.Domain.Events.{Event}
use paysika.Store.{Context, State, Db, Transaction, next_id, is_set, ◌>>=◌}
use paysika.Store.Keeps.{untouched, Keeps, Untouched}
use paysika.EventBus.Delivery.{publish_lem, registered, publish-Keeps}
use paysika.Balance.Reads.{
  maybe_create_snapshot-returns, refresh_balance_cache-returns, refresh_balance_cache-Keeps,
  maybe_create_snapshot-Keeps, frame_rules,
}
use paysika.Ledger.{
  refresh_balance_cache, maybe_create_snapshot, settle, find_existing, insert_transaction, existing,
  created, key_taken,
}
use paysika.Domain.Enums.{of_value, Currency}

pub settle-Keeps :
    (one other : ℕ) (c : String) (e : Event) (t : Transaction) (o : State)
    → Keeps (Untouched o) (settle one other c e t)
unfolding settle
settle-Keeps one other c e t d = search (frame_rules, publish-Keeps) depth 20

-- The table with a new row.
abbrev pub with_transaction : (ℕ → Transaction) → Db → Db
with_transaction row d = record d {
  transactions = row (next_id (λ t. t.id) d.transactions) ∷ d.transactions;
}

-- Where the key is free, the row is inserted under the next id.
pub insert_transaction_free :
    (key : Option String) (row : ℕ → Transaction) (s : State)
    → key_taken key s.db ≡ none
    → insert_transaction key row s ≡ (
      ok (created (row (next_id (λ t. t.id) s.db.transactions))),
      record s { db = with_transaction row s.db },
    )
unfolding insert_transaction ◌>>=◌
insert_transaction_free key row s free = ground arith

-- Where the key is taken, nothing is inserted: a set key gives the row that has it, and an empty one
-- the database's error.
pub insert_transaction_taken :
    (key : Option String) (row : ℕ → Transaction) (s : State) (t : Transaction)
    → key_taken key s.db ≡ some t
    → insert_transaction key row s
      ≡ ((if is_set key then ok (existing t) else err integrity_error), s)
unfolding insert_transaction ◌>>=◌
insert_transaction_taken key row s t taken = ground arith

-- A set key that no transaction has is free.
pub find_existing-free :
    (key : String) (d : Db)
    → str_eq key "" ≡ false
    → find_existing (some key) d ≡ none
    → key_taken (some key) d ≡ none
unfolding find_existing key_taken
find_existing-free key d set e = ground arith

module _ (one other : ℕ) (currency : String) (e : Event) (t : Transaction) (s : State) where
  abbrev pub refreshed : State
  refreshed = (refresh_balance_cache other currency (refresh_balance_cache one currency s).1).1

  abbrev pub snapped : State
  snapped = (maybe_create_snapshot other (maybe_create_snapshot one refreshed).1).1

  pub snapped-Untouched : Untouched s snapped
  snapped-Untouched = (maybe_create_snapshot-Keeps other s).at _ (
      (maybe_create_snapshot-Keeps one s).at _ (
        (refresh_balance_cache-Keeps other currency s).at _
          ((refresh_balance_cache-Keeps one currency s).at s (untouched s))))

  -- In a supported currency, with the registered handlers and the queue up, what follows the flush
  -- returns the transaction.
  pub settle-returns :
      {c : Currency}
      → of_value currency ≡ some c
      → s.handlers ≡ registered
      → s.context.queue_up ≡ true
      → (settle one other currency e t s).0 ≡ ok t
  unfolding settle ◌>>=◌
  settle-returns known wired up =
      let kept = snapped-Untouched in
      let sent =
        publish_lem e snapped (kept.handlers ∙ wired)
          (ap (λ (x : Context). x.queue_up) kept.context ∙ up) in
      ground (
        arith,
        refresh_balance_cache-returns one s currency known,
        refresh_balance_cache-returns other (refresh_balance_cache one currency s).1 currency known,
        maybe_create_snapshot-returns one refreshed,
        maybe_create_snapshot-returns other (maybe_create_snapshot one refreshed).1,
        sent,
      )

-- A row under a set key is found by it as soon as it is inserted.
pub find_existing-inserted :
    (key : String) (row : Transaction) (d : Db)
    → str_eq key "" ≡ false
    → row.idempotency_key ≡ some key
    → find_existing (some key) (record d { transactions = row ∷ d.transactions }) ≡ some row
unfolding find_existing
find_existing-inserted key row d set own = ground (arith, eq_refl key)
