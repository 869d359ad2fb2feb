-- ===== src/Transfers/Success.antt =====
-- When a transfer goes through, and the transaction that it returns.
use paysika.Prelude.{ℕ, ◌≡◌, ◌≢◌, ◌∙◌, String, Option, none, some, true, arith, or_else}
use paysika.Prelude.Int.{ℤ, pos, ◌<ℤ◌}
use paysika.Errors.{ok}
use paysika.Domain.Events.{transfer_completed}
use paysika.Store.{State, Transaction, next_id, ◌>>=◌}
use paysika.Store.Keeps.{untouched}
use paysika.EventBus.Delivery.{registered}
use paysika.Balance.Snapshots.{IsSound}
use paysika.Ledger.{find_existing, key_taken, go_on, build_correlation_id, add_entries}
use paysika.Ledger.Effects.{settle-returns, insert_transaction_free, with_transaction}
use paysika.Ledger.Sums.{posted}
use paysika.Transfers.{transfer_row, post_transfer, check_transfer, new_transfer, execute_transfer}
use paysika.Transfers.Steps.{IsCovered, check_transfer-Keeps, check_transfer-passes}
use paysika.Transfers.Outcome.{transferred, execute_transfer-started, new_transfer-free}
use paysika.Domain.Enums.{of_value, Currency}

-- The parts that a request finds in place: the queue answers and the handlers are registered.
pub record IsReady (s : State) : Type 0 where
  pub queue : s.context.queue_up ≡ true
  pub wired : s.handlers ≡ registered

module _ (source target : ℕ) (amount : ℤ) (currency description : String) (key : Option String)
    (s : State) where
  -- The transaction of the transfer.
  abbrev pub new_row : Transaction
  new_row =
      transfer_row key (or_else s.context.correlation_id s.context.uuid) description s.context.now
        (next_id (λ (t : Transaction). t.id) s.db.transactions)

  post_transfer-returns :
      (t : Transaction)
      → ((c : Currency) × (of_value currency ≡ some c))
      → IsReady s
      → (post_transfer source target amount currency t s).0 ≡ ok t
  unfolding post_transfer add_entries ◌>>=◌
  post_transfer-returns t known ready =
      settle-returns source target currency (transfer_completed t.id source target amount currency)
        t
        (record s {
          db = record s.db { entries = posted source target t.id amount currency s.db.entries };
        })
        known.1 ready.wired ready.queue

module _ (source target : ℕ) (amount : ℤ) (currency description : String) (key : Option String)
    (s : State) (sound : IsSound s.db) (covered : IsCovered source target amount currency s.db)
    (ready : IsReady s) where
  new_transfer-succeeds :
      key_taken key s.db ≡ none
      → (new_transfer source target amount currency description key s).0
        ≡ ok (new_row source target amount currency description key s)
  unfolding new_transfer build_correlation_id go_on ◌>>=◌
  new_transfer-succeeds free =
      let s1 = (check_transfer source target amount currency s).1 in
      let kept = (check_transfer-Keeps source target amount currency s).at s (untouched s) in
      let row =
        transfer_row key (or_else s1.context.correlation_id s1.context.uuid) description
          s1.context.now in
      let id = next_id (λ (t : Transaction). t.id) s1.db.transactions in
      let s2 : State = record s1 { db = with_transaction row s1.db } in
      let up : s1.context.queue_up ≡ true = rw kept.context ready.queue in
      ground (
        arith,
        kept.db,
        kept.context,
        check_transfer-passes source target amount currency s sound covered,
        insert_transaction_free key row s1 (rw kept.db free),
        post_transfer-returns source target amount currency description key s2 (row id)
            covered.supported (record { queue = up; wired = kept.handlers ∙ ready.wired }),
      )

  -- From sound tables, between two different accounts of a supported currency, with a positive
  -- amount that the source holds, a key that no transaction has, the queue up and the handlers
  -- registered, a transfer returns the new transaction, and the tables have it and its two entries,
  -- and nothing else, more.
  pub execute_transfer-succeeds :
      source ≢ target
      → pos 0 <ℤ amount
      → find_existing key s.db ≡ none
      → key_taken key s.db ≡ none
      → ((execute_transfer source target amount currency description key s).0
          ≡ ok (new_row source target amount currency description key s))
        × ((execute_transfer source target amount currency description key s).1.db
            ≡ transferred source target amount currency description key
                (or_else s.context.correlation_id s.context.uuid)
                s.context.now
                s.db)
  execute_transfer-succeeds apart positive fresh free =
      let kept = (check_transfer-Keeps source target amount currency s).at s (untouched s) in
      let started =
        execute_transfer-started source target amount currency description key s sound
          (ground arith) (ground arith) fresh in
      let moved =
        new_transfer-free source target amount currency description key s sound
          (check_transfer-passes source target amount currency s sound covered) (rw kept.db free) in
      (rw started (new_transfer-succeeds free), rw started (ground (arith, moved, kept.context)))
