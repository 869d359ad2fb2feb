-- ===== src/Transfers/Outage.antt =====
-- A transfer while the queue is down.
use paysika.Prelude.{
  Option, ap, refl, or_else, none, ◌∙◌, ℕ, ◌≡◌, ◌≢◌, String, List, ◌∷◌, some, false, arith, lookup,
  ==_refl,
}
use paysika.Prelude.Int.{ℤ, pos, ◌<ℤ◌, ◌-ℤ◌}
use paysika.Errors.{Result, err, queue_error}
use paysika.Domain.Events.{transfer_completed}
use paysika.Store.{CachedBalance, Db, next_id, State, Transaction, ◌>>=◌}
use paysika.EventBus.Delivery.{recipients-posted, registered, recipients}
use paysika.Balance.Snapshots.{IsSound}
use paysika.Balance.Reads.{balance_of}
use paysika.Ledger.{key_taken, find_existing, go_on, build_correlation_id, add_entries}
use paysika.Ledger.Outage.{settle_down}
use paysika.Ledger.Sums.{posted, posted-IsSound, sum-posted}
use paysika.Transfers.{execute_transfer, check_transfer, new_transfer, transfer_row, post_transfer}
use paysika.Transfers.Steps.{check_transfer-passes, check_transfer-Keeps, IsCovered}
use paysika.Ledger.Effects.{insert_transaction_free, with_transaction}
use paysika.Store.Keeps.{untouched}
use paysika.Transfers.Outcome.{execute_transfer-started}

-- A transfer that the checks let pass, in a session whose queue is down and where someone would be
-- mailed about it.
pub record IsCut (source target : ℕ) (amount : ℤ) (currency : String) (s : State) : Type 0 where
  pub sound : IsSound s.db
  pub covered : IsCovered source target amount currency s.db
  pub apart : source ≢ target
  pub positive : pos 0 <ℤ amount
  pub wired : s.handlers ≡ registered
  pub down : s.context.queue_up ≡ false
  pub first : String
  pub others : List String
  pub mailed :
      (t : ℕ)
      → recipients (transfer_completed t source target amount currency) s.db ≡ first ∷ others

-- The end of such a transfer: the queue's error, and the new balance in the cache.
pub record IsLost (source : ℕ) (amount : ℤ) (currency : String) (s : State) (r : Result Transaction)
    (s' : State) : Type 0 where
  pub answer : r ≡ err queue_error
  pub cached :
      lookup source s'.balance_cache
      ≡ some (record { amount = balance_of source s.db -ℤ amount; currency = currency })

module _ (source target : ℕ) (amount : ℤ) (currency : String) (s : State) where
  post_transfer-IsLost :
      (t : Transaction)
      → IsCut source target amount currency s
      → IsLost source amount currency s
          (post_transfer source target amount currency t s).0
          (post_transfer source target amount currency t s).1
  unfolding post_transfer add_entries ◌>>=◌
  post_transfer-IsLost t h =
      let s' : State = record s {
        db = record s.db { entries = posted source target t.id amount currency s.db.entries };
      } in
      let (c, known) = h.covered.supported in
      let (raised, cached) =
        settle_down source target currency (transfer_completed t.id source target amount currency) t
          s' known h.wired h.down h.first h.others
          (recipients-posted (transfer_completed t.id source target amount currency) s.db
              s'.db.entries s.db.transactions
            ∙ h.mailed t.id)
          (posted-IsSound source target t.id amount currency s.db h.sound) h.apart in
      let paid = sum-posted source target t.id amount currency s.db.entries h.apart source in
      record { answer = raised; cached = ground (arith, cached, paid, ==_refl source) }

module _ (source target : ℕ) (amount : ℤ) (currency description : String) (s : State)
    (h : IsCut source target amount currency s) where
  abbrev checked : State
  checked = (check_transfer source target amount currency s).1

  abbrev row : ℕ → Transaction
  row =
      transfer_row none (or_else checked.context.correlation_id checked.context.uuid) description
        checked.context.now

  abbrev inserted : State
  inserted = record checked { db = with_transaction row checked.db }

  inserted-IsCut : IsCut source target amount currency inserted
  inserted-IsCut =
      let kept = (check_transfer-Keeps source target amount currency s).at s (untouched s) in
      record {
        sound = rw kept.db (record { exact = h.sound.exact; positive = h.sound.positive });
        covered = rw kept.db (record {
          source_account = h.covered.source_account;
          target_account = h.covered.target_account;
          supported = h.covered.supported;
          funds = h.covered.funds;
        });
        apart = h.apart;
        positive = h.positive;
        wired = kept.handlers ∙ h.wired;
        down = rw kept.context h.down;
        first = h.first;
        others = h.others;
        mailed = λ t. rw kept.db (
            recipients-posted (transfer_completed t source target amount currency) s.db s.db.entries
              _
            ∙ h.mailed t);
      }

  abbrev posting : Result Transaction × State
  posting =
      post_transfer source target amount currency
        (row (next_id (λ (t : Transaction). t.id) checked.db.transactions)) inserted

  started : execute_transfer source target amount currency description none s ≡ posting
  unfolding new_transfer build_correlation_id go_on find_existing key_taken ◌>>=◌
  started =
      execute_transfer-started source target amount currency description none s h.sound
        (ground arith) (ground arith) refl
      ∙ ground (
        arith,
        check_transfer-passes source target amount currency s h.sound h.covered,
        insert_transaction_free none row checked refl,
      )

  pub execute_transfer-IsLost :
      IsLost source amount currency s
        (execute_transfer source target amount currency description none s).0
        (execute_transfer source target amount currency description none s).1
  execute_transfer-IsLost =
      let kept = (check_transfer-Keeps source target amount currency s).at s (untouched s) in
      let lost =
        post_transfer-IsLost source target amount currency inserted
          (row (next_id (λ (t : Transaction). t.id) checked.db.transactions)) inserted-IsCut in
      let cache : ℤ → Option CachedBalance =
        λ b. some (record { amount = b -ℤ amount; currency = currency }) in
      let balance : cache (balance_of source checked.db) ≡ cache (balance_of source s.db) =
        ap (λ (d : Db). cache (balance_of source d)) kept.db in
      rw started (record { answer = lost.answer; cached = lost.cached ∙ balance })
