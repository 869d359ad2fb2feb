-- ===== src/Jobs/Recovery.antt =====
-- What the recovery of orphan deposits queues.
use mathlib.Core.List.{append_assoc, append-nil}
use paysika.Prelude.{
  IsSelection, select-IsSelection, none, refl, ◌+◌, ◌*◌, ◌<◌, ℕ, ◌≡◌, true, List, [], ◌∷◌, ◌++◌,
  map, length, arith,
}
use paysika.Errors.{ok}
use paysika.Store.{notify_provider, State, Transaction, enqueue, ◌>>=◌}
use paysika.Domain.Enums.{is_deposit, is_pending, TransactionType, TransactionStatus}
use paysika.Deposits.{meta_amount, meta_currency}
use paysika.Jobs.{is_orphan, orphans, notification, enqueue_all, recover_orphan_deposits}

enqueue_all_lem :
    (ts : List Transaction) (s : State)
    → s.context.queue_up ≡ true
    → enqueue_all ts s ≡ (ok tt, record s { jobs = s.jobs ++ map notification ts })
unfolding enqueue_all enqueue ◌>>=◌
enqueue_all_lem [] s up = rw append-nil
enqueue_all_lem (t ∷ ts) s up = ground (
  arith,
  enqueue_all_lem ts (record s { jobs = s.jobs ++ notification t ∷ [] }) up,
  append_assoc s.jobs (notification t ∷ []) (map notification ts),
)

-- What the recovery is for: a deposit that is pending, that no provider has acknowledged, and that is
-- older than the delay.
pub record IsForgotten (delay_minutes now : ℕ) (t : Transaction) : Type 0 where
  pub deposit : t.type ≡ TransactionType.deposit
  pub pending : t.status ≡ TransactionStatus.pending
  pub unacknowledged : t.provider_reference ≡ none
  pub old : t.created_at + delay_minutes * 60 * 1_000_000 < now

deposit_of : (x : TransactionType) → is_deposit x ≡ true → x ≡ TransactionType.deposit
deposit_of TransactionType.deposit e = refl
deposit_of TransactionType.transfer e = cc
deposit_of TransactionType.withdrawal e = cc
deposit_of TransactionType.fx_exchange e = cc

pending_of : (x : TransactionStatus) → is_pending x ≡ true → x ≡ TransactionStatus.pending
pending_of TransactionStatus.pending e = refl
pending_of TransactionStatus.completed e = cc
pending_of TransactionStatus.failed e = cc

minutes : (n : ℕ) → n * 60 * 1_000_000 ≡ n * 60_000_000
minutes n = omega arith

module _ (delay now : ℕ) (t : Transaction) where
  is_orphan-IsForgotten : is_orphan delay now t ≡ true → IsForgotten delay now t
  is_orphan-IsForgotten e = record {
    deposit = deposit_of t.type (ground arith);
    pending = pending_of t.status (ground arith);
    unacknowledged = ground arith;
    old = ground (arith, minutes delay);
  }

  IsForgotten-is_orphan : IsForgotten delay now t → is_orphan delay now t ≡ true
  IsForgotten-is_orphan h =
      rw (h.deposit, h.pending, h.unacknowledged) (ground (arith, h.old, minutes delay))

-- With the queue up, the recovery queues one notification, with the metadata's amount and currency, for
-- each transaction that is a pending deposit without a provider's reference and older than the delay in
-- minutes, and for no other; it changes nothing else and returns their number.
pub recover_orphan_deposits_lem :
    (delay : ℕ) (s : State)
    → s.context.queue_up ≡ true
    → (found : List Transaction) × IsSelection
        (IsForgotten delay s.context.now)
        s.db.transactions
        found
      × (recover_orphan_deposits true delay s ≡ (
        ok (length found),
        record s {
          jobs = s.jobs ++ map (λ t. notify_provider t.id (meta_amount t) (meta_currency t)) found;
        },
      ))
unfolding recover_orphan_deposits ◌>>=◌
recover_orphan_deposits_lem delay s up =
    let now = s.context.now in
    (
      orphans delay now s.db,
      select-IsSelection (is_orphan delay now) (IsForgotten delay now)
          (is_orphan-IsForgotten delay now) (IsForgotten-is_orphan delay now) s.db.transactions,
      ground (arith, enqueue_all_lem (orphans delay now s.db) s up),
    )
