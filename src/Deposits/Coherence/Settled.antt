-- ===== src/Deposits/Coherence/Settled.antt =====
-- What a confirmation and a failure leave in the cache of balances.
use paysika.Prelude.{ℕ, ◌≡◌, String, some, refl, arith, inl, inr, Option-cases}
use paysika.Domain.Enums.{Currency, of_value}
use paysika.Domain.Events.{Event, deposit_completed}
use paysika.Store.{State, Account, Transaction, ◌>>=◌}
use paysika.Store.Keeps.{Keeps, keeps_rules}
use paysika.Ledger.{add_entries, settle}
use paysika.Ledger.Sums.{posted-IsSound}
use paysika.Ledger.Effects.{settle-returns}
use paysika.Ledger.Coherence.{settle-unsupported, IsRight, settle-IsCoherent, balance-posted}
use paysika.Deposits.Steps.{confirmed, post_confirmed-db}
use paysika.Deposits.{
  confirm_pending, confirm_deposit, fail_pending, fail_deposit, post_confirmed, complete,
  meta_amount, meta_currency, update_transaction,
}
use paysika.Deposits.Coherence.{
  IsWaiting, End, Ends, Keeps-Ends, bind-Ends, lock_accounts-IsWaiting, publish-IsWaiting,
  get_account-IsWaiting, require_pending-IsWaiting, update_transaction-IsWaiting,
  platform_clearing-IsWaiting,
}
use paysika.Balance.Snapshots.{IsSound}

module _ (ref : String) (t : Transaction) (account clearing : Account) (o : State) where
  module _ (s : State) (h : IsWaiting o s) where
    abbrev entered : State
    entered = record s { db = confirmed ref t account clearing s.db }

    abbrev event : Event
    event = deposit_completed t.id account.id (meta_amount t) (meta_currency t)

    entered-settle :
        post_confirmed ref t account clearing s
        ≡ settle account.id clearing.id (meta_currency t) event (complete ref t) entered
    unfolding post_confirmed add_entries update_transaction ◌>>=◌
    entered-settle = refl

    entered-IsSound : IsSound entered.db
    entered-IsSound =
        let x =
          posted-IsSound clearing.id account.id t.id (meta_amount t) (meta_currency t) s.db
            h.right.sound in
        record { exact = x.exact; positive = x.positive }

    entered-IsRight :
        (c : Currency)
        → of_value (meta_currency t) ≡ some c
        → IsRight (post_confirmed ref t account clearing s).1
    entered-IsRight c known = record {
      sound = rw (post_confirmed-db ref t account clearing s) entered-IsSound;
      coherent = rw entered-settle (
          settle-IsCoherent account.id clearing.id (meta_currency t) event (complete ref t) entered
            known s entered-IsSound refl
            (λ a p q.
              balance-posted clearing.id account.id t.id (meta_amount t) (meta_currency t) s a q p)
            h.right.coherent);
    }

    entered-End :
        End o
          (post_confirmed ref t account clearing s).0
          (post_confirmed ref t account clearing s).1
    entered-End = elim (Option-cases (of_value (meta_currency t))) [
      | inl unknown ↦
          let e =
            settle-unsupported account.id clearing.id (meta_currency t) event (complete ref t)
              entered unknown in
          rw (entered-settle, e)
            (record { returns = λ a x. absurd (ground arith); raises = λ r x. h.cache })
      | inr (c, known) ↦ record {
        returns = λ a x. entered-IsRight c known;
        raises = λ r x.
            let back =
              settle-returns account.id clearing.id (meta_currency t) event (complete ref t) entered
                known h.ready.wired h.ready.queue in
            absurd (ground (arith, entered-settle, back));
      }
    ]

  post_confirmed-Ends : Ends o (post_confirmed ref t account clearing)
  post_confirmed-Ends = record { at = entered-End }

module _ (o : State) where
  confirm_pending-Ends : (ref : String) (t : Transaction) → Ends o (confirm_pending ref t)
  unfolding confirm_pending
  confirm_pending-Ends ref t = bind-Ends o _ _ (search keeps_rules) (λ _.
      bind-Ends o _ _ (get_account-IsWaiting o _) (λ account.
        bind-Ends o _ _ (platform_clearing-IsWaiting o _) (λ clearing.
          bind-Ends o _ _ (lock_accounts-IsWaiting o _)
            (λ _. post_confirmed-Ends ref t account clearing o))))

  pub confirm_deposit-Ends : (i : ℕ) (ref : String) → Ends o (confirm_deposit i ref)
  unfolding confirm_deposit
  confirm_deposit-Ends i ref =
      bind-Ends o _ _ (require_pending-IsWaiting o i) (confirm_pending-Ends ref)

  fail_pending-IsWaiting :
      (reason : String) (t : Transaction) → Keeps (IsWaiting o) (fail_pending reason t)
  unfolding fail_pending
  fail_pending-IsWaiting reason t =
      search (keeps_rules, update_transaction-IsWaiting, publish-IsWaiting) depth 12

  pub fail_deposit-Ends : (i : ℕ) (reason : String) → Ends o (fail_deposit i reason)
  unfolding fail_deposit
  fail_deposit-Ends i reason =
      Keeps-Ends o _
        (search (keeps_rules, require_pending-IsWaiting, fail_pending-IsWaiting) depth 12)
