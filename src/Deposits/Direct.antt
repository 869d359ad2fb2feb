-- ===== src/Deposits/Direct.antt =====
-- The direct deposit and the initiation of a deposit keep the ledger's invariant.
use paysika.Prelude.{
  ℕ, ◌≡◌, ◌⊎◌, String, Option, true, false, none, some, arith, Bool-cases, Option-cases, inl, inr,
  str_eq,
}
use paysika.Prelude.Int.{nonneg_of_pos, ◌<ℤ◌, ℤ, pos, leb_ℤ, leb_ℤ-false}
use paysika.Errors.{ok, Result-cases}
use paysika.Store.{next_id, State, Account, Transaction, ◌>>=◌}
use paysika.Deposits.{
  pending_row, initiate_deposit, new_initiate, get_account, get_or_create_platform_clearing_account,
  find_existing, go_on, build_correlation_id, execute_deposit, new_deposit,
}
use paysika.Ledger.Invariant.{posted-IsLedger, IsLedger-transactions, IsLedger}
use paysika.Deposits.Ledger.{read_same, cleared_system, cleared-IsLedger, read_state, cleared_state}
use paysika.EventBus.Delivery.{publish-Keeps}
use paysika.Domain.Events.{deposit_initiated}
use paysika.Ledger.{build_correlation_id, go_on, key_taken}
use paysika.Ledger.Effects.{insert_transaction_free, insert_transaction_taken, with_transaction}
use paysika.Lock.Order.{lock_accounts-returns}
use paysika.Deposits.{completed_row}
use paysika.Prelude.{or_else, ◌∷◌, []}
use paysika.Deposits.Ledger.{locked_state, locked_same}
use paysika.Deposits.Steps.{get_account-Keeps, post_deposit-db}
use paysika.Ledger.Sums.{posted}
use paysika.Store.Keeps.{untouched}

module _ (account_id : ℕ) (amount : ℤ) (currency description : String) (key : Option String)
    (s : State) where
  module _ (h : IsLedger s.db) where
    abbrev cleared : State
    cleared = cleared_state account_id currency s

    abbrev direct : State
    direct = (new_deposit account_id amount currency description key s).1

    -- The tables of a new deposit: none, a clearing account, or that with the row and its entries.
    new_deposit-outcome :
        (direct.db ≡ s.db)
        ⊎ ((direct.db ≡ cleared.db)
            ⊎ ((c : Account) × (t : Transaction) × ((get_or_create_platform_clearing_account
                    currency
                    (read_state account_id currency s)).0
                  ≡ ok c)
                × (direct.db ≡ record cleared.db {
                  transactions = t ∷ cleared.db.transactions;
                  entries = posted c.id account_id t.id amount currency cleared.db.entries;
                })))
    unfolding new_deposit build_correlation_id go_on ◌>>=◌
    new_deposit-outcome = elim (Result-cases (get_account account_id s).0) [
      | inr (e, x) ↦ inl (ground (arith, read_same account_id currency s))
      | inl (a, x) ↦ elim (Bool-cases (str_eq a.currency currency)) [
        | inr bad ↦ inl (ground (arith, read_same account_id currency s))
        | inl good ↦
            elim (Result-cases
              (get_or_create_platform_clearing_account currency
                (read_state account_id currency s)).0) [
                  | inr (e, y) ↦ inr (inl (ground arith))
                  | inl (c, y) ↦
                      let s1 = locked_state account_id currency s a c in
                      let row =
                        completed_row amount currency description key
                          (or_else s1.context.correlation_id s1.context.uuid) s1.context.now in
                      let locks = lock_accounts-returns (a.id ∷ c.id ∷ []) cleared in
                      let same = locked_same account_id currency s a c in
                      elim (Option-cases (key_taken key s1.db)) [
                        | inr (t, taken) ↦ inr (
                            inl (
                              ground
                                (arith, locks, same, insert_transaction_taken key row s1 t taken)))
                        | inl free ↦
                            let t = row (next_id (λ (t : Transaction). t.id) s1.db.transactions) in
                            inr (
                              inr (
                                c,
                                t,
                                y,
                                ground (
                                  arith,
                                  locks,
                                  same,
                                  insert_transaction_free key row s1 free,
                                  post_deposit-db account_id amount currency description key c t
                                      (record s1 { db = with_transaction row s1.db }),
                                ),
                              ))
                      ]
                ]
      ]
    ]

    new_deposit-IsLedger : pos 0 <ℤ amount → IsLedger direct.db
    new_deposit-IsLedger positive = elim new_deposit-outcome [
      | inl kept ↦ rw kept h
      | inr (inl opened) ↦ rw opened (cleared-IsLedger account_id currency s h)
      | inr (inr (c, t, x, tables)) ↦ rw tables (
          IsLedger-transactions _ _ (
            posted-IsLedger c.id account_id t.id amount currency cleared.db
              (nonneg_of_pos amount positive) (inl (cleared_system account_id currency s h c x))
              (cleared-IsLedger account_id currency s h)))
    ]

    execute_deposit-stopped :
        (leb_ℤ amount (pos 0) ≡ true) ⊎ ((t : Transaction) × (find_existing key s.db ≡ some t))
        → (execute_deposit account_id amount currency description key s).1.db ≡ s.db
    unfolding execute_deposit ◌>>=◌
    execute_deposit-stopped x = ground arith

    execute_deposit-started :
        leb_ℤ amount (pos 0) ≡ false
        → find_existing key s.db ≡ none
        → execute_deposit account_id amount currency description key s
          ≡ new_deposit account_id amount currency description key s
    unfolding execute_deposit ◌>>=◌
    execute_deposit-started positive fresh = ground arith

    -- From tables that satisfy the ledger's invariant, a direct deposit, whatever it is given and
    -- whether it returns or raises, leaves tables that satisfy it.
    pub execute_deposit-IsLedger :
        IsLedger (execute_deposit account_id amount currency description key s).1.db
    execute_deposit-IsLedger = elim (Bool-cases (leb_ℤ amount (pos 0))) [
      | inl bad ↦ rw (execute_deposit-stopped (inl bad)) h
      | inr positive ↦ elim (Option-cases (find_existing key s.db)) [
        | inr found ↦ rw (execute_deposit-stopped (inr found)) h
        | inl fresh ↦
            rw (execute_deposit-started positive fresh)
              (new_deposit-IsLedger (leb_ℤ-false amount (pos 0) positive))
      ]
    ]

  module _ (provider : String) where
    initiate_started :
        leb_ℤ amount (pos 0) ≡ false
        → find_existing key s.db ≡ none
        → initiate_deposit account_id amount currency description key provider s
          ≡ new_initiate account_id amount currency description key provider s
    unfolding initiate_deposit ◌>>=◌
    initiate_started positive fresh = ground arith

    initiate_stopped :
        (leb_ℤ amount (pos 0) ≡ true) ⊎ ((t : Transaction) × (find_existing key s.db ≡ some t))
        → (initiate_deposit account_id amount currency description key provider s).1.db ≡ s.db
    unfolding initiate_deposit ◌>>=◌
    initiate_stopped x = ground arith

    abbrev asked : State
    asked = (get_account account_id s).1

    abbrev waiting : ℕ → Transaction
    waiting =
        pending_row account_id amount currency description key provider
          (or_else asked.context.correlation_id asked.context.uuid) asked.context.now

    new_initiate-outcome :
        let s' = (new_initiate account_id amount currency description key provider s).1 in
        (s'.db ≡ s.db) ⊎ (s'.db ≡ with_transaction waiting s.db)
    unfolding new_initiate build_correlation_id go_on ◌>>=◌
    new_initiate-outcome =
        let same = read_same account_id currency s in
        elim (Result-cases (get_account account_id s).0) [
          | inr (e, x) ↦ inl (ground (arith, same))
          | inl (a, x) ↦ elim (Bool-cases (str_eq a.currency currency)) [
            | inr bad ↦ inl (ground (arith, same))
            | inl good ↦ elim (Option-cases (key_taken key asked.db)) [
              | inr (t, taken) ↦
                  inl (ground (arith, same, insert_transaction_taken key waiting asked t taken))
              | inl free ↦
                  let t = waiting (next_id (λ (t : Transaction). t.id) asked.db.transactions) in
                  let s2 : State = record asked { db = with_transaction waiting asked.db } in
                  let sent =
                    ((publish-Keeps (deposit_initiated t.id account_id amount currency) s2).at s2
                      (untouched s2)).db in
                  inr (ground (arith, same, sent, insert_transaction_free key waiting asked free))
            ]
          ]
        ]

    -- The row of the deposit, from the request's context.
    abbrev pub initiated : ℕ → Transaction
    initiated =
        pending_row account_id amount currency description key provider
          (or_else s.context.correlation_id s.context.uuid) s.context.now

    -- Initiating a deposit leaves the tables as they were, or the amount is positive, no
    -- transaction had the key, and the tables have one row more, which is pending and records
    -- account, amount and currency; it never writes an entry.
    pub initiate_deposit-outcome :
        let s' = (initiate_deposit account_id amount currency description key provider s).1 in
        (s'.db ≡ s.db)
        ⊎ ((pos 0 <ℤ amount)
            × (find_existing key s.db ≡ none)
            × (s'.db ≡ with_transaction initiated s.db))
    initiate_deposit-outcome = elim (Bool-cases (leb_ℤ amount (pos 0))) [
      | inl bad ↦ inl (initiate_stopped (inl bad))
      | inr positive ↦ elim (Option-cases (find_existing key s.db)) [
        | inr found ↦ inl (initiate_stopped (inr found))
        | inl fresh ↦ rw (initiate_started positive fresh) (elim new_initiate-outcome [
          | inl kept ↦ inl kept
          | inr tables ↦ inr (
            leb_ℤ-false amount (pos 0) positive,
            fresh,
            ground (arith, tables, ((get_account-Keeps account_id s).at s (untouched s)).context),
          )
        ])
      ]
    ]
