-- ===== src/Transfers/Steps.antt =====
-- What each step of a transfer does to the tables, and when its checks pass.
use paysika.Prelude.{ℕ, ◌≡◌, String, true, some, ◌∷◌, [], arith, str_eq, Option-cases, inl, inr}
use paysika.Prelude.Int.{ℤ, ◌≤ℤ◌}
use paysika.Errors.{ok}
use paysika.Domain.Enums.{same_currency_refl, Currency, of_value}
use paysika.Domain.Money.{less, make}
use paysika.Domain.Events.{transfer_completed}
use paysika.Store.{State, Db, Account, Transaction, ◌>>=◌}
use paysika.Store.Keeps.{untouched, Keeps, Untouched}
use paysika.Lock.{lock_accounts}
use paysika.Lock.Order.{lock_accounts-Keeps, lock_accounts-returns}
use paysika.Accounts.{find_account}
use paysika.Balance.Snapshots.{IsSound}
use paysika.Balance.Reads.{balance_of, frame_rules, get_balance-locked, get_balance-unknown}
use paysika.Ledger.{add_entries}
use paysika.Ledger.Effects.{settle-Keeps}
use paysika.Ledger.Sums.{posted}
use paysika.Transfers.{post_transfer, check_transfer}

module _ (source target : ℕ) (amount : ℤ) (currency : String) where
  -- The tables after `post_transfer`, whether or not the event could be published.
  pub post_transfer-db :
      (t : Transaction) (s : State)
      → (post_transfer source target amount currency t s).1.db
        ≡ record s.db { entries = posted source target t.id amount currency s.db.entries }
  unfolding post_transfer add_entries ◌>>=◌
  post_transfer-db t s =
      let s' : State = record s {
        db = record s.db { entries = posted source target t.id amount currency s.db.entries };
      } in
      ((settle-Keeps source target currency (transfer_completed t.id source target amount currency)
          t s').at
        s' (untouched s')).db

  pub check_transfer-Keeps :
      (o : State) → Keeps (Untouched o) (check_transfer source target amount currency)
  unfolding check_transfer
  check_transfer-Keeps o = search (frame_rules, lock_accounts-Keeps) depth 25

-- What a transfer requires of the tables.
pub record IsCovered (source target : ℕ) (amount : ℤ) (currency : String) (d : Db) : Type 0 where
  pub source_account :
      (a : Account) × (find_account source d ≡ some a) × (str_eq a.currency currency ≡ true)
  pub target_account :
      (a : Account) × (find_account target d ≡ some a) × (str_eq a.currency currency ≡ true)
  pub supported : (c : Currency) × (of_value currency ≡ some c)
  pub funds : amount ≤ℤ balance_of source d

module _ (source target : ℕ) (amount : ℤ) (currency : String) (s : State)
    (sound : IsSound s.db) where
  abbrev pub locked : State
  locked = (lock_accounts (source ∷ target ∷ []) s).1

  pub same : locked.db ≡ s.db
  same = ((lock_accounts-Keeps (source ∷ target ∷ []) s).at s (untouched s)).db

  pub sound' : IsSound locked.db
  sound' = rw same sound

  -- The checks pass exactly on tables that cover the transfer.
  pub check_transfer-passes :
      IsCovered source target amount currency s.db
      → (check_transfer source target amount currency s).0 ≡ ok tt
  unfolding check_transfer less make ◌>>=◌
  check_transfer-passes h =
      let (a, found_a, own_a) = h.source_account in
      let (b, found_b, own_b) = h.target_account in
      let (c, known) = h.supported in
      let (read, kept) = get_balance-locked source currency locked sound' known in
      ground (
        arith,
        h.funds,
        lock_accounts-returns (source ∷ target ∷ []) s,
        same,
        found_a,
        found_b,
        own_a,
        own_b,
        known,
        read,
        same_currency_refl c,
      )

  module _ (passed : (check_transfer source target amount currency s).0 ≡ ok tt) where
    covers_account :
        (a : Account) × (find_account source s.db ≡ some a) × (str_eq a.currency currency ≡ true)
    unfolding check_transfer ◌>>=◌
    covers_account = elim (Option-cases (find_account source s.db)) [
      | inl missing ↦ absurd (ground (arith, lock_accounts-returns (source ∷ target ∷ []) s, same))
      | inr (a, found) ↦
          (a, found, ground (arith, lock_accounts-returns (source ∷ target ∷ []) s, same))
    ]

    covers_target :
        (a : Account) × (find_account target s.db ≡ some a) × (str_eq a.currency currency ≡ true)
    unfolding check_transfer ◌>>=◌
    covers_target = elim (Option-cases (find_account target s.db)) [
      | inl missing ↦ absurd (ground (arith, lock_accounts-returns (source ∷ target ∷ []) s, same))
      | inr (a, found) ↦
          (a, found, ground (arith, lock_accounts-returns (source ∷ target ∷ []) s, same))
    ]

    covers_currency : (c : Currency) × (of_value currency ≡ some c)
    unfolding check_transfer ◌>>=◌
    covers_currency = elim (Option-cases (of_value currency)) [
      | inl unknown ↦ absurd (
          ground (
            arith,
            lock_accounts-returns (source ∷ target ∷ []) s,
            get_balance-unknown source currency locked unknown,
          ))
      | inr known ↦ known
    ]

    pub check_transfer-covers : IsCovered source target amount currency s.db
    unfolding check_transfer less make ◌>>=◌
    check_transfer-covers =
        let (c, known) = covers_currency in
        let (read, kept) = get_balance-locked source currency locked sound' known in
        record {
          source_account = covers_account;
          target_account = covers_target;
          supported = covers_currency;
          funds = ground (
            arith,
            lock_accounts-returns (source ∷ target ∷ []) s,
            same,
            known,
            read,
            same_currency_refl c,
          );
        }
