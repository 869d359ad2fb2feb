-- ===== src/Exchange/Ledger.antt =====
-- A transfer between two currencies keeps the ledger's invariant.
use paysika.Prelude.{
  ◌⊎◌, str_eq, ℕ, ◌≡◌, String, true, false, Option, some, none, arith, Option-cases, Bool-cases,
  inl, inr, or_else,
}
use paysika.Prelude.Int.{ℤ, pos, ◌≤ℤ◌, leb_ℤ, leb_ℤ-false, nonneg_of_pos}
use paysika.Errors.{ok}
use paysika.Store.{State, Action, Account, Transaction, Rate, next_id, ◌>>=◌, ◌>>◌}
use paysika.Store.Keeps.{untouched}
use paysika.Accounts.{get_or_create_platform_clearing_account, find_account}
use paysika.Accounts.Opening.{is_clearing_id, Extends-refl, platform_clearing-ExtendsFrom}
use paysika.Accounts.Clearing.{platform_clearing-IsSystemAccount}
use paysika.Balance.Reads.{balance_of}
use paysika.Ledger.{key_taken, find_existing, go_on, build_correlation_id}
use paysika.Ledger.Effects.{insert_transaction_free, insert_transaction_taken, with_transaction}
use paysika.Ledger.Invariant.{IsLedger, posted-IsLedger, Extends-IsLedger, IsLedger-transactions}
use paysika.Exchange.{
  Provider, exchanged, exchange_row, get_exchange_rate, check_exchange, record_exchange, exchange,
  execute_fx_transfer,
}
use paysika.Exchange.Steps.{
  after_bind, IsRate, IsSensible, IsPriced, exchanged_nonneg, get_exchange_rate-Keeps,
  get_exchange_rate-IsRate, check_exchange-Keeps, check_exchange-covers, exchanged_entries,
  post_exchange-db,
}

abbrev Holds : State → Type 0
Holds s = IsLedger s.db

-- Opening the clearing account of a currency.
module _ (currency : String) (s : State) (h : IsLedger s.db) where
  opened-IsLedger : IsLedger (get_or_create_platform_clearing_account currency s).1.db
  opened-IsLedger =
      Extends-IsLedger s.db _
        ((platform_clearing-ExtendsFrom currency s.db).at s (Extends-refl s.db h.ordered)) h

  opened_system :
      (c : Account)
      → (get_or_create_platform_clearing_account currency s).0 ≡ ok c
      → is_clearing_id c.id (get_or_create_platform_clearing_account currency s).1.db ≡ true
  opened_system c e =
      let x = platform_clearing-IsSystemAccount currency s c h.ordered e in
      ground (arith, x.found, x.system)

module _ (source target : ℕ) (amount : ℤ) (sc tc description : String) (key : Option String)
    (positive : pos 0 ≤ℤ amount) (rate : Rate) (fair : IsRate rate) where
  module _ (u v : Account) (s : State) (h : IsLedger s.db)
      (funds : amount ≤ℤ balance_of source s.db) (system : is_clearing_id v.id s.db ≡ true) where
    abbrev target_amount : ℤ
    target_amount = exchanged amount rate

    entries-IsLedger :
        (t : ℕ)
        → IsLedger (record s.db {
          entries = exchanged_entries source target amount sc tc target_amount u v t s.db.entries;
        })
    entries-IsLedger t =
        let once = posted-IsLedger source u.id t amount sc s.db positive (inr funds) h in
        posted-IsLedger v.id target t target_amount tc _
          (exchanged_nonneg amount rate positive fair) (inl system) once

    abbrev row : ℕ → Transaction
    row =
        exchange_row amount sc target_amount tc rate key
          (or_else s.context.correlation_id s.context.uuid) description s.context.now

    recorded_taken :
        (t : Transaction)
        → key_taken key s.db ≡ some t
        → (record_exchange source target amount sc tc description key rate u v s).1.db ≡ s.db
    unfolding record_exchange build_correlation_id go_on ◌>>=◌
    recorded_taken t taken = ground (arith, insert_transaction_taken key row s t taken)

    recorded_free :
        key_taken key s.db ≡ none
        → let id = next_id (λ (t : Transaction). t.id) s.db.transactions in
          (record_exchange source target amount sc tc description key rate u v s).1.db
          ≡ record (with_transaction row s.db) {
            entries =
                exchanged_entries source target amount sc tc target_amount u v id s.db.entries;
          }
    unfolding record_exchange build_correlation_id go_on ◌>>=◌
    recorded_free free =
        let id = next_id (λ (t : Transaction). t.id) s.db.transactions in
        ground (
          arith,
          insert_transaction_free key row s free,
          post_exchange-db source target amount sc tc target_amount u v (row id)
              (record s { db = with_transaction row s.db }),
        )

    record_exchange-IsLedger :
        IsLedger (record_exchange source target amount sc tc description key rate u v s).1.db
    record_exchange-IsLedger = elim (Option-cases (key_taken key s.db)) [
      | inr (t, taken) ↦ rw (recorded_taken t taken) h
      | inl free ↦ rw (recorded_free free) (IsLedger-transactions _ _ (entries-IsLedger _))
    ]

  -- The rest of an exchange, from its checks and from the clearing accounts on.
  abbrev checked : Account → Account → Account → Account → Action Transaction
  checked x y u v =
      check_exchange source target amount sc tc x y u v
      >> record_exchange source target amount sc tc description key rate u v

  abbrev cleared : Account → Account → Action Transaction
  cleared x y = get_or_create_platform_clearing_account sc >>= λ u.
      get_or_create_platform_clearing_account tc >>= checked x y u

  checked-IsLedger :
      (x y u v : Account) (s : State)
      → IsLedger s.db
      → is_clearing_id v.id s.db ≡ true
      → IsLedger (checked x y u v s).1.db
  checked-IsLedger x y u v s h system =
      let s' = (check_exchange source target amount sc tc x y u v s).1 in
      let same =
        ((check_exchange-Keeps source target amount sc tc x y u v s).at s (untouched s)).db in
      after_bind Holds (check_exchange source target amount sc tc x y u v) _ s (rw same h)
        (λ a passed.
          record_exchange-IsLedger u v s' (rw same h)
            (rw same (check_exchange-covers source target amount sc tc x y u v s h.sound passed))
            (rw same system))

  cleared-IsLedger : (x y : Account) (s : State) → IsLedger s.db → IsLedger (cleared x y s).1.db
  cleared-IsLedger x y s h =
      let s1 = (get_or_create_platform_clearing_account sc s).1 in
      let h1 = opened-IsLedger sc s h in
      after_bind Holds (get_or_create_platform_clearing_account sc) _ s h1 (λ u e.
        after_bind Holds (get_or_create_platform_clearing_account tc) (checked x y u) s1
          (opened-IsLedger tc s1 h1)
          (λ v e'.
            checked-IsLedger x y u v (get_or_create_platform_clearing_account tc s1).1
              (opened-IsLedger tc s1 h1) (opened_system tc s1 h1 v e')))

  module _ (s : State) where
    unknown_source :
        find_account source s.db ≡ none
        → (exchange source target amount sc tc description key rate s).1.db ≡ s.db
    unfolding exchange ◌>>=◌
    unknown_source e = ground arith

    unknown_target :
        find_account target s.db ≡ none
        → (exchange source target amount sc tc description key rate s).1.db ≡ s.db
    unfolding exchange ◌>>=◌
    unknown_target e = ground arith

    known_accounts :
        (x y : Account)
        → find_account source s.db ≡ some x
        → find_account target s.db ≡ some y
        → exchange source target amount sc tc description key rate s ≡ cleared x y s
    unfolding exchange ◌>>=◌
    known_accounts x y e f = ground arith

    exchange-IsLedger :
        IsLedger s.db → IsLedger (exchange source target amount sc tc description key rate s).1.db
    exchange-IsLedger h = elim (Option-cases (find_account source s.db)) [
      | inl e ↦ rw (unknown_source e) h
      | inr (x, e) ↦ elim (Option-cases (find_account target s.db)) [
        | inl f ↦ rw (unknown_target f) h
        | inr (y, f) ↦ rw (known_accounts x y e f) (cleared-IsLedger x y s h)
      ]
    ]

module _ (frankfurter : Provider) (name : String) (source target : ℕ) (amount : ℤ)
    (sc tc description : String) (key : Option String) (s : State) where
  abbrev traded : State
  traded = (execute_fx_transfer source target amount sc tc frankfurter name description key s).1

  stopped :
      (str_eq sc tc ≡ true)
        ⊎ ((leb_ℤ amount (pos 0) ≡ true) ⊎ ((t : Transaction) × (find_existing key s.db ≡ some t)))
      → traded.db ≡ s.db
  unfolding execute_fx_transfer ◌>>=◌
  stopped x = ground arith

  started :
      str_eq sc tc ≡ false
      → leb_ℤ amount (pos 0) ≡ false
      → find_existing key s.db ≡ none
      → traded
        ≡ ((get_exchange_rate frankfurter name sc tc
              >>= exchange source target amount sc tc description key)
            s).1
  unfolding execute_fx_transfer ◌>>=◌
  started x y z = ground arith

  -- Where the provider and the cache give no negative rate, from tables that satisfy the ledger's
  -- invariant every transfer between two currencies, whether it returns or raises, leaves tables
  -- that satisfy it.
  pub execute_fx_transfer-IsLedger :
      IsSensible frankfurter → IsPriced s → IsLedger s.db → IsLedger traded.db
  execute_fx_transfer-IsLedger sensible priced h = elim (Bool-cases (str_eq sc tc)) [
    | inl e ↦ rw (stopped (inl e)) h
    | inr differ ↦ elim (Bool-cases (leb_ℤ amount (pos 0))) [
      | inl e ↦ rw (stopped (inr (inl e))) h
      | inr positive ↦ elim (Option-cases (find_existing key s.db)) [
        | inr found ↦ rw (stopped (inr (inr found))) h
        | inl fresh ↦
            let same = ((get_exchange_rate-Keeps frankfurter name sc tc s).at s (untouched s)).db in
            rw (started differ positive fresh) (
              after_bind Holds (get_exchange_rate frankfurter name sc tc)
                (exchange source target amount sc tc description key) s (rw same h)
                (λ rate e.
                  exchange-IsLedger source target amount sc tc description key
                    (nonneg_of_pos amount (leb_ℤ-false amount (pos 0) positive)) rate
                    (get_exchange_rate-IsRate frankfurter name sc tc s rate sensible priced e) _
                    (rw same h)))
      ]
    ]
  ]
