-- ===== src/Transfers/Refusals.antt =====
-- When a transfer is refused, and what a repeated one answers.
use paysika.Prelude.{
  inl, inr, Option-cases, ◌∷◌, [], ◌&&◌, if◌then◌else◌, ℕ, ◌≡◌, ◌≢◌, refl, String, Option, none,
  some, false, arith, str_eq, not,
}
use paysika.Prelude.Int.{ltb_ℤ, ℤ, pos, ◌<ℤ◌}
use paysika.Errors.{
  value_error, Error, ok, err, insufficient_funds, account_not_found, currency_mismatch,
}
use paysika.Domain.Enums.{of_value, same_currency_refl}
use paysika.Domain.Money.{less, make}
use paysika.Store.{Db, State, Transaction, ◌>>=◌}
use paysika.Store.Keeps.{untouched}
use paysika.Lock.Order.{lock_accounts-returns}
use paysika.Accounts.{find_account}
use paysika.Balance.Snapshots.{IsSound}
use paysika.Balance.Reads.{get_balance-unknown, balance_of, get_balance-locked}
use paysika.Ledger.{find_existing}
use paysika.Transfers.{check_transfer, new_transfer, execute_transfer}
use paysika.Transfers.Steps.{IsCovered, locked, same, sound', check_transfer-Keeps}
use paysika.Transfers.Outcome.{execute_transfer-started}
use paysika.Transfers.Success.{IsReady, new_row, execute_transfer-succeeds}
use paysika.Ledger.Effects.{find_existing-inserted, find_existing-free}
use paysika.Ledger.Sums.{posted}

-- The error with which the checks of a transfer stop, if they stop.
unfoldable pub refusal : ℕ → ℕ → ℤ → String → Db → Option Error
refusal source target amount currency d = elim (find_account source d) [
  | none ↦ some account_not_found
  | some a ↦ elim (find_account target d) [
    | none ↦ some account_not_found
    | some b ↦
        if not (str_eq a.currency currency && str_eq b.currency currency)
        then some currency_mismatch
        else elim (of_value currency) [
          | none ↦ some value_error
          | some c ↦ if ltb_ℤ (balance_of source d) amount then some insufficient_funds else none
        ]
  ]
]

module _ (source target : ℕ) (amount : ℤ) (currency : String) (s : State)
    (sound : IsSound s.db) where
  check_transfer-eq-refusal :
      (check_transfer source target amount currency s).0
      ≡ (elim (refusal source target amount currency s.db) [ none ↦ ok tt | some e ↦ err e ])
  unfolding check_transfer refusal less make ◌>>=◌
  check_transfer-eq-refusal =
      let done = lock_accounts-returns (source ∷ target ∷ []) s in
      let kept = same source target amount currency s sound in
      elim (Option-cases (of_value currency)) [
        | inl unknown ↦ ground (
          arith,
          done,
          kept,
          unknown,
          get_balance-unknown source currency (locked source target amount currency s sound)
              unknown,
        )
        | inr (c, known) ↦
            let (read, cached) =
              get_balance-locked source currency (locked source target amount currency s sound)
                (sound' source target amount currency s sound) known in
            ground (arith, done, kept, known, read, same_currency_refl c)
      ]

  -- From sound tables, a transfer of a positive amount between two different accounts under a key
  -- that no transaction has, which the checks refuse, raises the refusal's error and leaves the
  -- tables as they were: an unknown account first, then a currency of either account, then an
  -- unsupported currency, then an amount above the balance.
  pub execute_transfer-refused :
      (description : String) (key : Option String) (e : Error)
      → source ≢ target
      → pos 0 <ℤ amount
      → find_existing key s.db ≡ none
      → refusal source target amount currency s.db ≡ some e
      → ((execute_transfer source target amount currency description key s).0 ≡ err e)
        × ((execute_transfer source target amount currency description key s).1.db ≡ s.db)
  unfolding new_transfer ◌>>=◌
  execute_transfer-refused description key e apart positive fresh refused =
      let started =
        execute_transfer-started source target amount currency description key s sound
          (ground arith) (ground arith) fresh in
      let kept = (check_transfer-Keeps source target amount currency s).at s (untouched s) in
      let stops = check_transfer-eq-refusal in
      (
        rw started (ground (arith, stops, refused)),
        rw started (ground (arith, stops, refused, kept.db)),
      )

execute_transfer_existing :
    (source target : ℕ) (amount : ℤ) (currency description : String) (key : Option String)
    (s : State) (t : Transaction)
    → source ≢ target
    → pos 0 <ℤ amount
    → find_existing key s.db ≡ some t
    → execute_transfer source target amount currency description key s ≡ (ok t, s)
unfolding execute_transfer ◌>>=◌
execute_transfer_existing source target amount currency description key s t apart positive found =
    ground arith

-- From sound tables, after a transfer of a positive amount between two different accounts of its
-- supported currency, which the source holds, under a set key that no transaction has, with the
-- queue up and the handlers registered, any transfer of a positive amount between two different
-- accounts under the same key answers with the first one's transaction and changes nothing.
pub execute_transfer_replayed :
    (source target : ℕ) (amount : ℤ) (currency description key : String) (s : State)
    (sound : IsSound s.db)
    → IsCovered source target amount currency s.db
    → IsReady s
    → source ≢ target
    → pos 0 <ℤ amount
    → str_eq key "" ≡ false
    → find_existing (some key) s.db ≡ none
    → (source' target' : ℕ) (amount' : ℤ) (currency' description' : String) → source' ≢ target'
    → pos 0 <ℤ amount'
    → let s' = (execute_transfer source target amount currency description (some key) s).1 in
      execute_transfer source' target' amount' currency' description' (some key) s'
      ≡ (ok (new_row source target amount currency description (some key) s), s')
execute_transfer_replayed source target amount currency description key s sound covered ready apart
      positive set fresh source' target' amount' currency' description' apart' positive' =
    let free = find_existing-free key s.db set fresh in
    let (done, moved) =
      execute_transfer-succeeds source target amount currency description (some key) s sound covered
        ready apart positive fresh free in
    let row = new_row source target amount currency description (some key) s in
    let s' = (execute_transfer source target amount currency description (some key) s).1 in
    execute_transfer_existing source' target' amount' currency' description' (some key) s' row
      apart' positive'
      (rw moved (
        find_existing-inserted key row
          (record s.db { entries = posted source target row.id amount currency s.db.entries }) set
          refl))
