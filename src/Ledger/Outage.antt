-- ===== src/Ledger/Outage.antt =====
-- What follows the flush of the entries while the queue is down.
use paysika.Prelude.{
  refl, ℕ, ◌≡◌, ◌≢◌, ◌∙◌, String, List, ◌∷◌, some, false, arith, lookup, erase, ap, ==_refl,
}
use paysika.Errors.{Result, err, queue_error}
use paysika.Domain.Enums.{Currency, of_value}
use paysika.Domain.Events.{Event}
use paysika.Store.{Context, State, Transaction, ◌>>=◌}
use paysika.Store.Keeps.{IsQuiet, quiet}
use paysika.EventBus.Delivery.{registered, recipients, publish_down}
use paysika.Balance.{refresh_balance_cache, maybe_create_snapshot}
use paysika.Balance.Snapshots.{IsSound}
use paysika.Balance.Reads.{balance_of, refresh_balance_cache-returns, maybe_create_snapshot-returns}
use paysika.Balance.Coherence.{
  lookup-erase_other, refresh_balance_cache_lem, maybe_create_snapshot-IsQuiet,
}
use paysika.Ledger.{settle}
use paysika.Ledger.Effects.{refreshed, snapped, snapped-Untouched}

module _ (one other : ℕ) (currency : String) (e : Event) (t : Transaction) (s : State)
    {c : Currency} (known : of_value currency ≡ some c) (wired : s.handlers ≡ registered)
    (down : s.context.queue_up ≡ false) (r : String) (rs : List String)
    (mailed : recipients e s.db ≡ r ∷ rs) where
  abbrev late : State
  late = snapped one other currency e t s

  settle-late : settle one other currency e t s ≡ (err queue_error, late)
  unfolding settle ◌>>=◌
  settle-late =
      let kept = snapped-Untouched one other currency e t s in
      let sent =
        publish_down e late (kept.handlers ∙ wired)
          (ap (λ (x : Context). x.queue_up) kept.context ∙ down) in
      ground (
        arith,
        kept.db,
        mailed,
        refresh_balance_cache-returns one s currency known,
        refresh_balance_cache-returns other (refresh_balance_cache one currency s).1 currency known,
        maybe_create_snapshot-returns one (refreshed one other currency e t s),
        maybe_create_snapshot-returns other
            (maybe_create_snapshot one (refreshed one other currency e t s)).1,
        sent,
      )

  late-IsQuiet : IsQuiet (refreshed one other currency e t s) late
  late-IsQuiet =
      let o = refreshed one other currency e t s in
      (maybe_create_snapshot-IsQuiet other o).at _
        ((maybe_create_snapshot-IsQuiet one o).at o (quiet o))

  late-lookup :
      IsSound s.db
      → one ≢ other
      → lookup one late.balance_cache
        ≡ some (record { amount = balance_of one s.db; currency = currency })
  late-lookup sound apart =
      let first = refresh_balance_cache_lem one currency s sound known in
      let s1 : State = record s {
        balance_cache =
            (one, record { amount = balance_of one s.db; currency = currency })
            ∷ erase one s.balance_cache;
      } in
      let second : (refreshed one other currency e t s).balance_cache
          ≡ (other, record { amount = balance_of other s.db; currency = currency })
            ∷ erase other s1.balance_cache =
        ap (λ (x : Result Unit × State). (refresh_balance_cache other currency x.1).1.balance_cache)
          first
        ∙ ap (λ (x : Result Unit × State). x.1.balance_cache)
            (refresh_balance_cache_lem other currency s1 sound known) in
      rw (late-IsQuiet.cache, second)
        (ground (arith, ==_refl one, lookup-erase_other one other s1.balance_cache))

  -- It raises once the new balances have been cached.
  pub settle_down :
      IsSound s.db
      → one ≢ other
      → let (answer, s') = settle one other currency e t s in
        (answer ≡ err queue_error)
        × (lookup one s'.balance_cache
            ≡ some (record { amount = balance_of one s.db; currency = currency }))
  settle_down sound apart = rw settle-late (refl, late-lookup sound apart)
