-- ===== src/Exchange/Steps.antt =====
-- What the steps of an exchange do to the tables.
use paysika.Prelude.{Option-cases, [], ℕ, ◌≡◌, String, some, ◌∷◌, arith, inl, inr}
use paysika.Prelude.Int.{ℤ, pos, ◌≤ℤ◌, ◌*ℤ◌}
use paysika.Errors.{ok, Result-cases}
use paysika.Store.{Transaction, State, Action, Account, Rate, ◌>>=◌, modify}
use paysika.Store.Keeps.{untouched, Keeps, Untouched, keeps_rules}
use paysika.Lock.Order.{lock_accounts-returns, lock_accounts-Keeps}
use paysika.Balance.Reads.{get_balance-locked, get_balance-unknown, balance_of, frame_rules}
use paysika.Lock.{lock_accounts}
use paysika.Domain.Enums.{of_value, same_currency_refl}
use paysika.Domain.Money.{less, make}
use paysika.Store.{LedgerEntry, pure, ◌>>◌}
use paysika.Ledger.Sums.{posted}
use paysika.Ledger.{add_entries}
use paysika.Balance.{refresh_balance_cache, maybe_create_snapshot}
use paysika.Prelude.{List}
use paysika.Exchange.{
  post_exchange, Provider, fallback_rate, get_provider, cached_rate, exchanged, fetch_rate,
  get_exchange_rate, check_exchange,
}
use paysika.Balance.Snapshots.{IsSound}

-- A predicate holds after `m >>= f` where it holds after an exception of `m` and after `f`.
pub after_bind :
    {A B : Type 0} (P : State → Type 0) (m : Action A) (f : A → Action B) (s : State)
    → P (m s).1
    → ((a : A) → (m s).0 ≡ ok a → P (f a (m s).1).1)
    → P ((m >>= f) s).1
unfolding ◌>>=◌
after_bind P m f s stopped goes = elim (Result-cases (m s).0) [
  | inr (e, x) ↦ rw x stopped
  | inl (a, x) ↦ rw x (goes a x)
]

cache_rate-Keeps :
    (a b : String) (r : Rate) (o : State)
    → Keeps (Untouched o) (modify (λ s. record s { fx_cache = ((a, b), r) ∷ s.fx_cache }))
unfolding ◌>>=◌
cache_rate-Keeps a b r o = record {
  at = λ s h. record {
    db = h.db;
    committed = h.committed;
    context = h.context;
    handlers = h.handlers;
  };
}

-- Rates that are not negative.
abbrev pub IsRate : Rate → Type 0
IsRate r = pos 0 ≤ℤ r.coefficient

-- A provider that answers such rates only.
abbrev pub IsSensible : Provider → Type 0
IsSensible provider = (a b : String) (r : Rate) → provider a b ≡ some r → IsRate r

-- A cache that holds such rates only.
abbrev pub IsPriced : State → Type 0
IsPriced s = (a b : String) (r : Rate) → cached_rate a b s.fx_cache ≡ some r → IsRate r

pub fallback_rate-IsSensible : IsSensible fallback_rate
unfolding fallback_rate
fallback_rate-IsSensible a b r e = ground arith

pub exchanged_nonneg :
    (amount : ℤ) (r : Rate) → pos 0 ≤ℤ amount → IsRate r → pos 0 ≤ℤ exchanged amount r
unfolding exchanged ◌*ℤ◌
exchanged_nonneg amount r h k = ground arith

module _ (frankfurter : Provider) (name a b : String) where
  pub get_exchange_rate-Keeps :
      (o : State) → Keeps (Untouched o) (get_exchange_rate frankfurter name a b)
  unfolding get_exchange_rate fetch_rate
  get_exchange_rate-Keeps o = search (keeps_rules, cache_rate-Keeps) depth 12

  -- The rate that is returned is not negative.
  pub get_exchange_rate-IsRate :
      (s : State) (r : Rate)
      → IsSensible frankfurter
      → IsPriced s
      → (get_exchange_rate frankfurter name a b s).0 ≡ ok r
      → IsRate r
  unfolding get_exchange_rate fetch_rate get_provider ◌>>=◌
  get_exchange_rate-IsRate s r sensible priced e =
      ground (arith, priced a b r, sensible a b r, fallback_rate-IsSensible a b r)

module _ (source target : ℕ) (amount : ℤ) (sc tc : String) (x y u v : Account) where
  pub check_exchange-Keeps :
      (o : State) → Keeps (Untouched o) (check_exchange source target amount sc tc x y u v)
  unfolding check_exchange
  check_exchange-Keeps o = search (frame_rules, lock_accounts-Keeps) depth 25

  module _ (s : State) (sound : IsSound s.db) where
    abbrev held : State
    held = (lock_accounts (x.id ∷ y.id ∷ u.id ∷ v.id ∷ []) s).1

    same : held.db ≡ s.db
    same = ((lock_accounts-Keeps (x.id ∷ y.id ∷ u.id ∷ v.id ∷ []) s).at s (untouched s)).db

    -- Checks that pass have found the funds.
    pub check_exchange-covers :
        (check_exchange source target amount sc tc x y u v s).0 ≡ ok tt
        → amount ≤ℤ balance_of source s.db
    unfolding check_exchange less make ◌>>=◌
    check_exchange-covers passed =
        let taken = lock_accounts-returns (x.id ∷ y.id ∷ u.id ∷ v.id ∷ []) s in
        elim (Option-cases (of_value sc)) [
          | inl unknown ↦ absurd (ground (arith, taken, get_balance-unknown source sc held unknown))
          | inr (c, known) ↦
              let (read, kept) = get_balance-locked source sc held (rw same sound) known in
              ground (arith, taken, same, known, read, same_currency_refl c)
        ]

module _ (source target : ℕ) (amount : ℤ) (sc tc : String) (target_amount : ℤ) (u v : Account) where
  -- The entries of an exchange.
  abbrev pub exchanged_entries : ℕ → List LedgerEntry → List LedgerEntry
  exchanged_entries t es = posted v.id target t target_amount tc (posted source u.id t amount sc es)

  settle_exchange-Keeps :
      (t : Transaction) (o : State)
      → Keeps (Untouched o) (do
        refresh_balance_cache source sc
        refresh_balance_cache u.id sc
        refresh_balance_cache v.id tc
        refresh_balance_cache target tc
        maybe_create_snapshot source
        maybe_create_snapshot u.id
        maybe_create_snapshot v.id
        maybe_create_snapshot target
        pure t)
  settle_exchange-Keeps t o = search frame_rules depth 25

  pub post_exchange-db :
      (t : Transaction) (s : State)
      → (post_exchange source target amount sc tc target_amount u v t s).1.db
        ≡ record s.db { entries = exchanged_entries t.id s.db.entries }
  unfolding post_exchange add_entries ◌>>=◌
  post_exchange-db t s =
      let s' : State = record s {
        db = record s.db { entries = exchanged_entries t.id s.db.entries };
      } in
      ((settle_exchange-Keeps t s').at s' (untouched s')).db
