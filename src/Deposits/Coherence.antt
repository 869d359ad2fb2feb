-- ===== src/Deposits/Coherence.antt =====
-- A deposit and the cache of balances.
pub mod Settled
use paysika.Prelude.{refl, Bool, String, List, ℕ, ◌≡◌, ◌∙◌, arith, inl, inr}
use paysika.Errors.{Error, Result, ok, err, Result-cases}
use paysika.Domain.Events.{Event}
use paysika.Store.{Account, Transaction, modify_db, User, Db, Action, State, ◌>>=◌}
use paysika.Store.Keeps.{Keeps, IsQuiet, quiet, Untouched, untouched, keeps_rules}
use paysika.Lock.{lock_accounts}
use paysika.Lock.Order.{lock_accounts-Keeps}
use paysika.Lock.Quiet.{lock_accounts-IsQuiet}
use paysika.EventBus.{publish}
use paysika.EventBus.Delivery.{publish-Keeps}
use paysika.EventBus.Quiet.{publish-IsQuiet}
use paysika.Accounts.{
  get_or_create_clearing_account, get_or_create_system_user, add_account, add_user,
  get_or_create_platform_clearing_account, get_account,
}
use paysika.Balance.Coherence.{IsQuiet-IsCoherent}
use paysika.Ledger.Coherence.{IsRight}
use paysika.Transfers.Success.{IsReady}
use paysika.Deposits.{update_transaction, require_pending}

-- A session that has posted nothing yet: its tables are sound, the cache is right about them and is the
-- one that the session found, and the queue and the handlers are in place.
pub record IsWaiting (o s : State) : Type 0 where
  pub right : IsRight s
  pub cache : s.balance_cache ≡ o.balance_cache
  pub ready : IsReady s

-- An action that returns leaves a cache that is right, and one that raises leaves the cache alone.
pub record End {A : Type 0} (o : State) (r : Result A) (s : State) : Type 0 where
  pub returns : (a : A) → r ≡ ok a → IsRight s
  pub raises : (e : Error) → r ≡ err e → s.balance_cache ≡ o.balance_cache

pub record Ends {A : Type 0} (o : State) (m : Action A) : Type 0 where
  pub at : (s : State) → IsWaiting o s → End o (m s).0 (m s).1

module _ {A : Type 0} (o : State) where
  pub Keeps-Ends : (m : Action A) → Keeps (IsWaiting o) m → Ends o m
  Keeps-Ends m k = record {
    at = λ s h. record { returns = λ a e. (k.at s h).right; raises = λ x e. (k.at s h).cache };
  }

  Keeps-IsWaiting :
      (m : Action A)
      → ((x : State) → Keeps (IsQuiet x) m)
      → ((x : State) → Keeps (Untouched x) m)
      → Keeps (IsWaiting o) m
  Keeps-IsWaiting m k l = record {
    at = λ s h.
        let q = (k s).at s (quiet s) in
        let u = (l s).at s (untouched s) in
        record {
          right = record {
            sound = rw q.db h.right.sound;
            coherent = IsQuiet-IsCoherent q h.right.coherent;
          };
          cache = q.cache ∙ h.cache;
          ready = record { queue = rw u.context h.ready.queue; wired = u.handlers ∙ h.ready.wired };
        };
  }

module _ {A B : Type 0} (o : State) where
  pub bind-Ends :
      (first : Action A) (rest : A → Action B)
      → Keeps (IsWaiting o) first
      → ((a : A) → Ends o (rest a))
      → Ends o (first >>= rest)
  unfolding ◌>>=◌
  bind-Ends first rest k l = record {
    at = λ s h. elim (Result-cases (first s).0) [
      | inr (e, failed) ↦
          rw failed
            (record { returns = λ b x. absurd (ground arith); raises = λ r x. (k.at s h).cache })
      | inl (a, returned) ↦ rw returned ((l a).at (first s).1 (k.at s h))
    ];
  }

module _ (o : State) where
  pub lock_accounts-IsWaiting : (ids : List ℕ) → Keeps (IsWaiting o) (lock_accounts ids)
  lock_accounts-IsWaiting ids =
      Keeps-IsWaiting o (lock_accounts ids) (lock_accounts-IsQuiet ids) (lock_accounts-Keeps ids)

  pub publish-IsWaiting : (e : Event) → Keeps (IsWaiting o) (publish e)
  publish-IsWaiting e = Keeps-IsWaiting o (publish e) (publish-IsQuiet e) (publish-Keeps e)

  pub get_account-IsWaiting : (a : ℕ) → Keeps (IsWaiting o) (get_account a)
  unfolding get_account
  get_account-IsWaiting a = search keeps_rules

  pub require_pending-IsWaiting : (i : ℕ) → Keeps (IsWaiting o) (require_pending i)
  unfolding require_pending
  require_pending-IsWaiting i = search keeps_rules

  -- Writing users, accounts or transactions leaves every balance.
  tables-IsWaiting :
      (f : Db → Db)
      → ((d : Db) → (f d).entries ≡ d.entries)
      → ((d : Db) → (f d).snapshots ≡ d.snapshots)
      → Keeps (IsWaiting o) (modify_db f)
  unfolding ◌>>=◌
  tables-IsWaiting f entries snapshots = record {
    at = λ s h. record {
      right = record {
        sound = record {
          exact = rw (entries s.db, snapshots s.db) h.right.sound.exact;
          positive = rw (entries s.db) h.right.sound.positive;
        };
        coherent = record { at = λ a v e. rw (entries s.db) (h.right.coherent.at a v e) };
      };
      cache = h.cache;
      ready = record { queue = h.ready.queue; wired = h.ready.wired };
    };
  }

  users-IsWaiting :
      (f : Db → List User) → Keeps (IsWaiting o) (modify_db (λ d. record d { users = f d }))
  users-IsWaiting f = tables-IsWaiting _ (λ d. refl) (λ d. refl)

  accounts-IsWaiting :
      (f : Db → List Account) → Keeps (IsWaiting o) (modify_db (λ d. record d { accounts = f d }))
  accounts-IsWaiting f = tables-IsWaiting _ (λ d. refl) (λ d. refl)

  pub update_transaction-IsWaiting :
      (i : ℕ) (f : Transaction → Transaction) → Keeps (IsWaiting o) (update_transaction i f)
  unfolding update_transaction
  update_transaction-IsWaiting i f = tables-IsWaiting _ (λ d. refl) (λ d. refl)

  add_user-IsWaiting :
      (username email hash : String) → Keeps (IsWaiting o) (add_user username email hash)
  unfolding add_user
  add_user-IsWaiting username email hash = search (keeps_rules, users-IsWaiting) depth 12

  add_account-IsWaiting :
      (user : ℕ) (currency name : String) (system : Bool)
      → Keeps (IsWaiting o) (add_account user currency name system)
  unfolding add_account
  add_account-IsWaiting user currency name system =
      search (keeps_rules, accounts-IsWaiting) depth 12

  pub platform_clearing-IsWaiting :
      (currency : String) → Keeps (IsWaiting o) (get_or_create_platform_clearing_account currency)
  unfolding get_or_create_platform_clearing_account get_or_create_system_user
      get_or_create_clearing_account
  platform_clearing-IsWaiting currency =
      search (keeps_rules, add_user-IsWaiting, add_account-IsWaiting) depth 20
