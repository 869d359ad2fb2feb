-- ===== src/Ledger/Committed.antt =====
-- The services never commit: the committed tables stay what they are.
use paysika.Prelude.{◌≡◌, String, ℕ, ◌∙◌, List}
use paysika.Store.{State, Db, Action, Transaction, modify_db, ◌>>=◌}
use paysika.Store.Keeps.{Keeps, Untouched, untouched, keeps_rules}
use paysika.Lock.{lock_accounts}
use paysika.Lock.Order.{lock_accounts-Keeps}
use paysika.EventBus.{publish}
use paysika.EventBus.Delivery.{publish-Keeps}
use paysika.Domain.Events.{Event}
use paysika.Ledger.{settle, insert_transaction, insert_row}
use paysika.Prelude.{Option}
use paysika.Ledger.Effects.{settle-Keeps}

abbrev pub HasCommitted : Db → State → Type 0
HasCommitted c s = s.committed ≡ c

pub Untouched-HasCommitted :
    {A : Type 0} (m : Action A) (c : Db)
    → ((o : State) → Keeps (Untouched o) m)
    → Keeps (HasCommitted c) m
Untouched-HasCommitted m c k = record { at = λ s h. ((k s).at s (untouched s)).committed ∙ h }

module _ (c : Db) where
  pub tables-HasCommitted : (f : Db → Db) → Keeps (HasCommitted c) (modify_db f)
  unfolding ◌>>=◌
  tables-HasCommitted f = record { at = λ s h. h }

  pub locks-HasCommitted : (ids : List ℕ) → Keeps (HasCommitted c) (lock_accounts ids)
  locks-HasCommitted ids = Untouched-HasCommitted _ c (lock_accounts-Keeps ids)

  pub publish-HasCommitted : (e : Event) → Keeps (HasCommitted c) (publish e)
  publish-HasCommitted e = Untouched-HasCommitted _ c (publish-Keeps e)

  pub settle-HasCommitted :
      (a b : ℕ) (x : String) (e : Event) (t : Transaction)
      → Keeps (HasCommitted c) (settle a b x e t)
  settle-HasCommitted a b x e t = Untouched-HasCommitted _ c (settle-Keeps a b x e t)

pub ruleset committed_rules = (
  keeps_rules, tables-HasCommitted, locks-HasCommitted, publish-HasCommitted, settle-HasCommitted,
)

-- Inserting a transaction does not commit it.
pub insert-HasCommitted :
    (c : Db) (key : Option String) (row : ℕ → Transaction)
    → Keeps (HasCommitted c) (insert_transaction key row)
unfolding insert_transaction insert_row
insert-HasCommitted c key row = search committed_rules depth 12
