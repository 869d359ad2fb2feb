-- ===== src/Lock/Quiet.antt =====
-- Locks leave the cached balances alone.
use paysika.Prelude.{ℕ, List, [], ◌∷◌, arith}
use paysika.Store.{State, Lock, take_lock}
use paysika.Store.Keeps.{Keeps, IsQuiet, Keeps-bind, keeps_rules}
use paysika.Lock.{lock_row, lock_rows, lock_accounts, sorted}

pub take_lock-IsQuiet : (l : Lock) (o : State) → Keeps (IsQuiet o) (take_lock l)
unfolding take_lock
take_lock-IsQuiet l o = record { at = λ s h. ground (arith, h.db, h.cache) }

lock_row-IsQuiet : (x : ℕ) (o : State) → Keeps (IsQuiet o) (lock_row x)
unfolding lock_row
lock_row-IsQuiet x o = search (keeps_rules, take_lock-IsQuiet)

lock_rows-IsQuiet : (xs : List ℕ) (o : State) → Keeps (IsQuiet o) (lock_rows xs)
unfolding lock_rows
lock_rows-IsQuiet [] o = search keeps_rules
lock_rows-IsQuiet (x ∷ xs) o = Keeps-bind _ _ (lock_row-IsQuiet _ o) (λ _. lock_rows-IsQuiet xs o)

pub lock_accounts-IsQuiet : (xs : List ℕ) (o : State) → Keeps (IsQuiet o) (lock_accounts xs)
unfolding lock_accounts
lock_accounts-IsQuiet xs o = lock_rows-IsQuiet (sorted xs) o
