-- ===== src/Lock/Order.antt =====
-- The order in which `lock_accounts` takes its locks.
use mathlib.Core.List.{Perm, append_assoc, append-nil}
use mathlib.Core.List.Perm
use paysika.Prelude.{
  Option-cases, select, Bool, ℕ, ◌≤◌, ◌≡◌, refl, List, [], ◌∷◌, ◌++◌, map, arith, leb, All, true,
  Bool-cases, inl, inr,
}
use paysika.Errors.{ok}
use paysika.Accounts.{exists, find_account}
use paysika.Store.Keeps.{Keeps, Untouched, Keeps-bind, keeps_rules}
use paysika.Store.{Db, Lock, take_lock, ◌>>=◌, State, account_row}
use paysika.Lock.{lock_row, insert, sorted, lock_rows, lock_accounts}

-- Ascending: each id is at most every later one.
abbrev pub IsAscending : List ℕ → Type 0
IsAscending [] = Unit
IsAscending (x ∷ xs) = All (λ y. x ≤ y) xs × IsAscending xs

All-insert : (z x : ℕ) (xs : List ℕ) → z ≤ x → All (λ y. z ≤ y) xs → All (λ y. z ≤ y) (insert x xs)
unfolding insert
All-insert z x [] h a = (h, tt)
All-insert z x (y ∷ ys) h a = ground (arith, All-insert z x ys h a.1)

All-trans : (x y : ℕ) (ys : List ℕ) → x ≤ y → All (λ z. y ≤ z) ys → All (λ z. x ≤ z) ys
All-trans x y [] h a = tt
All-trans x y (z ∷ zs) h a = (omega (arith, a.0), All-trans x y zs h a.1)

insert-IsAscending : (x : ℕ) (xs : List ℕ) → IsAscending xs → IsAscending (insert x xs)
unfolding insert
insert-IsAscending x [] h = (tt, tt)
insert-IsAscending x (y ∷ ys) h =
    ground (arith, All-trans x y ys, insert-IsAscending x ys h.1, All-insert y x ys)

sorted-IsAscending : (xs : List ℕ) → IsAscending (sorted xs)
unfolding sorted
sorted-IsAscending [] = tt
sorted-IsAscending (x ∷ xs) = insert-IsAscending x (sorted xs) (sorted-IsAscending xs)

-- What a filter keeps of an ascending list is ascending, and of a rearranged list a rearrangement.
module _ (p : ℕ → Bool) where
  All-select : (x : ℕ) (xs : List ℕ) → All (λ y. x ≤ y) xs → All (λ y. x ≤ y) (select p xs)
  All-select x [] h = tt
  All-select x (y ∷ ys) h = ground (arith, All-select x ys h.1)

  select-IsAscending : (xs : List ℕ) → IsAscending xs → IsAscending (select p xs)
  select-IsAscending [] h = tt
  select-IsAscending (x ∷ xs) h = elim (Bool-cases (p x)) [
    | inl kept ↦ rw kept (All-select x xs h.0, select-IsAscending xs h.1)
    | inr dropped ↦ rw dropped (select-IsAscending xs h.1)
  ]

  insert-select : (x : ℕ) (xs : List ℕ) → Perm (select p (insert x xs)) (select p (x ∷ xs))
  unfolding insert
  insert-select x [] = Perm.refl (select p (x ∷ []))
  insert-select x (y ∷ ys) = elim (Bool-cases (leb x y)) [
    | inl le ↦ rw le (Perm.refl (select p (x ∷ y ∷ ys)))
    | inr gt ↦ rw gt (elim (Bool-cases (p y)) [
      | inr out ↦ rw out (insert-select x ys)
      | inl kept ↦ elim (Bool-cases (p x)) [
        | inl own ↦
            let rest : Perm (select p (insert x ys)) (x ∷ select p ys) =
              rw own at (insert-select x ys) in
            rw (kept, own) (Perm.trans (Perm.cons y rest) (Perm.swap x y (select p ys)))
        | inr other ↦
            let rest : Perm (select p (insert x ys)) (select p ys) =
              rw other at (insert-select x ys) in
            rw (kept, other) (Perm.cons y rest)
      ]
    ])
  ]

  cons-select :
      (x : ℕ) (xs ys : List ℕ)
      → Perm (select p xs) (select p ys)
      → Perm (select p (x ∷ xs)) (select p (x ∷ ys))
  cons-select x xs ys h = elim (Bool-cases (p x)) [
    | inl kept ↦ rw kept (Perm.cons x h)
    | inr out ↦ rw out h
  ]

  sorted-select : (xs : List ℕ) → Perm (select p (sorted xs)) (select p xs)
  unfolding sorted
  sorted-select [] = Perm.refl []
  sorted-select (x ∷ xs) =
      Perm.trans (insert-select x (sorted xs)) (cons-select x (sorted xs) xs (sorted-select xs))

abbrev is_row : Db → ℕ → Bool
is_row d i = exists (find_account i d)

lock_rows_lem :
    (xs : List ℕ) (s : State)
    → s.context.for_update ≡ true
    → lock_rows xs s
      ≡ (ok tt, record s { locks = s.locks ++ map account_row (select (is_row s.db) xs) })
unfolding lock_rows lock_row take_lock ◌>>=◌
lock_rows_lem [] s h = rw append-nil
lock_rows_lem (x ∷ xs) s h = elim (Option-cases (find_account x s.db)) [
  | inl missing ↦ ground (arith, lock_rows_lem xs s)
  | inr (a, found) ↦ ground (
    arith,
    lock_rows_lem xs (record s { locks = s.locks ++ account_row x ∷ [] }),
    append_assoc s.locks (account_row x ∷ []) (map account_row (select (is_row s.db) xs)),
  )
]

-- Where the database supports row locks, `lock_accounts` returns, adds to the locks held one lock
-- for each given id that an account has, in ascending order, and changes nothing else.
pub lock_accounts_lem :
    (ids : List ℕ) (s : State)
    → s.context.for_update ≡ true
    → (order : List ℕ) × IsAscending order
      × Perm order (select (λ i. exists (find_account i s.db)) ids)
      × (lock_accounts ids s ≡ (ok tt, record s { locks = s.locks ++ map account_row order }))
unfolding lock_accounts
lock_accounts_lem ids s h = (
  select (is_row s.db) (sorted ids),
  select-IsAscending (is_row s.db) (sorted ids) (sorted-IsAscending ids),
  sorted-select (is_row s.db) ids,
  lock_rows_lem (sorted ids) s h,
)

take_lock-Keeps : (l : Lock) (o : State) → Keeps (Untouched o) (take_lock l)
unfolding take_lock
take_lock-Keeps l d = record { at = λ s h. ground arith }

lock_row-Keeps : (x : ℕ) (o : State) → Keeps (Untouched o) (lock_row x)
unfolding lock_row
lock_row-Keeps x o = search (keeps_rules, take_lock-Keeps)

lock_rows-Keeps : (xs : List ℕ) (o : State) → Keeps (Untouched o) (lock_rows xs)
unfolding lock_rows
lock_rows-Keeps [] d = search keeps_rules
lock_rows-Keeps (x ∷ xs) d = Keeps-bind _ _ (lock_row-Keeps _ d) (λ _. lock_rows-Keeps xs d)

-- Taking locks leaves the tables alone.
pub lock_accounts-Keeps : (xs : List ℕ) (o : State) → Keeps (Untouched o) (lock_accounts xs)
unfolding lock_accounts
lock_accounts-Keeps xs d = lock_rows-Keeps (sorted xs) d

lock_row-returns : (x : ℕ) (s : State) → (lock_row x s).0 ≡ ok tt
unfolding lock_row take_lock ◌>>=◌
lock_row-returns x s = ground arith

lock_rows-returns : (xs : List ℕ) (s : State) → (lock_rows xs s).0 ≡ ok tt
unfolding lock_rows ◌>>=◌
lock_rows-returns [] s = refl
lock_rows-returns (x ∷ xs) s =
    ground (arith, lock_row-returns x s, lock_rows-returns xs (lock_row x s).1)

pub lock_accounts-returns : (xs : List ℕ) (s : State) → (lock_accounts xs s).0 ≡ ok tt
unfolding lock_accounts
lock_accounts-returns xs s = lock_rows-returns (sorted xs) s
