-- ===== src/Queries/Listing.antt =====
-- Which transactions a listing has, and in which order.
use mathlib.Core.List.Perm
use mathlib.Core.List.{Perm, Memᴰ}
use paysika.Prelude.{
  ◌==◌, ◌&&◌, ◌≡◌, true, Bool, refl, ==→≡, ==_refl, IsSelection, select-IsSelection, ℕ, ◌≤◌, inl,
  inr, List, [], ◌∷◌, All, select, ltb, arith, Bool-cases,
}
use paysika.Store.{LedgerEntry, Db, Transaction}
use paysika.Queries.{has_entry, insert_newest, newest_first, account_transactions}

-- No transaction is later than one before it.
abbrev pub IsNewestFirst : List Transaction → Type 0
IsNewestFirst [] = Unit
IsNewestFirst (t ∷ ts) = All (λ u. u.created_at ≤ t.created_at) ts × IsNewestFirst ts

insert_newest-perm : (t : Transaction) (us : List Transaction) → Perm (insert_newest t us) (t ∷ us)
unfolding insert_newest
insert_newest-perm t [] = Perm.rfl
insert_newest-perm t (u ∷ us) = elim (Bool-cases (ltb t.created_at u.created_at)) [
  | inl lt ↦ rw lt (Perm.trans (Perm.cons u (insert_newest-perm t us)) (Perm.swap t u us))
  | inr ge ↦ rw ge Perm.rfl
]

newest_first-perm : (ts : List Transaction) → Perm (newest_first ts) ts
unfolding newest_first
newest_first-perm [] = Perm.nil
newest_first-perm (t ∷ ts) =
    Perm.trans (insert_newest-perm t (newest_first ts)) (Perm.cons t (newest_first-perm ts))

All-insert_newest :
    (n : ℕ) (t : Transaction) (us : List Transaction)
    → t.created_at ≤ n
    → All (λ u. u.created_at ≤ n) us
    → All (λ u. u.created_at ≤ n) (insert_newest t us)
unfolding insert_newest
All-insert_newest n t [] h a = (h, tt)
All-insert_newest n t (u ∷ us) h a = elim (Bool-cases (ltb t.created_at u.created_at)) [
  | inl lt ↦ rw lt (a.0, All-insert_newest n t us h a.1)
  | inr ge ↦ rw ge (h, a)
]

All-le :
    (m n : ℕ) (us : List Transaction)
    → m ≤ n
    → All (λ u. u.created_at ≤ m) us
    → All (λ u. u.created_at ≤ n) us
All-le m n [] h a = tt
All-le m n (u ∷ us) h a = (omega (arith, h, a.0), All-le m n us h a.1)

insert_newest-IsNewestFirst :
    (t : Transaction) (us : List Transaction)
    → IsNewestFirst us
    → IsNewestFirst (insert_newest t us)
unfolding insert_newest
insert_newest-IsNewestFirst t [] h = (tt, tt)
insert_newest-IsNewestFirst t (u ∷ us) h = elim (Bool-cases (ltb t.created_at u.created_at)) [
  | inl lt ↦
      rw lt (
        All-insert_newest u.created_at t us (ground arith) h.0,
        insert_newest-IsNewestFirst t us h.1,
      )
  | inr ge ↦
      let later : u.created_at ≤ t.created_at = ground arith in
      rw ge ((later, All-le u.created_at t.created_at us later h.0), h)
]

newest_first-IsNewestFirst : (ts : List Transaction) → IsNewestFirst (newest_first ts)
unfolding newest_first
newest_first-IsNewestFirst [] = tt
newest_first-IsNewestFirst (t ∷ ts) =
    insert_newest-IsNewestFirst t (newest_first ts) (newest_first-IsNewestFirst ts)

-- The transaction has an entry of the account.
pub record HasEntry (account_id : ℕ) (entries : List LedgerEntry) (t : Transaction) : Type 0 where
  pub entry : LedgerEntry
  pub there : Memᴰ entry entries
  pub account : entry.account_id ≡ account_id
  pub transaction : entry.transaction_id ≡ t.id

later-HasEntry :
    {a : ℕ} {e : LedgerEntry} {es : List LedgerEntry} {t : Transaction}
    → HasEntry a es t
    → HasEntry a (e ∷ es) t
later-HasEntry h = record {
  entry = h.entry;
  there = Memᴰ.tail h.there;
  account = h.account;
  transaction = h.transaction;
}

module _ (account_id : ℕ) where
  abbrev is_of : Transaction → LedgerEntry → Bool
  is_of t e = e.account_id == account_id && e.transaction_id == t.id

  has_entry-HasEntry :
      (es : List LedgerEntry) (t : Transaction)
      → has_entry account_id es t ≡ true
      → HasEntry account_id es t
  has_entry-HasEntry [] t h = cc
  has_entry-HasEntry (e ∷ es) t h = elim (Bool-cases (is_of t e)) [
    | inl own ↦ record {
      entry = e;
      there = Memᴰ.head refl;
      account = ==→≡ e.account_id account_id (ground arith);
      transaction = ==→≡ e.transaction_id t.id (ground arith);
    }
    | inr other ↦ later-HasEntry (has_entry-HasEntry es t (ground (arith, other)))
  ]

  member :
      (es : List LedgerEntry) (t : Transaction) (e : LedgerEntry)
      → is_of t e ≡ true
      → Memᴰ e es
      → has_entry account_id es t ≡ true
  member [] t e own m = elim m [ ]
  member (x ∷ xs) t e own (Memᴰ.head same) =
      let h : is_of t x ≡ true = rw same at own in ground arith
  member (x ∷ xs) t e own (Memᴰ.tail m) = ground (arith, member xs t e own m)

  HasEntry-has_entry :
      (es : List LedgerEntry) (t : Transaction)
      → HasEntry account_id es t
      → has_entry account_id es t ≡ true
  HasEntry-has_entry es t h =
      let own : is_of t h.entry ≡ true =
        rw (h.account, h.transaction) (ground (arith, ==_refl account_id, ==_refl t.id)) in
      member es t h.entry own h.there

-- What a listing of an account is: the transactions of the table that have an entry of the account, in
-- an order in which none is later than one before it.
pub record IsListing (account_id : ℕ) (d : Db) (rows : List Transaction) : Type 0 where
  pub kept : List Transaction
  pub selected : IsSelection (HasEntry account_id d.entries) d.transactions kept
  pub rearranged : Perm rows kept
  pub ordered : IsNewestFirst rows

pub account_transactions-IsListing :
    (account_id : ℕ) (d : Db) → IsListing account_id d (account_transactions account_id d)
unfolding account_transactions
account_transactions-IsListing account_id d =
    let rows = select (has_entry account_id d.entries) d.transactions in
    record {
      kept = rows;
      selected =
          select-IsSelection (has_entry account_id d.entries) (HasEntry account_id d.entries)
            (has_entry-HasEntry account_id d.entries) (HasEntry-has_entry account_id d.entries)
            d.transactions;
      rearranged = newest_first-perm rows;
      ordered = newest_first-IsNewestFirst rows;
    }
