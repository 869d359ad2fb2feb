-- ===== src/Balance/Sums.antt =====
-- Sums of entries under a filter, and the row that a query for the latest one returns.
use paysika.Prelude.{
  ℕ, ◌<◌, ◌≤◌, ◌≡◌, refl, Bool, true, false, none, some, List, [], ◌∷◌, ◌&&◌, leb, arith, All,
  latest, Option-cases, inl, inr,
}
use paysika.Prelude.Int.{ℤ, pos, ◌+ℤ◌, int_laws}
use paysika.Store.{LedgerEntry}
use paysika.Balance.{sum_where, counts, counts_after}

-- The complement of `counts_after`.
abbrev pub counts_upto : ℕ → ℕ → LedgerEntry → Bool
counts_upto account_id last e = counts account_id e && leb e.id last

+ℤ_assoc : (a b c : ℤ) → a +ℤ b +ℤ c ≡ a +ℤ (b +ℤ c)
+ℤ_assoc a b c = omega int_laws

+ℤ_left_comm : (a b c : ℤ) → a +ℤ (b +ℤ c) ≡ b +ℤ (a +ℤ c)
+ℤ_left_comm a b c = omega int_laws

zero_+ℤ : (a : ℤ) → pos 0 +ℤ a ≡ a
zero_+ℤ a = omega int_laws

-- The entries up to an id and those after it are all the entries.
pub upto-add-after :
    (a last : ℕ) (es : List LedgerEntry)
    → sum_where (counts_upto a last) es +ℤ sum_where (counts_after a last) es
      ≡ sum_where (counts a) es
unfolding sum_where
upto-add-after a last [] = zero_+ℤ (pos 0)
upto-add-after a last (e ∷ es) = ground (
  arith,
  upto-add-after a last es,
  +ℤ_assoc e.amount (sum_where (counts_upto a last) es) (sum_where (counts_after a last) es),
  +ℤ_left_comm (sum_where (counts_upto a last) es) e.amount (sum_where (counts_after a last) es),
)

-- Where all ids are positive, every entry comes after the id 0.
pub sum-after_zero :
    (a : ℕ) (es : List LedgerEntry)
    → All (λ e. 0 < e.id) es
    → pos 0 +ℤ sum_where (counts_after a 0) es ≡ sum_where (counts a) es
unfolding sum_where
sum-after_zero a [] h = zero_+ℤ (pos 0)
sum-after_zero a (e ∷ es) h = ground (
  arith,
  sum-after_zero a es h.1,
  zero_+ℤ (sum_where (counts_after a 0) es),
  zero_+ℤ (e.amount +ℤ sum_where (counts_after a 0) es),
)

-- Where no counted entry is later than an id, the sum up to it is the whole sum.
pub sum-upto_last :
    (a last : ℕ) (es : List LedgerEntry)
    → All (λ e. counts a e ≡ true → e.id ≤ last) es
    → sum_where (counts_upto a last) es ≡ sum_where (counts a) es
unfolding sum_where
sum-upto_last a last [] h = refl
sum-upto_last a last (e ∷ es) h = ground (arith, sum-upto_last a last es h.1)

pub All-map {ℓ κ μ} :
    {A : Type ℓ} {P : A → Type κ} {Q : A → Type μ} (xs : List A)
    → ((x : A) → P x → Q x)
    → All P xs
    → All Q xs
All-map [] f h = tt
All-map (x ∷ xs) f h = (f x h.0, All-map xs f h.1)

module _ {A : Type 0} (key : A → ℕ) (p : A → Bool) where
  -- The latest row satisfies the filter, and what holds of every row.
  pub latest-All :
      (P : A → Type 0) (xs : List A) (m : A)
      → latest key p xs ≡ some m
      → All P xs
      → P m × (p m ≡ true)
  latest-All P [] m e h = cc
  latest-All P (x ∷ xs) m e h = ground (arith, latest-All P xs m)

  latest-none : (xs : List A) → latest key p xs ≡ none → All (λ x. p x ≡ false) xs
  latest-none [] e = tt
  latest-none (x ∷ xs) e = ground (arith, latest-none xs)

  -- No row that satisfies the filter has a larger key.
  pub latest-max :
      (xs : List A) (m : A) → latest key p xs ≡ some m → All (λ x. p x ≡ true → key x ≤ key m) xs
  latest-max [] m e = tt
  latest-max (x ∷ xs) m e = elim (Option-cases (latest key p xs)) [
    | inl n ↦ ((λ t. ground arith), All-map xs (λ y (f : p y ≡ false) t. cc) (latest-none xs n))
    | inr (y, f) ↦ (
      (λ t. ground arith),
      All-map xs (λ z (g : p z ≡ true → key z ≤ key y) t. ground (arith, g t)) (latest-max xs y f),
    )
  ]
