-- ===== src/Store/Freshness.antt =====
-- A new row's id is above every id of its table.
use paysika.Prelude.{ℕ, ◌<◌, ◌≤◌, List, [], ◌∷◌, All, arith}
use paysika.Store.{next_id}

module _ {A : Type 0} (id : A → ℕ) where
  pub next_id_mono : (x : A) (xs : List A) → next_id id xs ≤ next_id id (x ∷ xs)
  unfolding next_id
  next_id_mono x xs = ground arith

  pub lt-next_id : (x : A) (xs : List A) → id x < next_id id (x ∷ xs)
  unfolding next_id
  lt-next_id x xs = ground arith

  All-weaken : {m n : ℕ} (xs : List A) → m ≤ n → All (λ x. id x < m) xs → All (λ x. id x < n) xs
  All-weaken [] h a = tt
  All-weaken (x ∷ xs) h a = (omega (arith, a.0), All-weaken xs h a.1)

  pub below-next_id : (xs : List A) → All (λ x. id x < next_id id xs) xs
  below-next_id [] = tt
  below-next_id (x ∷ xs) = (lt-next_id x xs, All-weaken xs (next_id_mono x xs) (below-next_id xs))

  pub next_id-pos : (xs : List A) → 0 < next_id id xs
  unfolding next_id
  next_id-pos [] = omega arith
  next_id-pos (x ∷ xs) = ground (arith, next_id-pos xs)
