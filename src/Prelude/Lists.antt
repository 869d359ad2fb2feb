-- ===== src/Prelude/Lists.antt =====
-- Lists and dictionaries with Boolean tests: what a query's filter, order and limit do to rows.
use Prim.Native.Nat.{ℕ, zero, suc, ◌+◌, ◌≤◌}
use Prim.Native.String.{String}
use mathlib.Core.Path.{◌≡◌, refl, ap}
use mathlib.Core.Bool.{true, false, Bool}
use mathlib.Core.List.{List, [], ◌∷◌, ◌++◌}
use mathlib.Core.Option.{Option, none, some}
use native.Mathlib.Omega.{arith}
use native.Mathlib.Numerals.{unary_clauses}
use text.Mathlib.Text.{◌==◌ as str_eq}
use paysika.Prelude.Tests.{if◌then◌else◌, ltb, ◌==◌}

module _ {ℓ} {A : Type ℓ} where
  abbrev pub length : List A → ℕ
  length [] = 0
  length (x ∷ xs) = suc (length xs)

  -- The rows that satisfy a test, in order.
  abbrev pub select : (A → Bool) → List A → List A
  select p [] = []
  select p (x ∷ xs) = if p x then x ∷ select p xs else select p xs

  -- `.first()` of a query with a filter.
  abbrev pub first : (A → Bool) → List A → Option A
  first p [] = none
  first p (x ∷ xs) = if p x then some x else first p xs

  -- The row of the two that has the larger key.
  abbrev pub larger : (A → ℕ) → A → Option A → Option A
  larger key x none = some x
  larger key x (some y) = if ltb (key x) (key y) then some y else some x

  -- `.order_by(key.desc()).first()` of a query with a filter.
  abbrev pub latest : (A → ℕ) → (A → Bool) → List A → Option A
  latest key p [] = none
  latest key p (x ∷ xs) = let rest = latest key p xs in if p x then larger key x rest else rest

  abbrev pub All {κ} : (A → Type κ) → List A → Type κ
  All P [] = Unit
  All P (x ∷ xs) = P x × All P xs

module _ {ℓ} {A : Type ℓ} where
  pub first-satisfies : (p : A → Bool) (xs : List A) (r : A) → first p xs ≡ some r → p r ≡ true
  first-satisfies p [] r e = cc
  first-satisfies p (x ∷ xs) r e = ground (arith, first-satisfies p xs r)

-- A dictionary keyed by numbers, the last write first.
module _ {ℓ} {V : Type ℓ} where
  abbrev pub lookup : ℕ → List (ℕ × V) → Option V
  lookup k [] = none
  lookup k ((j, v) ∷ d) = if k == j then some v else lookup k d

  abbrev pub erase : ℕ → List (ℕ × V) → List (ℕ × V)
  erase k [] = []
  erase k ((j, v) ∷ d) = if k == j then erase k d else (j, v) ∷ erase k d

  pub lookup-erase_self : (k : ℕ) (d : List (ℕ × V)) → lookup k (erase k d) ≡ none
  lookup-erase_self k [] = refl
  lookup-erase_self k ((j, v) ∷ d) = ground (arith, lookup-erase_self k d)

  abbrev pub lookup_text : String → List (String × V) → Option V
  lookup_text k [] = none
  lookup_text k ((j, v) ∷ d) = if str_eq k j then some v else lookup_text k d

module _ {ℓ} {A : Type ℓ} where
  -- `any(p(x) for x in xs)`.
  abbrev pub any : (A → Bool) → List A → Bool
  any p [] = false
  any p (x ∷ xs) = if p x then true else any p xs

  abbrev pub take : ℕ → List A → List A
  take zero xs = []
  take (suc n) [] = []
  take (suc n) (x ∷ xs) = x ∷ take n xs

  abbrev pub drop : ℕ → List A → List A
  drop zero xs = xs
  drop (suc n) [] = []
  drop (suc n) (x ∷ xs) = drop n xs

  pub take-add : (m n : ℕ) (xs : List A) → take (m + n) xs ≡ take m xs ++ take n (drop m xs)
  take-add zero n xs = let e : 0 + n ≡ n = omega arith in rw e refl
  take-add (suc m) zero [] = simp unary_clauses refl
  take-add (suc m) (suc n) [] = simp unary_clauses refl
  take-add (suc m) n (x ∷ xs) =
      let e : suc m + n ≡ suc (m + n) = omega arith in rw e (ap (◌∷◌ x) (take-add m n xs))

  pub take-all : (n : ℕ) (xs : List A) → length xs ≤ n → take n xs ≡ xs
  take-all zero [] h = refl
  take-all (suc n) [] h = refl
  take-all zero (x ∷ xs) h = ground arith
  take-all (suc n) (x ∷ xs) h = cc (take-all n xs (omega (arith, h)))
