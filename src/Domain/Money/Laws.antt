-- ===== src/Domain/Money/Laws.antt =====
-- Laws of the Money operations.
use paysika.Prelude.{◌||◌, ◌≡◌, ◌≢◌, false, not, arith}
use paysika.Prelude.Int.{ℤ, ◌+ℤ◌, ◌-ℤ◌, neg, int_laws}
use paysika.Errors.{ok, err, value_error, then_do}
use paysika.Domain.Enums.{same_currency, same_currency_refl, same_currency→≡}
use paysika.Domain.Money.{Money, add, sub, negate, equal, less, less_eq, greater, greater_eq}

+ℤ-sub : (a b : ℤ) → a +ℤ b -ℤ b ≡ a
+ℤ-sub a b = omega int_laws

add-neg : (a b : ℤ) → a +ℤ neg b ≡ a -ℤ b
add-neg a b = omega int_laws

-- Subtracting what was added gives the first amount back, for two amounts of one currency.
pub sub-add : (a b : Money) → a.currency ≡ b.currency → then_do (add a b) (λ c. sub c b) ≡ ok a
unfolding add sub
sub-add a b e = ground (arith, +ℤ-sub a.amount b.amount, same_currency_refl b.currency)

-- Between two currencies addition, subtraction and the four comparisons all raise, and no two amounts
-- are equal.
pub mixed_currencies :
    (a b : Money)
    → a.currency ≢ b.currency
    → (add a b ≡ err value_error)
      × (sub a b ≡ err value_error)
      × (less a b ≡ err value_error)
      × (less_eq a b ≡ err value_error)
      × (greater a b ≡ err value_error)
      × (greater_eq a b ≡ err value_error)
      × (equal a b ≡ false)
unfolding add sub less less_eq greater greater_eq equal
mixed_currencies a b h =
    let differ = same_currency→≡ a.currency b.currency in
    (
      ground (arith, differ),
      ground (arith, differ),
      ground (arith, differ),
      ground (arith, differ),
      ground (arith, differ),
      ground (arith, differ),
      ground (arith, differ),
    )

-- Subtraction is addition of the negated amount, errors included.
pub sub-eq-add-negate : (a b : Money) → then_do (negate b) (λ n. add a n) ≡ sub a b
unfolding add sub negate
sub-eq-add-negate a b = ground (arith, add-neg a.amount b.amount)

module _ (a b : Money) where
  same_sym : same_currency a.currency b.currency ≡ same_currency b.currency a.currency
  same_sym = ground arith

  -- The comparisons agree, errors included: `>` is `<` the other way round, `<=` is the negation of
  -- `>` and `>=` that of `<`, and `<=` is `<` or `==`.
  pub comparisons :
      (greater b a ≡ less a b)
      × (less_eq a b ≡ then_do (greater a b) (λ c. ok (not c)))
      × (greater_eq a b ≡ then_do (less a b) (λ c. ok (not c)))
      × (less_eq a b ≡ then_do (less a b) (λ c. ok (c || equal a b)))
  unfolding less less_eq greater greater_eq equal
  comparisons = (ground (arith, same_sym), ground arith, ground arith, ground (arith, same_sym))
