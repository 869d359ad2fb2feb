-- ===== src/Exchange/Rounding.antt =====
-- The rounding of an exchanged amount.
use native.Mathlib.Omega.{div_any}
use native.Mathlib.Nat.{mod-lt}
use paysika.Prelude.{zero, suc, ◌^◌, inr, inl, ◌⊎◌, ℕ, ◌≤◌, ◌<◌, ◌+◌, ◌*◌, ◌/◌, ◌%◌, ◌≡◌, arith}
use paysika.Exchange.{half_even, exchanged}
use paysika.Prelude.Int.{pos, ◌*ℤ◌}

mul_next : (d q : ℕ) → d * (q + 1) ≡ d * q + d
mul_next d q = grind arith

-- Rounding a quotient gives a nearest whole number: the result, times the divisor, which is not
-- zero, is at most half a divisor away from the number divided.
half_even-nearest :
    (n d : ℕ)
    → 0 < d
    → (2 * (d * half_even n d) ≤ 2 * n + d) × (2 * n ≤ 2 * (d * half_even n d) + d)
unfolding half_even
half_even-nearest n d h =
    let whole = div_any n d in
    let part = mod-lt n h in let next = mul_next d (n / d) in (ground arith, ground arith)

next_even : (q : ℕ) → (q % 2 ≡ 0) ⊎ ((q + 1) % 2 ≡ 0)
next_even q = omega arith

-- Where the remainder is half the divisor, the quotient is rounded to an even number.
half_even_tie : (n d : ℕ) → 2 * (n % d) ≡ d → half_even n d % 2 ≡ 0
unfolding half_even
half_even_tie n d tie = elim (next_even (n / d)) [
  | inl even ↦ ground arith
  | inr odd ↦ ground arith
]

tie_half :
    (n d : ℕ)
    → 0 < d
    → (2 * n ≡ 2 * (d * half_even n d) + d) ⊎ (2 * (d * half_even n d) ≡ 2 * n + d)
    → 2 * (n % d) ≡ d
unfolding half_even
tie_half n d h tie =
    let whole = div_any n d in
    let part = mod-lt n h in let next = mul_next d (n / d) in ground arith

power-pos : (k : ℕ) → 0 < 10 ^ k
power-pos zero = ground arith
power-pos (suc k) = omega (arith, power-pos k)

-- For an amount and a rate that are not negative, in ten-thousandths and at the rate's scale, the
-- exchanged amount is not negative and differs from the product by at most half of a ten-thousandth;
-- and where two amounts are equally near, it is the even one.
pub exchanged-nearest :
    (n k places : ℕ)
    → let scale = 10 ^ places in
      (m : ℕ) × (exchanged (pos n) (record { coefficient = pos k; places = places }) ≡ pos m)
      × (2 * (scale * m) ≤ 2 * (n * k) + scale)
      × (2 * (n * k) ≤ 2 * (scale * m) + scale)
      × (((2 * (n * k) ≡ 2 * (scale * m) + scale) ⊎ (2 * (scale * m) ≡ 2 * (n * k) + scale))
          → m % 2 ≡ 0)
unfolding exchanged ◌*ℤ◌
exchanged-nearest n k places =
    let near = half_even-nearest (n * k) (10 ^ places) (power-pos places) in
    (
      half_even (n * k) (10 ^ places),
      ground arith,
      near.0,
      near.1,
      λ tie.
          half_even_tie (n * k) (10 ^ places)
            (tie_half (n * k) (10 ^ places) (power-pos places) tie),
    )
