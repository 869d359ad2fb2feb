-- ===== src/Prelude/Selections.antt =====
-- What the rows are that a query keeps of a table.
use native.Mathlib.Omega.{arith}
use Prim.Native.Nat.{◌≤◌}
use mathlib.Core.Path.{◌≡◌}
use mathlib.Core.Bool.{true, Bool}
use mathlib.Core.Logic.{inl, inr}
use mathlib.Core.List.{List, [], ◌∷◌, Memᴰ}
use paysika.Prelude.Tests.{Bool-cases}
use paysika.Prelude.Lists.{length, All, select}

-- Rows of a table that have a property, all that have it, and none more often than the table has it.
pub record IsSelection {A : Type 0} (P : A → Type 0) (all xs : List A) : Type 0 where
  pub every : All P xs
  pub drawn : (x : A) → Memᴰ x xs → Memᴰ x all
  pub complete : (x : A) → P x → Memᴰ x all → Memᴰ x xs
  pub often : (q : A → Bool) → length (select q xs) ≤ length (select q all)

module _ {A : Type 0} (p : A → Bool) where
  select-drawn : (x : A) (xs : List A) → Memᴰ x (select p xs) → Memᴰ x xs
  select-drawn x [] m = m
  select-drawn x (y ∷ ys) m = elim (Bool-cases (p y)) [
    | inr out ↦ Memᴰ.tail (select-drawn x ys (rw out at m))
    | inl kept ↦
        let m' : Memᴰ x (y ∷ select p ys) = rw kept at m in
        elim m' [ Memᴰ.head e ↦ Memᴰ.head e | Memᴰ.tail rest ↦ Memᴰ.tail (select-drawn x ys rest) ]
  ]

  select-complete : (x : A) (xs : List A) → p x ≡ true → Memᴰ x xs → Memᴰ x (select p xs)
  select-complete x [] h m = elim m [ ]
  select-complete x (y ∷ ys) h (Memᴰ.head e) =
      let kept : p y ≡ true = rw e at h in rw kept (Memᴰ.head e)
  select-complete x (y ∷ ys) h (Memᴰ.tail m) = elim (Bool-cases (p y)) [
    | inr out ↦ rw out (select-complete x ys h m)
    | inl kept ↦ rw kept (Memᴰ.tail (select-complete x ys h m))
  ]

  select-often :
      (q : A → Bool) (xs : List A) → length (select q (select p xs)) ≤ length (select q xs)
  select-often q [] = omega arith
  select-often q (x ∷ xs) = ground (arith, select-often q xs)

  module _ (P : A → Type 0) (sound : (x : A) → p x ≡ true → P x) where
    select-All : (xs : List A) → All P (select p xs)
    select-All [] = tt
    select-All (x ∷ xs) = elim (Bool-cases (p x)) [
      | inl kept ↦ rw kept (sound x kept, select-All xs)
      | inr out ↦ rw out (select-All xs)
    ]

    pub select-IsSelection :
        ((x : A) → P x → p x ≡ true) → (xs : List A) → IsSelection P xs (select p xs)
    select-IsSelection tested xs = record {
      every = select-All xs;
      drawn = λ x. select-drawn x xs;
      complete = λ x h m. select-complete x xs (tested x h) m;
      often = λ q. select-often q xs;
    }
