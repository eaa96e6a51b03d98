-- ===== src/Strategy/Floats.antt =====
-- The floats that the strategies of app/domain/strategies compute with, which are not negative.
use devflowfix.Base.{ℕ, zero, ◌+◌, ◌*◌, ◌≤◌, ◌<◌, ◌≡◌, List, [], ◌∷◌, length}
use devflowfix.Core.Enums.{Decimals}

-- Numbers that are at most the decimals of four digits beside them, and those decimals together.
pub data AreAtMost (fl : Decimals) : List ℕ → List ℕ → Type 0 where
  no_more : AreAtMost fl [] []
  one_more :
      {x d : ℕ}
      → {xs ds : List ℕ} → x ≤ fl.dec d 10000
      → AreAtMost fl xs ds
      → AreAtMost fl (x ∷ xs) (d ∷ ds)

abbrev pub digits : List ℕ → ℕ
digits [] = zero
digits (d ∷ ds) = d + digits ds

-- `sum` is Python's, `div` divides by a whole number. A decimal of two digits is the same float with
-- four. A result that should stay below a decimal of four digits stays below it after rounding: the
-- products and the sums of such decimals, of a hundred at most, differ from it by 10^-8 at least,
-- and are at most 4.
pub record Floats (fl : Decimals) : Type 0 where
  pub add : ℕ → ℕ → ℕ
  pub mul : ℕ → ℕ → ℕ
  pub div : ℕ → ℕ → ℕ
  pub sum : List ℕ → ℕ
  pub dec_digits : (n : ℕ) → fl.dec n 100 ≡ fl.dec (n * 100) 10000
  pub dec_order : (n m : ℕ) → n ≤ m → fl.dec n 10000 ≤ fl.dec m 10000
  pub mul_below :
      (x y a b c : ℕ)
      → x ≤ fl.dec a 10000
      → y ≤ fl.dec b 10000
      → a ≤ 20000
      → b ≤ 20000
      → a * b < c * 10000
      → mul x y < fl.dec c 10000
  pub mul_shrinks : (x y : ℕ) → y ≤ fl.dec 100 100 → mul x y ≤ x
  pub sum_below :
      (xs ds : List ℕ) (c : ℕ)
      → AreAtMost fl xs ds
      → digits ds < c
      → c ≤ 40000
      → length xs ≤ 100
      → sum xs < fl.dec c 10000
