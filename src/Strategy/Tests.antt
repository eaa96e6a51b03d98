-- ===== src/Strategy/Tests.antt =====
-- Floats of four decimal places, for app/domain/strategies.
use devflowfix.Base.{ℕ, zero, suc, ◌+◌, ◌*◌, ◌/◌, ◌≤◌, List, [], ◌∷◌, arith}
use devflowfix.Core.Tests.{ten_thousandths}
use devflowfix.Strategy.Floats.{Floats, AreAtMost, no_more, one_more, digits}

pub mul_mono : (x y n : ℕ) → x ≤ y → x * n ≤ y * n
mul_mono x y zero h = omega arith
mul_mono x y (suc n) h = let rest = mul_mono x y n h in omega arith

abbrev pub quotient : ℕ → ℕ → ℕ
quotient x zero = 0
quotient x (suc n) = x / suc n

pub sum_low : (xs ds : List ℕ) → AreAtMost ten_thousandths xs ds → digits xs ≤ digits ds
sum_low [] [] no_more = omega arith
sum_low [] (d ∷ ds) h = elim h [ ]
sum_low (x ∷ xs) [] h = elim h [ ]
sum_low (x ∷ xs) (d ∷ ds) (one_more h rest) = let on = sum_low xs ds rest in omega arith

abbrev pub rounded_products : Floats ten_thousandths
rounded_products = record {
  add = λ x y. x + y;
  mul = λ x y. x * y / 10000;
  div = quotient;
  sum = digits;
  dec_digits = λ n. omega arith;
  dec_order = λ n m h. omega arith;
  mul_below = λ x y a b c h k l m lt.
      let p = mul_mono x a y (omega arith) in let q = mul_mono y b a (omega arith) in omega arith;
  mul_shrinks = λ x y h. let m = mul_mono y 10000 x (omega arith) in omega arith;
  sum_below = λ xs ds c h lt le n. let low = sum_low xs ds h in omega arith;
}
