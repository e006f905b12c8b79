-- ===== src/Floating/Hundredths.antt =====
-- An arithmetic for the tests, in place of `long double`.
use wrk_offloadenginesupport.Prelude.{ℕ, ◌+◌, ◌*◌, ◌/◌, ◌-◌, ◌%◌, ◌∷◌, [], leb}
use wrk_offloadenginesupport.Floating.{LongDouble}

-- Hundredths in place of `long double`; a number prints as two bytes, of its whole part and of the rest.
abbrev pub hundredths : LongDouble
hundredths = record {
  Number = ℕ;
  ratio = λ a b. a * 100 / b;
  plus = λ a b. a + b;
  minus = λ a b. a - b;
  times = λ a b. a * b / 100;
  over = λ a b. a * 100 / b;
  at_least = λ a b. leb b a;
  powl = λ a b. a * a / 100;
  sqrtl = λ a. a;
  round_u64 = λ a. (a + 50) / 100;
  to_u64 = λ a. a / 100;
  print = λ p a. a / 100 ∷ a % 100 ∷ [];
}
