-- ===== src/Floating.antt =====
-- The `long double` arithmetic that wrk uses, as an interface: a number type and its operations,
-- with no laws. What is proved over it holds whatever the rounding is.
pub mod Hundredths
use wrk_offloadenginesupport.Prelude.{ℕ, Bool, Bytes}

pub record LongDouble : Type 1 where
  pub Number : Type 0
  -- the quotient of two integers: literals, and conversions of `uint64_t` values
  pub ratio : ℕ → ℕ → Number
  pub plus : Number → Number → Number
  pub minus : Number → Number → Number
  pub times : Number → Number → Number
  pub over : Number → Number → Number
  -- `a >= b`
  pub at_least : Number → Number → Bool
  pub powl : Number → Number → Number
  pub sqrtl : Number → Number
  -- `round`, converted to `uint64_t`
  pub round_u64 : Number → ℕ
  -- the conversion to `uint64_t`, which drops the fraction
  pub to_u64 : Number → ℕ
  -- the text of `%.*Lf`
  pub print : ℕ → Number → Bytes
