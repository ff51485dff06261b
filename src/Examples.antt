-- ===== src/Examples.antt =====
-- The theorems at concrete inputs.
mod Stream
mod Market
mod Server
mod Exchange
mod Rounds
mod Client
mod System
use qode.Base.{ℕ, ◌+◌, ◌-◌, ◌*◌, ◌/◌, ltb, leb}
use qode.Base.Double.{Arithmetic}

-- Numbers in the place of doubles.
abbrev whole_arithmetic : Arithmetic
whole_arithmetic = record {
  literal = λ n k. n;
  add = λ x y. x + y;
  sub = λ x y. x - y;
  mul = λ x y. x * y;
  div = λ x y. x / y;
  neg = λ x. x;
  less = ltb;
  less_eq = leb;
  sqrt = λ x. x;
  log = λ x. x;
  cos = λ x. x;
  sin = λ x. x;
  round = λ x. x;
  of_nat = λ x. x;
  to_nat = λ x. x;
}
