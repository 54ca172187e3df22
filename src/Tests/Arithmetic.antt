-- ===== src/Tests/Arithmetic.antt =====
-- Numbers of thousandths in place of floats: the laws of floats can be met.
use orbit_rtos.Base.{◌+◌, ◌-◌, ◌*◌, ◌/◌, ltb, arith}
use orbit_rtos.Floats.{FloatOps, FloatLaws}

abbrev pub thousandths : FloatOps
thousandths = record {
  literal = λ n. n;
  from_u32 = λ n. 1000 * n;
  plus = λ x y. x + y;
  minus = λ x y. x - y;
  times = λ x y. (x * y) / 1000;
  divided = λ x y. (1000 * x) / y;
  less = ltb;
}

pub thousandths-FloatLaws : FloatLaws thousandths
thousandths-FloatLaws = record {
  less-irrefl = λ x. ground arith;
  less-trans = λ x y z a b. ground arith;
  literal-positive = λ n. ground arith;
  from_u32-positive = λ n. ground arith;
  times-positive = λ x y a b. ground arith;
  plus-up = λ x d low a b. ground arith;
  minus-down = λ x d high a b. ground arith;
  plus-less = λ x y d a. ground arith;
  minus-less = λ x y d a. ground arith;
  half_plus = λ a b x y. omega arith;
  half_minus = λ a b x y. omega arith;
  half_less = λ a b x y. ground arith;
}
