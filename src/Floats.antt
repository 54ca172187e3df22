-- ===== src/Floats.antt =====
-- What src/kernel/scheduler.c and src/kernel/main.c do with C floats, whose operations are the processor's.
-- A float is its 32 bits.
use orbit_rtos.Base.{ℕ, ◌+◌, ◌-◌, ◌*◌, ◌≤◌, ◌<◌, ◌≡◌, Bool, true, false, ltb}

-- `literal n` is the float nearest to n thousandths: the code's constants have three decimals at most.
pub record FloatOps : Type 0 where
  pub literal : (thousandths : ℕ) → ℕ
  pub from_u32 : ℕ → ℕ
  pub plus : ℕ → ℕ → ℕ
  pub minus : ℕ → ℕ → ℕ
  pub times : ℕ → ℕ → ℕ
  pub divided : ℕ → ℕ → ℕ
  pub less : ℕ → ℕ → Bool

abbrev pub halves_bound : ℕ
halves_bound = 1_000_000

-- IEEE 754 arithmetic, with its rounding: `less` is an order, false for what is not a number;
-- adding what is not negative does not go down, and subtracting it not up; both keep the order of their
-- first arguments; and small multiples of 0.5 are exact.
pub record FloatLaws (f : FloatOps) : Type 0 where
  pub less-irrefl : (x : ℕ) → f.less x x ≡ false
  pub less-trans : (x y z : ℕ) → f.less x y ≡ true → f.less y z ≡ true → f.less x z ≡ true
  pub literal-positive : (n : ℕ) → f.less (f.literal n) (f.literal 0) ≡ false
  pub from_u32-positive : (n : ℕ) → f.less (f.from_u32 n) (f.literal 0) ≡ false
  pub times-positive :
      (x y : ℕ)
      → f.less x (f.literal 0) ≡ false
      → f.less y (f.literal 0) ≡ false
      → f.less (f.times x y) (f.literal 0) ≡ false
  pub plus-up :
      (x d low : ℕ)
      → f.less d (f.literal 0) ≡ false
      → f.less x low ≡ false
      → f.less (f.plus x d) low ≡ false
  pub minus-down :
      (x d high : ℕ)
      → f.less d (f.literal 0) ≡ false
      → f.less high x ≡ false
      → f.less high (f.minus x d) ≡ false
  pub plus-less : (x y d : ℕ) → f.less x y ≡ true → f.less (f.plus y d) (f.plus x d) ≡ false
  pub minus-less : (x y d : ℕ) → f.less x y ≡ true → f.less (f.minus y d) (f.minus x d) ≡ false
  pub half_plus :
      (a b : ℕ)
      → a < halves_bound
      → b < halves_bound
      → f.plus (f.literal (500 * a)) (f.literal (500 * b)) ≡ f.literal (500 * (a + b))
  pub half_minus :
      (a b : ℕ)
      → b ≤ a
      → a < halves_bound
      → f.minus (f.literal (500 * a)) (f.literal (500 * b)) ≡ f.literal (500 * (a - b))
  pub half_less :
      (a b : ℕ)
      → a < halves_bound
      → b < halves_bound
      → f.less (f.literal (500 * a)) (f.literal (500 * b)) ≡ ltb a b
