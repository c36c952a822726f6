-- ===== src/Tests/FixedPoint.antt =====
-- Fixed-point numbers of four decimals, as numbers for the fee arithmetic of shared/steam-fees.ts.
use native.Mathlib.Nat.{mul-le-mul_right}
use csboard_extension.Prelude.{ℕ, ◌*◌, ◌/◌, ◌-◌, ◌+◌, ◌≤◌, max, ltb, arith}
use csboard_extension.Market.Floats.{Floats}

abbrev one : ℕ
one = 10000

pub floor_mono : (x y : ℕ) → x ≤ y → x / one ≤ y / one
floor_mono x y h = omega (arith, h)

pub mul_mono : (x y p : ℕ) → x ≤ y → x * p / one ≤ y * p / one
mul_mono x y p h = floor_mono (x * p) (y * p) (mul-le-mul_right p h)

unfoldable pub fixed_point : Floats
fixed_point = record {
  Float = ℕ;
  of_ℕ = λ n. n * one;
  add = λ x y. x + y;
  sub = λ x y. x - y;
  mul = λ x p. x * p / one;
  div = λ x y. x * one / y;
  larger = λ x y. max x y;
  floor = λ x. x / one;
  is_positive = λ x. ltb 0 x;
  Le = λ x y. x ≤ y;
  of_ℕ-Le = λ m n h. omega (arith, h);
  mul-Le = λ x y p _ h. mul_mono x y p h;
  larger-Le = λ x y z h. omega (arith, h);
  add-Le = λ x y z h. omega (arith, h);
  floor-le = floor_mono;
}
