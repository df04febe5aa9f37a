-- ===== src/Sm2/P256/OnCurve.antt =====
-- `IsOnCurve` of sm2/p256.go tests the equation of the curve.
use gmsm.Common.{ℕ, ◌+◌, ◌*◌, ◌%◌, ◌≡◌, ◌↔◌, List, [], ◌∷◌, true, All}
use gmsm.Sm2.Field.{prime, field_add}
use gmsm.Sm2.Field.Product.{field_mul, field_square}
use gmsm.Sm2.Field.Convert.{from_big}
use gmsm.Sm2.Field.Numbers.{
  Means, IsSafe, Means-from_big, Means-add, Means-mul, Means-square, Means-test,
}
use gmsm.Sm2.P256.Points.{curve_a}
use gmsm.Sm2.P256.Methods.{curve_b, curve_side, is_on_curve}

-- The factors that `IsOnCurve` multiplies.
unfoldable pub side_factors : List ℕ → List (List ℕ × List ℕ)
side_factors x = (x, x) ∷ (field_square x, x) ∷ (curve_a, x) ∷ []

-- The coefficients of the curve's equation.
abbrev pub a_number : ℕ
a_number = 0xfffffffeffffffffffffffffffffffffffffffff00000000fffffffffffffffc

abbrev pub b_number : ℕ
b_number = 0x28e9fa9e9d9f5e344d5a9e4bcf6509a7f39789f515ab8f92ddbcbd414d940e93

pub curve_side-Means :
    (x : List ℕ) (v : ℕ)
    → Means x v
    → All IsSafe (side_factors x)
    → Means (curve_side x) (v * v * v + a_number * v + b_number)
unfolding side_factors curve_side curve_a curve_b
curve_side-Means x v h (s0, (s1, (s2, _))) =
    let square = Means-square x v h s0 in
    let cube = Means-mul (field_square x) x (v * v) v square h s1 in
    let linear = Means-mul curve_a x a_number v (Means-from_big a_number) h s2 in
    Means-add (field_add (field_mul (field_square x) x) (field_mul curve_a x)) curve_b
      (v * v * v + a_number * v) b_number
      (Means-add (field_mul (field_square x) x) (field_mul curve_a x) (v * v * v) (a_number * v)
        cube linear)
      (Means-from_big b_number)

-- Where no reduction at an even position lends what it has not, `IsOnCurve` answers true exactly for
-- the coordinates that satisfy the curve's equation `y ^ 2 = x ^ 3 + a * x + b` modulo the prime.
pub is_on_curve_iff :
    (x y : ℕ)
    → All IsSafe (side_factors (from_big x))
    → IsSafe (from_big y, from_big y)
    → (is_on_curve x y ≡ true) ↔ ((x * x * x + a_number * x + b_number) % prime ≡ y * y % prime)
unfolding is_on_curve
is_on_curve_iff x y safe_x safe_y =
    Means-test (curve_side (from_big x)) (field_square (from_big y))
      (x * x * x + a_number * x + b_number) (y * y)
      (curve_side-Means (from_big x) x (Means-from_big x) safe_x)
      (Means-square (from_big y) y (Means-from_big y) safe_y)
