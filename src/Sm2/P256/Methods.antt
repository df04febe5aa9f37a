-- ===== src/Sm2/P256/Methods.antt =====
-- sm2/p256.go: the methods of `sm2P256Curve`. A `big.Int` is a natural number here.
use gmsm.Common.{ℕ, ◌==◌, ◌&&◌, List, Bool, if◌then◌else◌, Option, none, some}
use gmsm.Sm2.Field.{field_add}
use gmsm.Sm2.Field.Product.{field_mul, field_square}
use gmsm.Sm2.Field.Convert.{from_big, to_big}
use gmsm.Sm2.P256.Points.{Jacobian, curve_a, point_double, point_add, to_affine}
use gmsm.Sm2.P256.Scalars.{get_scalar, scalar_base_mult, scalar_mult}

-- `sm2P256.b`
unfoldable pub curve_b : List ℕ
curve_b = from_big 0x28e9fa9e9d9f5e344d5a9e4bcf6509a7f39789f515ab8f92ddbcbd414d940e93

-- `x ^ 3 + a * x + b`
unfoldable pub curve_side : List ℕ → List ℕ
curve_side x =
    let cube = field_mul (field_square x) x in
    field_add (field_add cube (field_mul curve_a x)) curve_b

unfoldable pub is_on_curve : ℕ → ℕ → Bool
is_on_curve x y = to_big (curve_side (from_big x)) == to_big (field_square (from_big y))

unfoldable pub z_for_affine : ℕ → ℕ → ℕ
z_for_affine x y = if (x == 0) && (y == 0) then 0 else 1

unfoldable pub jacobian : ℕ → ℕ → Jacobian
jacobian x y = record { x = from_big x; y = from_big y; z = from_big (z_for_affine x y) }

module _ (mod_inverse : ℕ → ℕ → ℕ) where
  unfoldable pub add : ℕ → ℕ → ℕ → ℕ → ℕ × ℕ
  add x1 y1 x2 y2 = to_affine mod_inverse (point_add (jacobian x1 y1) (jacobian x2 y2)).1

  unfoldable pub double : ℕ → ℕ → ℕ × ℕ
  double x1 y1 = to_affine mod_inverse (point_double (jacobian x1 y1))

  -- None where `sm2P256GetScalar` panics.
  unfoldable pub curve_scalar_mult : ℕ → ℕ → List ℕ → Option (ℕ × ℕ)
  curve_scalar_mult x1 y1 k = elim (get_scalar k) [
    | none ↦ none
    | some reversed_scalar ↦
        some (to_affine mod_inverse (scalar_mult (from_big x1) (from_big y1) reversed_scalar))
  ]

  unfoldable pub curve_scalar_base_mult : List ℕ → Option (ℕ × ℕ)
  curve_scalar_base_mult k = elim (get_scalar k) [
    | none ↦ none
    | some reversed_scalar ↦ some (to_affine mod_inverse (scalar_base_mult reversed_scalar))
  ]
