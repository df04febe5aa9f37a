-- ===== src/Sm2/P256/Points.antt =====
-- sm2/p256.go: `sm2P256Scalar`, the doubling and the additions of points.
use gmsm.Common.{ℕ, ◌==◌, ◌&&◌, List, [], get_or, if◌then◌else◌}
use gmsm.Sm2.Field.{field_add, field_sub}
use gmsm.Sm2.Field.Product.{field_mul, field_square}
use gmsm.Sm2.Field.Convert.{from_big, to_big, dup}
use gmsm.Sm2.P256.Table.{sm2_p256_factor}

-- The coordinates in Jacobian form.
pub record Jacobian : Type 0 where
  pub x : List ℕ
  pub y : List ℕ
  pub z : List ℕ

-- `sm2P256.a`
unfoldable pub curve_a : List ℕ
curve_a = from_big 0xfffffffeffffffffffffffffffffffffffffffff00000000fffffffffffffffc

unfoldable pub factor : ℕ → List ℕ
unfolding sm2_p256_factor
factor a = get_or sm2_p256_factor a []

unfoldable pub scalar : List ℕ → ℕ → List ℕ
scalar b a = field_mul b (factor a)

unfoldable pub point_double : Jacobian → Jacobian
point_double p =
    let x2 = field_square p.x in
    let y2 = field_square p.y in
    let z2 = field_square p.z in
    let z4 = field_mul (field_mul (field_square p.z) p.z) p.z in
    let y4 = scalar (field_mul (field_mul (field_square p.y) p.y) p.y) 8 in
    let s = scalar (field_mul p.x y2) 4 in
    let az4 = field_mul curve_a z4 in
    let m = field_add (scalar (dup x2) 3) az4 in
    let m2 = field_square m in
    let z3 = field_sub (field_sub (field_square (field_add p.y p.z)) z2) y2 in
    let x3 = field_sub (field_sub m2 s) s in
    let y3 = field_sub (field_mul (field_sub s x3) m) y4 in record { x = x3; y = y3; z = z3 }

-- The rest of `sm2P256PointAdd`, from `h` on, where `z1` and `z2` are the last coordinates.
unfoldable pub add_distinct : List ℕ → List ℕ → List ℕ → List ℕ → List ℕ → List ℕ → Jacobian
add_distinct u1 u2 s1 s2 z1 z2 =
    let h = field_sub u2 u1 in
    let r = field_sub s2 s1 in
    let r2 = field_square r in
    let h2 = field_square h in
    let h3 = field_mul h2 h in
    let x3 = field_sub (field_sub r2 h3) (scalar (field_mul u1 h2) 2) in
    let tm = field_sub (field_mul u1 h2) x3 in
    let y3 = field_sub (field_mul r tm) (field_mul (field_mul h2 h) s1) in
    let z3 = field_mul (field_mul z1 z2) h in record { x = x3; y = y3; z = z3 }

-- The first point, which is doubled in its place where both are the same, and the sum.
unfoldable pub point_add : Jacobian → Jacobian → Jacobian × Jacobian
point_add p q =
    if to_big p.z == 0
    then (p, record { x = dup q.x; y = dup q.y; z = dup q.z })
    else if to_big q.z == 0
    then (p, record { x = dup p.x; y = dup p.y; z = dup p.z })
    else let z12 = field_square p.z in
      let z22 = field_square q.z in
      let z13 = field_mul z12 p.z in
      let z23 = field_mul z22 q.z in
      let u1 = field_mul p.x z22 in
      let u2 = field_mul q.x z12 in
      let s1 = field_mul p.y z23 in
      let s2 = field_mul q.y z13 in
      let p' = if (to_big u1 == to_big u2) && (to_big s1 == to_big s2) then point_double p else p in
      (p', add_distinct u1 u2 s1 s2 p'.z q.z)

-- The second point has affine coordinates.
unfoldable pub point_add_mixed : Jacobian → List ℕ → List ℕ → Jacobian
point_add_mixed p x2 y2 =
    let z1z1 = field_square p.z in
    let tmp = field_add p.z p.z in
    let u2 = field_mul x2 z1z1 in
    let z1z1z1 = field_mul p.z z1z1 in
    let s2 = field_mul y2 z1z1z1 in
    let h = field_sub u2 p.x in
    let i = field_square (field_add h h) in
    let j = field_mul h i in
    let r' = field_sub s2 p.y in
    let r = field_add r' r' in
    let v = field_mul p.x i in
    let z_out = field_mul tmp h in
    let rr = field_square r in
    let x_out = field_sub (field_sub (field_sub rr j) v) v in
    let y1j = field_mul p.y j in
    let y_out = field_sub (field_sub (field_mul (field_sub v x_out) r) y1j) y1j in
    record { x = x_out; y = y_out; z = z_out }

-- `ModInverse` of `big.Int`, of a number and a modulus.
module _ (mod_inverse : ℕ → ℕ → ℕ) where
  unfoldable pub point_to_affine : Jacobian → List ℕ × List ℕ
  point_to_affine p =
      let z_inv = from_big (
        mod_inverse (to_big p.z)
          0xfffffffeffffffffffffffffffffffffffffffff00000000ffffffffffffffff) in
      let z_inv_sq = field_square z_inv in
      (field_mul p.x z_inv_sq, field_mul p.y (field_mul z_inv z_inv_sq))

  unfoldable pub to_affine : Jacobian → ℕ × ℕ
  to_affine p = let (xx, yy) = point_to_affine p in (to_big xx, to_big yy)
