-- ===== src/Sm2/P256/Formulas/Mixed.antt =====
-- `sm2P256PointAddMixed` adds a point in affine coordinates.
use gmsm.Common.{ℕ, ◌+◌, ◌*◌, List, [], ◌∷◌, All}
use gmsm.Sm2.Field.{field_add, field_sub}
use gmsm.Sm2.Field.Product.{field_mul, field_square}
use gmsm.Sm2.Field.Numbers.{Means, minus, IsSafe, Means-add, Means-sub, Means-mul, Means-square}
use gmsm.Sm2.P256.Points.{Jacobian, point_add_mixed}
use gmsm.Sm2.P256.Formulas.{MeansPoint}

-- The factors that `sm2P256PointAddMixed` multiplies, in its order.
unfoldable pub mixed_factors : Jacobian → List ℕ → List ℕ → List (List ℕ × List ℕ)
mixed_factors p x2 y2 =
    let z1z1 = field_square p.z in
    let tmp = field_add p.z p.z in
    let u2 = field_mul x2 z1z1 in
    let z3p = field_mul p.z z1z1 in
    let s2 = field_mul y2 z3p in
    let h = field_sub u2 p.x in
    let hh = field_add h h in
    let i = field_square hh in
    let j = field_mul h i in
    let r1 = field_sub s2 p.y in
    let r = field_add r1 r1 in
    let v = field_mul p.x i in
    let zr = field_mul tmp h in
    let rr = field_square r in
    let d1 = field_sub rr j in
    let d2 = field_sub d1 v in
    let xr = field_sub d2 v in
    let g = field_sub v xr in
    let gr = field_mul g r in
    let yj = field_mul p.y j in
    let e1 = field_sub gr yj in
    let yr = field_sub e1 yj in
    (p.z, p.z)
    ∷ (x2, z1z1)
    ∷ (p.z, z1z1)
    ∷ (y2, z3p)
    ∷ (hh, hh)
    ∷ (h, i)
    ∷ (p.x, i)
    ∷ (tmp, h)
    ∷ (r, r)
    ∷ (g, r)
    ∷ (p.y, j)
    ∷ []

-- The sum of a point in Jacobian coordinates and one in affine coordinates, modulo the prime.
unfoldable pub mixed_numbers : ℕ → ℕ → ℕ → ℕ → ℕ → ℕ × ℕ × ℕ
mixed_numbers x y z v2 w2 =
    let h = minus (v2 * (z * z)) x in
    let i = (h + h) * (h + h) in
    let half = minus (w2 * (z * (z * z))) y in
    let r = half + half in
    let x3 = minus (minus (minus (r * r) (h * i)) (x * i)) (x * i) in
    let y3 = minus (minus (minus (x * i) x3 * r) (y * (h * i))) (y * (h * i)) in
    (x3, y3, (z + z) * h)

-- For points whose coordinates stand for numbers, and where no reduction at an even position lends
-- what it has not, the coordinates that `sm2P256PointAddMixed` makes stand for those of the sum by
-- the formula for a point in Jacobian and one in affine coordinates, modulo the prime.
pub point_add_mixed-mixed_numbers :
    (p : Jacobian) (x2 y2 : List ℕ) (x y z v2 w2 : ℕ)
    → MeansPoint p x y z
    → Means x2 v2
    → Means y2 w2
    → All IsSafe (mixed_factors p x2 y2)
    → MeansPoint
        (point_add_mixed p x2 y2)
        (mixed_numbers x y z v2 w2).0
        (mixed_numbers x y z v2 w2).1
        (mixed_numbers x y z v2 w2).2
unfolding point_add_mixed mixed_factors mixed_numbers
point_add_mixed-mixed_numbers p x2 y2 x y z v2 w2 (hx, hy, hz) hx2 hy2
      (s0, (s1, (s2, (s3, (s4, (s5, (s6, (s7, (s8, (s9, (s10, _))))))))))) =
    let z1z1 = field_square p.z in
    let v_z1z1 = z * z in
    let h_z1z1 = Means-square p.z z hz s0 in
    let tmp = field_add p.z p.z in
    let v_tmp = z + z in
    let h_tmp = Means-add p.z p.z z z hz hz in
    let u2 = field_mul x2 z1z1 in
    let v_u2 = v2 * v_z1z1 in
    let h_u2 = Means-mul x2 z1z1 v2 v_z1z1 hx2 h_z1z1 s1 in
    let z3p = field_mul p.z z1z1 in
    let v_z3p = z * v_z1z1 in
    let h_z3p = Means-mul p.z z1z1 z v_z1z1 hz h_z1z1 s2 in
    let s2 = field_mul y2 z3p in
    let v_s2 = w2 * v_z3p in
    let h_s2 = Means-mul y2 z3p w2 v_z3p hy2 h_z3p s3 in
    let h = field_sub u2 p.x in
    let v_h = minus v_u2 x in
    let h_h = Means-sub u2 p.x v_u2 x h_u2 hx in
    let hh = field_add h h in
    let v_hh = v_h + v_h in
    let h_hh = Means-add h h v_h v_h h_h h_h in
    let i = field_square hh in
    let v_i = v_hh * v_hh in
    let h_i = Means-square hh v_hh h_hh s4 in
    let j = field_mul h i in
    let v_j = v_h * v_i in
    let h_j = Means-mul h i v_h v_i h_h h_i s5 in
    let r1 = field_sub s2 p.y in
    let v_r1 = minus v_s2 y in
    let h_r1 = Means-sub s2 p.y v_s2 y h_s2 hy in
    let r = field_add r1 r1 in
    let v_r = v_r1 + v_r1 in
    let h_r = Means-add r1 r1 v_r1 v_r1 h_r1 h_r1 in
    let v = field_mul p.x i in
    let v_v = x * v_i in
    let h_v = Means-mul p.x i x v_i hx h_i s6 in
    let zr = field_mul tmp h in
    let v_zr = v_tmp * v_h in
    let h_zr = Means-mul tmp h v_tmp v_h h_tmp h_h s7 in
    let rr = field_square r in
    let v_rr = v_r * v_r in
    let h_rr = Means-square r v_r h_r s8 in
    let d1 = field_sub rr j in
    let v_d1 = minus v_rr v_j in
    let h_d1 = Means-sub rr j v_rr v_j h_rr h_j in
    let d2 = field_sub d1 v in
    let v_d2 = minus v_d1 v_v in
    let h_d2 = Means-sub d1 v v_d1 v_v h_d1 h_v in
    let xr = field_sub d2 v in
    let v_xr = minus v_d2 v_v in
    let h_xr = Means-sub d2 v v_d2 v_v h_d2 h_v in
    let g = field_sub v xr in
    let v_g = minus v_v v_xr in
    let h_g = Means-sub v xr v_v v_xr h_v h_xr in
    let gr = field_mul g r in
    let v_gr = v_g * v_r in
    let h_gr = Means-mul g r v_g v_r h_g h_r s9 in
    let yj = field_mul p.y j in
    let v_yj = y * v_j in
    let h_yj = Means-mul p.y j y v_j hy h_j s10 in
    let e1 = field_sub gr yj in
    let v_e1 = minus v_gr v_yj in
    let h_e1 = Means-sub gr yj v_gr v_yj h_gr h_yj in
    let yr = field_sub e1 yj in
    let v_yr = minus v_e1 v_yj in
    let h_yr = Means-sub e1 yj v_e1 v_yj h_e1 h_yj in (h_xr, h_yr, h_zr)
