-- ===== src/Sm2/P256/Formulas/Doubling.antt =====
-- `sm2P256PointDouble` doubles.
use gmsm.Common.{ℕ, ◌+◌, ◌*◌, ◌≡◌, List, [], ◌∷◌, All, subst, arith}
use gmsm.Sm2.Field.{field_add, field_sub}
use gmsm.Sm2.Field.Product.{field_mul, field_square}
use gmsm.Sm2.Field.Numbers.{
  Means, minus, IsSafe, Means-from_big, Means-add, Means-sub, Means-mul, Means-square,
}
use gmsm.Sm2.P256.Points.{Jacobian, curve_a, factor, scalar, point_double}
use gmsm.Sm2.P256.OnCurve.{a_number}
use gmsm.Sm2.P256.Formulas.{MeansPoint, factor-Means}

-- The same number, written in another way.
pub renamed : (a : List ℕ) (v w : ℕ) → Means a v → v ≡ w → Means a w
renamed a v w h e = subst (λ (t : ℕ). Means a t) e h

-- The factors that `sm2P256PointDouble` multiplies, in its order.
unfoldable pub double_factors : Jacobian → List (List ℕ × List ℕ)
double_factors p =
    let x2 = field_square p.x in
    let y2 = field_square p.y in
    let z2 = field_square p.z in
    let z3p = field_mul z2 p.z in
    let z4 = field_mul z3p p.z in
    let y3p = field_mul y2 p.y in
    let y4p = field_mul y3p p.y in
    let y4 = field_mul y4p (factor 8) in
    let sp = field_mul p.x y2 in
    let s = field_mul sp (factor 4) in
    let m3 = field_mul x2 (factor 3) in
    let az4 = field_mul curve_a z4 in
    let m = field_add m3 az4 in
    let m2 = field_square m in
    let yz = field_add p.y p.z in
    let yz2 = field_square yz in
    let d1 = field_sub yz2 z2 in
    let zr = field_sub d1 y2 in
    let e1 = field_sub m2 s in
    let xr = field_sub e1 s in
    let g = field_sub s xr in
    let gm = field_mul g m in
    let yr = field_sub gm y4 in
    (p.x, p.x)
    ∷ (p.y, p.y)
    ∷ (p.z, p.z)
    ∷ (z2, p.z)
    ∷ (z3p, p.z)
    ∷ (y2, p.y)
    ∷ (y3p, p.y)
    ∷ (y4p, (factor 8))
    ∷ (p.x, y2)
    ∷ (sp, (factor 4))
    ∷ (x2, (factor 3))
    ∷ (curve_a, z4)
    ∷ (m, m)
    ∷ (yz, yz)
    ∷ (g, m)
    ∷ []

-- The double of a point in Jacobian coordinates, modulo the prime.
unfoldable pub double_numbers : ℕ → ℕ → ℕ → ℕ × ℕ × ℕ
double_numbers x y z =
    let m = 3 * x * x + a_number * z * z * z * z in
    let s = 4 * x * y * y in
    let x3 = minus (minus (m * m) s) s in
    let y3 = minus (minus s x3 * m) (8 * y * y * y * y) in
    let z3 = minus (minus ((y + z) * (y + z)) (z * z)) (y * y) in (x3, y3, z3)

-- For a point whose coordinates stand for three numbers, and where no reduction at an even position
-- lends what it has not, the coordinates that `sm2P256PointDouble` makes stand for those of the
-- double by the formula in Jacobian coordinates, modulo the prime.
pub point_double-double_numbers :
    (p : Jacobian) (x y z : ℕ)
    → MeansPoint p x y z
    → All IsSafe (double_factors p)
    → MeansPoint
        (point_double p)
        (double_numbers x y z).0
        (double_numbers x y z).1
        (double_numbers x y z).2
unfolding point_double scalar double_factors double_numbers curve_a
point_double-double_numbers p x y z (hx, hy, hz)
      (
        s0,
        (s1, (s2, (s3, (s4, (s5, (s6, (s7, (s8, (s9, (s10, (s11, (s12, (s13, (s14, _)))))))))))))),
      ) =
    let (_, f3, f4, f8) = factor-Means in
    let x2 = field_square p.x in
    let v_x2 = x * x in
    let h_x2 = Means-square p.x x hx s0 in
    let y2 = field_square p.y in
    let v_y2 = y * y in
    let h_y2 = Means-square p.y y hy s1 in
    let z2 = field_square p.z in
    let v_z2 = z * z in
    let h_z2 = Means-square p.z z hz s2 in
    let z3p = field_mul z2 p.z in
    let v_z3p = v_z2 * z in
    let h_z3p = Means-mul z2 p.z v_z2 z h_z2 hz s3 in
    let z4 = field_mul z3p p.z in
    let v_z4 = v_z3p * z in
    let h_z4 = Means-mul z3p p.z v_z3p z h_z3p hz s4 in
    let y3p = field_mul y2 p.y in
    let v_y3p = v_y2 * y in
    let h_y3p = Means-mul y2 p.y v_y2 y h_y2 hy s5 in
    let y4p = field_mul y3p p.y in
    let v_y4p = v_y3p * y in
    let h_y4p = Means-mul y3p p.y v_y3p y h_y3p hy s6 in
    let y4 = field_mul y4p (factor 8) in
    let v_y4 = 8 * y * y * y * y in
    let h_y4 =
      renamed y4 (v_y4p * 8) v_y4 (Means-mul y4p (factor 8) v_y4p 8 h_y4p f8 s7) (omega arith) in
    let sp = field_mul p.x y2 in
    let v_sp = x * v_y2 in
    let h_sp = Means-mul p.x y2 x v_y2 hx h_y2 s8 in
    let s = field_mul sp (factor 4) in
    let v_s = 4 * x * y * y in
    let h_s = renamed s (v_sp * 4) v_s (Means-mul sp (factor 4) v_sp 4 h_sp f4 s9) (omega arith) in
    let m3 = field_mul x2 (factor 3) in
    let v_m3 = v_x2 * 3 in
    let h_m3 = Means-mul x2 (factor 3) v_x2 3 h_x2 f3 s10 in
    let az4 = field_mul curve_a z4 in
    let v_az4 = a_number * v_z4 in
    let h_az4 = Means-mul curve_a z4 a_number v_z4 (Means-from_big a_number) h_z4 s11 in
    let m = field_add m3 az4 in
    let v_m = 3 * x * x + a_number * z * z * z * z in
    let h_m = renamed m (v_m3 + v_az4) v_m (Means-add m3 az4 v_m3 v_az4 h_m3 h_az4) (omega arith) in
    let m2 = field_square m in
    let v_m2 = v_m * v_m in
    let h_m2 = Means-square m v_m h_m s12 in
    let yz = field_add p.y p.z in
    let v_yz = y + z in
    let h_yz = Means-add p.y p.z y z hy hz in
    let yz2 = field_square yz in
    let v_yz2 = v_yz * v_yz in
    let h_yz2 = Means-square yz v_yz h_yz s13 in
    let d1 = field_sub yz2 z2 in
    let v_d1 = minus v_yz2 v_z2 in
    let h_d1 = Means-sub yz2 z2 v_yz2 v_z2 h_yz2 h_z2 in
    let zr = field_sub d1 y2 in
    let v_zr = minus v_d1 v_y2 in
    let h_zr = Means-sub d1 y2 v_d1 v_y2 h_d1 h_y2 in
    let e1 = field_sub m2 s in
    let v_e1 = minus v_m2 v_s in
    let h_e1 = Means-sub m2 s v_m2 v_s h_m2 h_s in
    let xr = field_sub e1 s in
    let v_xr = minus v_e1 v_s in
    let h_xr = Means-sub e1 s v_e1 v_s h_e1 h_s in
    let g = field_sub s xr in
    let v_g = minus v_s v_xr in
    let h_g = Means-sub s xr v_s v_xr h_s h_xr in
    let gm = field_mul g m in
    let v_gm = v_g * v_m in
    let h_gm = Means-mul g m v_g v_m h_g h_m s14 in
    let yr = field_sub gm y4 in
    let v_yr = minus v_gm v_y4 in
    let h_yr = Means-sub gm y4 v_gm v_y4 h_gm h_y4 in (h_xr, h_yr, h_zr)
