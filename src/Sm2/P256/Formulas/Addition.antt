-- ===== src/Sm2/P256/Formulas/Addition.antt =====
-- `sm2P256PointAdd` adds points that differ.
use gmsm.Common.{
  ℕ, ◌*◌, ◌%◌, ◌≡◌, ◌≢◌, ◌==◌, ◌&&◌, ==_iff, Bool-cases, and_true, inl, inr, refl, sym, ap, ◌∙◌,
  List, [], ◌∷◌, All, subst, arith, Bool, false, Cong, if◌then◌else◌,
}
use gmsm.Sm2.Field.{prime, field_sub}
use gmsm.Sm2.Field.Product.{field_mul, field_square}
use gmsm.Sm2.Field.Convert.{to_big}
use gmsm.Sm2.Field.Numbers.{Means, minus, IsSafe, Means-sub, Means-mul, Means-square, Means-test}
use gmsm.Sm2.P256.Points.{Jacobian, factor, scalar, point_double, add_distinct, point_add}
use gmsm.Sm2.P256.Formulas.{MeansPoint, factor-Means}
use gmsm.Sm2.P256.Formulas.Doubling.{renamed}

-- The factors that the rest of `sm2P256PointAdd` multiplies, from `h` on.
unfoldable pub distinct_factors :
    List ℕ → List ℕ → List ℕ → List ℕ → List ℕ → List ℕ → List (List ℕ × List ℕ)
distinct_factors u1 u2 s1 s2 z1 z2 =
    let h = field_sub u2 u1 in
    let r = field_sub s2 s1 in
    let r2 = field_square r in
    let h2 = field_square h in
    let h3 = field_mul h2 h in
    let d = field_sub r2 h3 in
    let u1h2 = field_mul u1 h2 in
    let tw = field_mul u1h2 (factor 2) in
    let xr = field_sub d tw in
    let tm = field_sub u1h2 xr in
    let rt = field_mul r tm in
    let hs = field_mul h3 s1 in
    let yr = field_sub rt hs in
    let zz = field_mul z1 z2 in
    let zr = field_mul zz h in
    (r, r)
    ∷ (h, h)
    ∷ (h2, h)
    ∷ (u1, h2)
    ∷ (u1h2, (factor 2))
    ∷ (r, tm)
    ∷ (h3, s1)
    ∷ (z1, z2)
    ∷ (zz, h)
    ∷ []

unfoldable pub distinct_numbers : ℕ → ℕ → ℕ → ℕ → ℕ → ℕ → ℕ × ℕ × ℕ
distinct_numbers a1 a2 b1 b2 c1 c2 =
    let h = minus a2 a1 in
    let r = minus b2 b1 in
    let x3 = minus (minus (r * r) (h * h * h)) (2 * a1 * h * h) in
    (x3, minus (r * minus (a1 * h * h) x3) (h * h * h * b1), c1 * c2 * h)

add_distinct-distinct_numbers :
    (u1 u2 s1 s2 z1 z2 : List ℕ) (a1 a2 b1 b2 c1 c2 : ℕ)
    → Means u1 a1
    → Means u2 a2
    → Means s1 b1
    → Means s2 b2
    → Means z1 c1
    → Means z2 c2
    → All IsSafe (distinct_factors u1 u2 s1 s2 z1 z2)
    → MeansPoint
        (add_distinct u1 u2 s1 s2 z1 z2)
        (distinct_numbers a1 a2 b1 b2 c1 c2).0
        (distinct_numbers a1 a2 b1 b2 c1 c2).1
        (distinct_numbers a1 a2 b1 b2 c1 c2).2
unfolding add_distinct scalar distinct_factors distinct_numbers
add_distinct-distinct_numbers u1 u2 s1 s2 z1 z2 a1 a2 b1 b2 c1 c2 hu1 hu2 hs1 hs2 hz1 hz2
      (g0, (g1, (g2, (g3, (g4, (g5, (g6, (g7, (g8, _))))))))) =
    let (f2, _, _, _) = factor-Means in
    let h = field_sub u2 u1 in
    let v_h = minus a2 a1 in
    let h_h = Means-sub u2 u1 a2 a1 hu2 hu1 in
    let r = field_sub s2 s1 in
    let v_r = minus b2 b1 in
    let h_r = Means-sub s2 s1 b2 b1 hs2 hs1 in
    let r2 = field_square r in
    let v_r2 = v_r * v_r in
    let h_r2 = Means-square r v_r h_r g0 in
    let h2 = field_square h in
    let v_h2 = v_h * v_h in
    let h_h2 = Means-square h v_h h_h g1 in
    let h3 = field_mul h2 h in
    let v_h3 = v_h2 * v_h in
    let h_h3 = Means-mul h2 h v_h2 v_h h_h2 h_h g2 in
    let d = field_sub r2 h3 in
    let v_d = minus v_r2 v_h3 in
    let h_d = Means-sub r2 h3 v_r2 v_h3 h_r2 h_h3 in
    let u1h2 = field_mul u1 h2 in
    let v_u1h2 = a1 * v_h * v_h in
    let h_u1h2 =
      renamed u1h2 (a1 * v_h2) v_u1h2 (Means-mul u1 h2 a1 v_h2 hu1 h_h2 g3) (omega arith) in
    let tw = field_mul u1h2 (factor 2) in
    let v_tw = 2 * a1 * v_h * v_h in
    let h_tw =
      renamed tw (v_u1h2 * 2) v_tw (Means-mul u1h2 (factor 2) v_u1h2 2 h_u1h2 f2 g4)
        (omega arith) in
    let xr = field_sub d tw in
    let v_xr = minus v_d v_tw in
    let h_xr = Means-sub d tw v_d v_tw h_d h_tw in
    let tm = field_sub u1h2 xr in
    let v_tm = minus v_u1h2 v_xr in
    let h_tm = Means-sub u1h2 xr v_u1h2 v_xr h_u1h2 h_xr in
    let rt = field_mul r tm in
    let v_rt = v_r * v_tm in
    let h_rt = Means-mul r tm v_r v_tm h_r h_tm g5 in
    let hs = field_mul h3 s1 in
    let v_hs = v_h3 * b1 in
    let h_hs = Means-mul h3 s1 v_h3 b1 h_h3 hs1 g6 in
    let yr = field_sub rt hs in
    let v_yr = minus v_rt v_hs in
    let h_yr = Means-sub rt hs v_rt v_hs h_rt h_hs in
    let zz = field_mul z1 z2 in
    let v_zz = c1 * c2 in
    let h_zz = Means-mul z1 z2 c1 c2 hz1 hz2 g7 in
    let zr = field_mul zz h in
    let v_zr = v_zz * v_h in let h_zr = Means-mul zz h v_zz v_h h_zz h_h g8 in (h_xr, h_yr, h_zr)

-- The factors that `sm2P256PointAdd` multiplies first.
unfoldable pub add_factors : Jacobian → Jacobian → List (List ℕ × List ℕ)
add_factors p q =
    let z12 = field_square p.z in
    let z22 = field_square q.z in
    let z13 = field_mul z12 p.z in
    let z23 = field_mul z22 q.z in
    let u1 = field_mul p.x z22 in
    let u2 = field_mul q.x z12 in
    let s1 = field_mul p.y z23 in
    let s2 = field_mul q.y z13 in
    (p.z, p.z)
    ∷ (q.z, q.z)
    ∷ (z12, p.z)
    ∷ (z22, q.z)
    ∷ (p.x, z22)
    ∷ (q.x, z12)
    ∷ (p.y, z23)
    ∷ (q.y, z13)
    ∷ []

-- The factors of its rest.
unfoldable pub more_factors : Jacobian → Jacobian → List (List ℕ × List ℕ)
more_factors p q =
    let z12 = field_square p.z in
    let z22 = field_square q.z in
    let z13 = field_mul z12 p.z in
    let z23 = field_mul z22 q.z in
    let u1 = field_mul p.x z22 in
    let u2 = field_mul q.x z12 in
    let s1 = field_mul p.y z23 in let s2 = field_mul q.y z13 in distinct_factors u1 u2 s1 s2 p.z q.z

-- The sum of two points in Jacobian coordinates, modulo the prime.
abbrev pub sum_numbers : ℕ → ℕ → ℕ → ℕ → ℕ → ℕ → ℕ × ℕ × ℕ
sum_numbers x y z u v w =
    distinct_numbers (x * w * w) (u * z * z) (y * w * w * w) (v * z * z * z) z w

-- An element that stands for a number which the prime does not divide is not taken for zero.
not_zero : (a : List ℕ) (v : ℕ) → Means a v → v % prime ≢ 0 → (to_big a == 0) ≡ false
not_zero a v (same, _) h = elim (Bool-cases (to_big a == 0)) [
  | inl e ↦ absurd (h (sym same ∙ ap (λ (t : ℕ). t % prime) ((==_iff (to_big a) 0).0 e)))
  | inr e ↦ e
]

not_same :
    (a b c d : List ℕ) (v w x y : ℕ)
    → Means a v
    → Means b w
    → Means c x
    → Means d y
    → ¬ (Cong prime v w × Cong prime x y)
    → ((to_big a == to_big b) && (to_big c == to_big d)) ≡ false
not_same a b c d v w x y ha hb hc hd differ =
    elim (Bool-cases ((to_big a == to_big b) && (to_big c == to_big d))) [
      | inl e ↦
          let (first, second) = and_true (to_big a == to_big b) (to_big c == to_big d) e in
          absurd (differ ((Means-test a b v w ha hb).0 first, (Means-test c d x y hc hd).0 second))
      | inr e ↦ e
    ]

-- What `sm2P256PointAdd` leaves, by its last test.
abbrev pub last_branch :
    Jacobian → Jacobian → List ℕ → List ℕ → List ℕ → List ℕ → Bool → Jacobian × Jacobian
last_branch p q u1 u2 s1 s2 b =
    let p' = if b then point_double p else p in (p', add_distinct u1 u2 s1 s2 p'.z q.z)

-- For two points whose coordinates stand for numbers, the last of either not divisible by the prime,
-- where the points differ, and where no reduction at an even position lends what it has not, the
-- coordinates that `sm2P256PointAdd` makes stand for those of the sum by the formula in Jacobian
-- coordinates, modulo the prime, and the first point stays as it is.
pub point_add-sum_numbers :
    (p q : Jacobian) (x y z u v w : ℕ)
    → MeansPoint p x y z
    → MeansPoint q u v w
    → z % prime ≢ 0
    → w % prime ≢ 0
    → ¬ (Cong prime (x * w * w) (u * z * z) × Cong prime (y * w * w * w) (v * z * z * z))
    → All IsSafe (add_factors p q)
    → All IsSafe (more_factors p q)
    → ((point_add p q).0 ≡ p)
      × MeansPoint
          (point_add p q).1
          (sum_numbers x y z u v w).0
          (sum_numbers x y z u v w).1
          (sum_numbers x y z u v w).2
unfolding point_add add_factors more_factors
point_add-sum_numbers p q x y z u v w (hx, hy, hz) (gx, gy, gz) z_not w_not differ
      (t0, (t1, (t2, (t3, (t4, (t5, (t6, (t7, _)))))))) more =
    let z12 = field_square p.z in
    let v_z12 = z * z in
    let h_z12 = Means-square p.z z hz t0 in
    let z22 = field_square q.z in
    let v_z22 = w * w in
    let h_z22 = Means-square q.z w gz t1 in
    let z13 = field_mul z12 p.z in
    let v_z13 = v_z12 * z in
    let h_z13 = Means-mul z12 p.z v_z12 z h_z12 hz t2 in
    let z23 = field_mul z22 q.z in
    let v_z23 = v_z22 * w in
    let h_z23 = Means-mul z22 q.z v_z22 w h_z22 gz t3 in
    let u1 = field_mul p.x z22 in
    let v_u1 = x * w * w in
    let h_u1 = renamed u1 (x * v_z22) v_u1 (Means-mul p.x z22 x v_z22 hx h_z22 t4) (omega arith) in
    let u2 = field_mul q.x z12 in
    let v_u2 = u * z * z in
    let h_u2 = renamed u2 (u * v_z12) v_u2 (Means-mul q.x z12 u v_z12 gx h_z12 t5) (omega arith) in
    let s1 = field_mul p.y z23 in
    let v_s1 = y * w * w * w in
    let h_s1 = renamed s1 (y * v_z23) v_s1 (Means-mul p.y z23 y v_z23 hy h_z23 t6) (omega arith) in
    let s2 = field_mul q.y z13 in
    let v_s2 = v * z * z * z in
    let h_s2 = renamed s2 (v * v_z13) v_s2 (Means-mul q.y z13 v v_z13 gy h_z13 t7) (omega arith) in
    let sum =
      add_distinct-distinct_numbers u1 u2 s1 s2 p.z q.z v_u1 v_u2 v_s1 v_s2 z w h_u1 h_u2 h_s1 h_s2
        hz gz more in
    let branch = last_branch p q u1 u2 s1 s2 in
    let test = (to_big u1 == to_big u2) && (to_big s1 == to_big s2) in
    let taken : point_add p q ≡ branch false =
      ap (λ (b : Bool). if b then (p, q) else (if to_big q.z == 0 then (p, p) else branch test))
        (not_zero p.z z hz z_not)
      ∙ ap (λ (b : Bool). if b then (p, p) else branch test) (not_zero q.z w gz w_not)
      ∙ ap branch (not_same u1 u2 s1 s2 v_u1 v_u2 v_s1 v_s2 h_u1 h_u2 h_s1 h_s2 differ) in
    let (x3, y3, z3) = sum_numbers x y z u v w in
    subst (λ (r : Jacobian × Jacobian). (r.0 ≡ p) × MeansPoint r.1 x3 y3 z3) (sym taken) (refl, sum)
