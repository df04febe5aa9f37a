-- ===== src/Sm2/P256/Entries.antt =====
-- The points that sm2/p256.go computes have coordinates of nine words.
use gmsm.Common.{ℕ, ◌≡◌, refl, List, length, Bool, true, false, if◌then◌else◌, ◌==◌, ◌&&◌, arith}
use gmsm.Sm2.Field.{field_add, field_sub}
use gmsm.Sm2.Field.Product.{field_mul, field_square}
use gmsm.Sm2.Field.Convert.{to_big}
use gmsm.Sm2.Field.Arrays.{
  IsArray, field_mul-IsArray, field_square-IsArray, field_add-IsArray, field_sub-IsArray,
}
use gmsm.Sm2.Field.Convert.Value.{from_big-IsElement}
use gmsm.Sm2.P256.Table.{sm2_p256_factor}
use gmsm.Sm2.P256.Points.{
  Jacobian, curve_a, factor, scalar, point_double, add_distinct, point_add, point_add_mixed,
}
use gmsm.Sm2.P256.Select.Lookup.{IsEntry}

abbrev IsNine : List ℕ → Type 0
IsNine a = length a ≡ 9

mul-IsNine : (a b : List ℕ) → IsNine a → IsNine b → IsNine (field_mul a b)
mul-IsNine a b ha hb = (field_mul-IsArray a b ha hb).0

square-IsNine : (a : List ℕ) → IsNine a → IsNine (field_square a)
square-IsNine a ha = (field_square-IsArray a ha).0

add-IsNine : (a b : List ℕ) → IsNine a → IsNine b → IsNine (field_add a b)
add-IsNine a b ha hb = (field_add-IsArray a b ha hb).0

sub-IsNine : (a b : List ℕ) → IsNine a → IsNine b → IsNine (field_sub a b)
sub-IsNine a b ha hb = (field_sub-IsArray a b ha hb).0

pub factor-one : IsArray (factor 1)
unfolding factor sm2_p256_factor
factor-one = omega arith

pub point_double-IsEntry : (p : Jacobian) → IsEntry p → IsEntry (point_double p)
unfolding point_double scalar factor sm2_p256_factor curve_a
point_double-IsEntry p (hx, hy, hz) =
    let x2 = field_square p.x in
    let n_x2 = square-IsNine p.x hx.0 in
    let y2 = field_square p.y in
    let n_y2 = square-IsNine p.y hy.0 in
    let z2 = field_square p.z in
    let n_z2 = square-IsNine p.z hz.0 in
    let z4 = field_mul (field_mul z2 p.z) p.z in
    let n_z4 = mul-IsNine (field_mul z2 p.z) p.z (mul-IsNine z2 p.z n_z2 hz.0) hz.0 in
    let y4' = field_mul (field_mul y2 p.y) p.y in
    let n_y4' = mul-IsNine (field_mul y2 p.y) p.y (mul-IsNine y2 p.y n_y2 hy.0) hy.0 in
    let y4 = scalar y4' 8 in
    let n_y4 = mul-IsNine y4' (factor 8) n_y4' refl in
    let s' = field_mul p.x y2 in
    let s = scalar s' 4 in
    let n_s = mul-IsNine s' (factor 4) (mul-IsNine p.x y2 hx.0 n_y2) refl in
    let az4 = field_mul curve_a z4 in
    let n_az4 = mul-IsNine curve_a z4 (from_big-IsElement _).0 n_z4 in
    let m = field_add (scalar x2 3) az4 in
    let n_m = add-IsNine (scalar x2 3) az4 (mul-IsNine x2 (factor 3) n_x2 refl) n_az4 in
    let m2 = field_square m in
    let n_m2 = square-IsNine m n_m in
    let yz = field_square (field_add p.y p.z) in
    let n_yz = square-IsNine (field_add p.y p.z) (add-IsNine p.y p.z hy.0 hz.0) in
    let x3 = field_sub (field_sub m2 s) s in
    let n_x3 = sub-IsNine (field_sub m2 s) s (sub-IsNine m2 s n_m2 n_s) n_s in
    let t = field_mul (field_sub s x3) m in
    let n_t = mul-IsNine (field_sub s x3) m (sub-IsNine s x3 n_s n_x3) n_m in
    (
      field_sub-IsArray (field_sub m2 s) s (sub-IsNine m2 s n_m2 n_s) n_s,
      field_sub-IsArray t y4 n_t n_y4,
      field_sub-IsArray (field_sub yz z2) y2 (sub-IsNine yz z2 n_yz n_z2) n_y2,
    )

pub point_add_mixed-IsEntry :
    (p : Jacobian) (x2 y2 : List ℕ)
    → IsEntry p
    → IsArray x2
    → IsArray y2
    → IsEntry (point_add_mixed p x2 y2)
unfolding point_add_mixed
point_add_mixed-IsEntry p x2 y2 (hx, hy, hz) h2 g2 =
    let z1z1 = field_square p.z in
    let n_z1z1 = square-IsNine p.z hz.0 in
    let tmp = field_add p.z p.z in
    let u2 = field_mul x2 z1z1 in
    let z1z1z1 = field_mul p.z z1z1 in
    let s2 = field_mul y2 z1z1z1 in
    let n_s2 = mul-IsNine y2 z1z1z1 g2.0 (mul-IsNine p.z z1z1 hz.0 n_z1z1) in
    let h = field_sub u2 p.x in
    let n_h = sub-IsNine u2 p.x (mul-IsNine x2 z1z1 h2.0 n_z1z1) hx.0 in
    let i = field_square (field_add h h) in
    let n_i = square-IsNine (field_add h h) (add-IsNine h h n_h n_h) in
    let j = field_mul h i in
    let n_j = mul-IsNine h i n_h n_i in
    let r' = field_sub s2 p.y in
    let n_r' = sub-IsNine s2 p.y n_s2 hy.0 in
    let r = field_add r' r' in
    let n_r = add-IsNine r' r' n_r' n_r' in
    let v = field_mul p.x i in
    let n_v = mul-IsNine p.x i hx.0 n_i in
    let rr = field_square r in
    let d1 = field_sub rr j in
    let n_d1 = sub-IsNine rr j (square-IsNine r n_r) n_j in
    let d2 = field_sub d1 v in
    let n_d2 = sub-IsNine d1 v n_d1 n_v in
    let x_out = field_sub d2 v in
    let n_x = sub-IsNine d2 v n_d2 n_v in
    let y1j = field_mul p.y j in
    let n_y1j = mul-IsNine p.y j hy.0 n_j in
    let e = field_mul (field_sub v x_out) r in
    let n_e = mul-IsNine (field_sub v x_out) r (sub-IsNine v x_out n_v n_x) n_r in
    (
      field_sub-IsArray d2 v n_d2 n_v,
      field_sub-IsArray (field_sub e y1j) y1j (sub-IsNine e y1j n_e n_y1j) n_y1j,
      field_mul-IsArray tmp h (add-IsNine p.z p.z hz.0 hz.0) n_h,
    )

add_distinct-IsEntry :
    (u1 u2 s1 s2 z1 z2 : List ℕ)
    → IsNine u1
    → IsNine u2
    → IsNine s1
    → IsNine s2
    → IsNine z1
    → IsNine z2
    → IsEntry (add_distinct u1 u2 s1 s2 z1 z2)
unfolding add_distinct scalar factor sm2_p256_factor
add_distinct-IsEntry u1 u2 s1 s2 z1 z2 n_u1 n_u2 n_s1 n_s2 n_z1 n_z2 =
    let h = field_sub u2 u1 in
    let n_h = sub-IsNine u2 u1 n_u2 n_u1 in
    let r = field_sub s2 s1 in
    let n_r = sub-IsNine s2 s1 n_s2 n_s1 in
    let r2 = field_square r in
    let h2 = field_square h in
    let n_h2 = square-IsNine h n_h in
    let h3 = field_mul h2 h in
    let n_h3 = mul-IsNine h2 h n_h2 n_h in
    let u1h2 = field_mul u1 h2 in
    let n_u1h2 = mul-IsNine u1 h2 n_u1 n_h2 in
    let d = field_sub r2 h3 in
    let n_d = sub-IsNine r2 h3 (square-IsNine r n_r) n_h3 in
    let twice = scalar u1h2 2 in
    let n_twice = mul-IsNine u1h2 (factor 2) n_u1h2 refl in
    let x3 = field_sub d twice in
    let n_x3 = sub-IsNine d twice n_d n_twice in
    let tm = field_sub u1h2 x3 in
    let e = field_mul r tm in
    let n_e = mul-IsNine r tm n_r (sub-IsNine u1h2 x3 n_u1h2 n_x3) in
    let f = field_mul h3 s1 in
    (
      field_sub-IsArray d twice n_d n_twice,
      field_sub-IsArray e f n_e (mul-IsNine h3 s1 n_h3 n_s1),
      field_mul-IsArray (field_mul z1 z2) h (mul-IsNine z1 z2 n_z1 n_z2) n_h,
    )

abbrev AreEntries : Jacobian × Jacobian → Type 0
AreEntries pair = IsEntry pair.0 × IsEntry pair.1

choice-AreEntries :
    (b : Bool) (c d : Jacobian × Jacobian)
    → AreEntries c
    → AreEntries d
    → AreEntries (if b then c else d)
choice-AreEntries true c d hc hd = hc
choice-AreEntries false c d hc hd = hd

choice-IsEntry : (b : Bool) (p q : Jacobian) → IsEntry p → IsEntry q → IsEntry (if b then p else q)
choice-IsEntry true p q hp hq = hp
choice-IsEntry false p q hp hq = hq

pub point_add-IsEntry :
    (p q : Jacobian) → IsEntry p → IsEntry q → IsEntry (point_add p q).0 × IsEntry (point_add p q).1
unfolding point_add
point_add-IsEntry p q hp hq =
    let z12 = field_square p.z in
    let n_z12 = square-IsNine p.z hp.2.0 in
    let z22 = field_square q.z in
    let n_z22 = square-IsNine q.z hq.2.0 in
    let u1 = field_mul p.x z22 in
    let u2 = field_mul q.x z12 in
    let s1 = field_mul p.y (field_mul z22 q.z) in
    let s2 = field_mul q.y (field_mul z12 p.z) in
    let p' = if (to_big u1 == to_big u2) && (to_big s1 == to_big s2) then point_double p else p in
    let hp' : IsEntry p' =
      choice-IsEntry ((to_big u1 == to_big u2) && (to_big s1 == to_big s2)) (point_double p) p
        (point_double-IsEntry p hp) hp in
    let sum = add_distinct u1 u2 s1 s2 p'.z q.z in
    let h_sum =
      add_distinct-IsEntry u1 u2 s1 s2 p'.z q.z (mul-IsNine p.x z22 hp.0.0 n_z22)
        (mul-IsNine q.x z12 hq.0.0 n_z12)
        (mul-IsNine p.y (field_mul z22 q.z) hp.1.0 (mul-IsNine z22 q.z n_z22 hq.2.0))
        (mul-IsNine q.y (field_mul z12 p.z) hq.1.0 (mul-IsNine z12 p.z n_z12 hp.2.0)) hp'.2.0
        hq.2.0 in
    choice-AreEntries (to_big p.z == 0) (p, q) (if to_big q.z == 0 then (p, p) else (p', sum))
      (hp, hq) (choice-AreEntries (to_big q.z == 0) (p, p) (p', sum) (hp, hp) (hp', h_sum))
