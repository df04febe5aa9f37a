-- ===== src/Sm2/P256/Formulas/Same.antt =====
-- `sm2P256PointAdd` of a point and itself.
use gmsm.Common.{
  ℕ, ◌*◌, ◌%◌, ◌≡◌, ◌≢◌, ◌==◌, ◌&&◌, ==_iff, Bool-cases, inl, inr, refl, sym, ap, ◌∙◌, List, subst,
  arith, Bool, true, false, if◌then◌else◌,
}
use gmsm.Sm2.Field.{prime, field_sub}
use gmsm.Sm2.Field.Sum.{IsElement}
use gmsm.Sm2.Field.Product.{field_mul, field_square}
use gmsm.Sm2.Field.Convert.{to_big}
use gmsm.Sm2.Field.Arrays.{field_mul-IsElement, field_square-IsArray}
use gmsm.Sm2.Field.Modulo.{field_sub-to_big, field_mul-to_big}
use gmsm.Sm2.Field.Numbers.{IsSafe, to_big-lt}
use gmsm.Sm2.P256.Points.{Jacobian, point_double, add_distinct, point_add}
use gmsm.Sm2.P256.Select.Lookup.{IsEntry}
use gmsm.Sm2.P256.Entries.{point_double-IsEntry}
use gmsm.Sm2.P256.Formulas.Addition.{last_branch}

self_test : (n : ℕ) → (n == n) ≡ true
self_test n = (==_iff n n).1 refl

-- The difference of an element and itself stands for zero.
self_sub : (a : List ℕ) → IsElement a → to_big (field_sub a a) ≡ 0
self_sub a h =
    let (sum, _) = field_sub-to_big a a h h in
    omega (arith, sum, to_big-lt a, to_big-lt (field_sub a a))

same_last :
    (a h : List ℕ)
    → IsElement a
    → IsElement h
    → to_big h ≡ 0
    → IsSafe (a, h)
    → to_big (field_mul a h) ≡ 0
same_last a h ha hh e safe =
    let (product, _) = field_mul-to_big a h ha hh safe in
    product ∙ ap (λ (t : ℕ). to_big a * t % prime) e ∙ omega arith

-- For a point of nine words in each coordinate, the last of which does not stand for zero, and where
-- no reduction at an even position lends what it has not in the last multiplication,
-- `sm2P256PointAdd` of the point and itself doubles the first point in its place, but goes on and
-- makes a sum whose last coordinate stands for zero: the point at infinity, in place of the double.
pub point_add_same :
    (p : Jacobian)
    → IsEntry p
    → to_big p.z ≢ 0
    → IsSafe (
      field_mul (point_double p).z p.z,
      field_sub (field_mul p.x (field_square p.z)) (field_mul p.x (field_square p.z)),
    )
    → ((point_add p p).0 ≡ point_double p) × (to_big (point_add p p).1.z ≡ 0)
unfolding point_add add_distinct
point_add_same p entry not_zero safe =
    let z2 = field_square p.z in
    let u = field_mul p.x z2 in
    let s = field_mul p.y (field_mul z2 p.z) in
    let n_z2 = (field_square-IsArray p.z entry.2.0).0 in
    let (_, u_element) = field_mul-IsElement p.x z2 entry.0.0 n_z2 in
    let double = point_double p in
    let (_, zz_element) =
      field_mul-IsElement double.z p.z (point_double-IsEntry p entry).2.0 entry.2.0 in
    let branch = last_branch p p u u s s in
    let nonzero : (to_big p.z == 0) ≡ false = elim (Bool-cases (to_big p.z == 0)) [
      | inl e ↦ absurd (not_zero ((==_iff (to_big p.z) 0).0 e))
      | inr e ↦ e
    ] in
    let taken : point_add p p ≡ branch true =
      ap
        (λ (b : Bool).
          if b
          then (p, p)
          else (if b then (p, p) else branch ((to_big u == to_big u) && (to_big s == to_big s))))
        nonzero
      ∙ ap (λ (b : Bool). branch (b && (to_big s == to_big s))) (self_test (to_big u))
      ∙ ap branch (self_test (to_big s)) in
    subst (λ (r : Jacobian × Jacobian). (r.0 ≡ double) × (to_big r.1.z ≡ 0)) (sym taken)
      (
        refl,
        same_last (field_mul double.z p.z) (field_sub u u) zz_element
            (field_sub-to_big u u u_element u_element).1 (self_sub u u_element) safe,
      )
