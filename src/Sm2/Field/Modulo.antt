-- ===== src/Sm2/Field/Modulo.antt =====
-- The operations of sm2/p256.go on elements are those of the numbers modulo the prime that
-- `sm2P256ToBig` gives.
use gmsm.Common.{
  ℕ, ◌+◌, ◌*◌, ◌%◌, ◌≡◌, sym, ap, ◌∙◌, List, length, arith, Bool, true, Cong, Cong-mod, Cong-mul,
  Cong-add, drop_multiples,
}
use gmsm.Sm2.Field.{prime, field_add, field_sub}
use gmsm.Sm2.Field.Sum.{value, IsElement, field_add-value, field_add-IsElement}
use gmsm.Sm2.Field.Difference.{field_sub-value, field_sub-IsElement}
use gmsm.Sm2.Field.Degree.{split, reduce_degree}
use gmsm.Sm2.Field.Degree.Value.{safe_rounds, reduce_degree-value}
use gmsm.Sm2.Field.Convert.{r_inverse, to_big}
use gmsm.Sm2.Field.Convert.Value.{to_big-value, divided}
use gmsm.Sm2.Field.Product.Square.{square_products-mul_products}
use gmsm.Sm2.Field.Product.Value.{mul_products-value}
use gmsm.Sm2.Field.Product.{mul_products, field_mul, field_square}

residue : (a : List ℕ) → length a ≡ 9 → Cong prime (value true a * r_inverse) (to_big a)
residue a size =
    sym
      (ap (λ (t : ℕ). t % prime) (to_big-value a size) ∙ Cong-mod prime (value true a * r_inverse))

-- For elements of nine limbs, each with at most one bit more than its width, the element that
-- `sm2P256Add` makes stands for the sum of what theirs stand for, modulo the prime, and is such an
-- element again.
pub field_add-to_big :
    (a b : List ℕ)
    → IsElement a
    → IsElement b
    → (to_big (field_add a b) ≡ (to_big a + to_big b) % prime) × IsElement (field_add a b)
field_add-to_big a b ha hb =
    let va = value true a in
    let vb = value true b in
    let element = field_add-IsElement a b ha hb in
    let (n, low, sum) = field_add-value a b ha.0 hb.0 ha.1 hb.1 in
    let v = value true (field_add a b) in
    (
      to_big-value (field_add a b) element.0
          ∙ drop_multiples prime (v * r_inverse) (va * r_inverse + vb * r_inverse)
              (n * 2 * r_inverse) 0 (omega (arith, sum))
          ∙ Cong-add prime (va * r_inverse) (to_big a) (vb * r_inverse) (to_big b) (residue a ha.0)
              (residue b hb.0),
      element,
    )

-- For elements as above the element that `sm2P256Sub` makes stands for the difference of what theirs
-- stand for, modulo the prime, and is such an element again.
pub field_sub-to_big :
    (a b : List ℕ)
    → IsElement a
    → IsElement b
    → ((to_big (field_sub a b) + to_big b) % prime ≡ to_big a) × IsElement (field_sub a b)
field_sub-to_big a b ha hb =
    let va = value true a in
    let vb = value true b in
    let element = field_sub-IsElement a b ha hb in
    let (n, low, sum) = field_sub-value a b ha.0 hb.0 ha.1 hb.1 in
    let v = value true (field_sub a b) in
    (
      sym (
            Cong-add prime (v * r_inverse) (to_big (field_sub a b)) (vb * r_inverse) (to_big b)
              (residue (field_sub a b) element.0) (residue b hb.0))
          ∙ drop_multiples prime (v * r_inverse + vb * r_inverse) (va * r_inverse)
              (n * 2 * r_inverse) (8 * r_inverse) (omega (arith, sum))
          ∙ sym (to_big-value a ha.0),
      element,
    )

-- No round of the reduction at an even position lends what it has not.
abbrev pub safe_products : List ℕ → Bool
safe_products b = safe_rounds true 9 (split b)

-- For two elements of nine limbs, each with at most one bit more than its width, where no round of
-- the reduction at an even position lends what it has not, the element that `sm2P256Mul` makes
-- stands for the product of what theirs stand for, modulo the prime, and its limbs again have at
-- most one bit more than their widths.
pub field_mul-to_big :
    (a b : List ℕ)
    → IsElement a
    → IsElement b
    → safe_products (mul_products a b) ≡ true
    → (to_big (field_mul a b) ≡ to_big a * to_big b % prime) × IsElement (field_mul a b)
unfolding field_mul
field_mul-to_big a b (size_a, ha) (size_b, hb) safe =
    let (large, whole) = mul_products-value a b size_a size_b ha hb in
    let (reduced, element) = reduce_degree-value (mul_products a b) large safe in
    let va = value true a in
    let vb = value true b in
    (
      to_big-value (field_mul a b) element.0
          ∙ divided (value true (field_mul a b)) (va * vb)
              (reduced ∙ ap (λ (t : ℕ). t % prime) whole)
          ∙ ap (λ (t : ℕ). t % prime) {y = va * r_inverse * (vb * r_inverse)} (omega arith)
          ∙ Cong-mul prime (va * r_inverse) (to_big a) (vb * r_inverse) (to_big b)
              (residue a size_a) (residue b size_b),
      element,
    )

-- For an element as above `sm2P256Square` makes what `sm2P256Mul` makes of it and itself.
pub field_square-field_mul : (a : List ℕ) → field_square a ≡ field_mul a a
unfolding field_mul field_square
field_square-field_mul a = ap reduce_degree (square_products-mul_products a)
