-- ===== src/Sm2/Field/Difference.antt =====
-- `sm2P256Sub` subtracts modulo the prime.
use gmsm.Common.{
  ℕ, suc, ◌+◌, ◌-◌, ◌*◌, ◌/◌, ◌%◌, ◌^◌, ◌≤◌, ◌<◌, ◌≡◌, refl, sym, ap, ◌∙◌, and_mask, List, [], ◌∷◌,
  length, arith, Bool, true, false,
}
use native.Mathlib.Nat.{mul_assoc}
use gmsm.Sm2.Field.{prime, sm2_p256_zero31, sub32, sub_loop, field_sub}
use gmsm.Sm2.Field.Sum.{
  value, weight, weight-nine, IsLimbs, IsNarrow, IsElement, reduce_carry-IsElement,
  reduce_carry-value,
}

-- Limbs that are above any limb to be subtracted.
unfoldable IsLarge : Bool → List ℕ → Type 0
IsLarge wide [] = Unit
IsLarge true (z ∷ zeros) = (2 ^ 30 ≤ z) × (z < 2 ^ 31 + 2 ^ 12) × IsLarge false zeros
IsLarge false (z ∷ zeros) = (2 ^ 29 ≤ z) × (z < 2 ^ 30) × IsLarge true zeros

sub32-add :
    (x y z carry : ℕ)
    → x < 2 ^ 30
    → y ≤ z
    → z < 2 ^ 31 + 2 ^ 12
    → carry ≤ 7
    → ((sub32 x y + z) % 2 ^ 32 + carry) % 2 ^ 32 ≡ x + (z - y) + carry
unfolding sub32
sub32-add x y z carry hx hy hz hc = omega arith

sub_loop-value :
    (wide : Bool) (carry : ℕ) (a b zeros : List ℕ)
    → length a ≡ length b
    → length a ≡ length zeros
    → carry ≤ 7
    → IsLimbs wide a
    → IsLimbs wide b
    → IsLarge wide zeros
    → (value wide (sub_loop wide carry a b zeros).0
          + weight wide a * (sub_loop wide carry a b zeros).1
          + value wide b
        ≡ value wide a + value wide zeros + carry)
      × ((sub_loop wide carry a b zeros).1 ≤ 7)
      × IsNarrow wide (sub_loop wide carry a b zeros).0
      × (length (sub_loop wide carry a b zeros).0 ≡ length a)
unfolding sub_loop value weight IsLimbs IsLarge IsNarrow
sub_loop-value true carry [] [] [] h hz low ha hb large = (omega arith, low, tt, refl)
sub_loop-value false carry [] [] [] h hz low ha hb large = (omega arith, low, tt, refl)
sub_loop-value true carry (x ∷ a) (y ∷ b) (z ∷ zeros) h hz low (hx, ha) (hy, hb) (lo, hi, large) =
    let c = ((sub32 x y + z) % 2 ^ 32 + carry) % 2 ^ 32 in
    let c_is : c ≡ x + (z - y) + carry = sub32-add x y z carry hx (omega arith) hi low in
    let (sum, last, narrow, size) =
      sub_loop-value false (c / 2 ^ 29) a b zeros (omega arith) (omega arith) (omega (arith, c_is))
        ha hb large in
    let rest = sub_loop false (c / 2 ^ 29) a b zeros in
    (
      omega (arith, sum, c_is, and_mask 29 c, mul_assoc (2 ^ 29) (weight false a) rest.1),
      last,
      (omega (arith, and_mask 29 c), narrow),
      ap suc size,
    )
sub_loop-value false carry (x ∷ a) (y ∷ b) (z ∷ zeros) h hz low (hx, ha) (hy, hb) (lo, hi, large) =
    let c = ((sub32 x y + z) % 2 ^ 32 + carry) % 2 ^ 32 in
    let c_is : c ≡ x + (z - y) + carry =
      sub32-add x y z carry (omega arith) (omega arith) (omega arith) low in
    let (sum, last, narrow, size) =
      sub_loop-value true (c / 2 ^ 28) a b zeros (omega arith) (omega arith) (omega (arith, c_is))
        ha hb large in
    let rest = sub_loop true (c / 2 ^ 28) a b zeros in
    (
      omega (arith, sum, c_is, and_mask 28 c, mul_assoc (2 ^ 28) (weight true a) rest.1),
      last,
      (omega (arith, and_mask 28 c), narrow),
      ap suc size,
    )
sub_loop-value wide carry _ _ _ h hz low ha hb large = absurd (omega arith)

zero31-IsLarge : IsLarge true sm2_p256_zero31
unfolding IsLarge
zero31-IsLarge = omega arith

zero31-value : value true sm2_p256_zero31 ≡ 8 * prime
unfolding value
zero31-value = refl

-- For elements of nine limbs, each with at most one bit more than its width, the element that
-- `sm2P256Sub` makes stands for their difference modulo the prime, and no limb under- or overflows:
-- it is the difference plus eight times the prime, less at most seven times twice the prime.
pub field_sub-value :
    (a b : List ℕ)
    → length a ≡ 9
    → length b ≡ 9
    → IsLimbs true a
    → IsLimbs true b
    → (n : ℕ) × (n ≤ 7)
      × (value true (field_sub a b) + value true b + n * (2 * prime) ≡ value true a + 8 * prime)
unfolding field_sub
field_sub-value a b size_a size_b ha hb =
    let out = sub_loop true 0 a b sm2_p256_zero31 in
    let (sum, last, narrow, size) =
      sub_loop-value true 0 a b sm2_p256_zero31 (size_a ∙ sym size_b) size_a (omega arith) ha hb
        zero31-IsLarge in
    let reduced = reduce_carry-value out.0 out.1 (size ∙ size_a) narrow last in
    (
      out.1,
      last,
      omega (arith, reduced, sum, zero31-value, ap (λ (w : ℕ). w * out.1) (weight-nine a size_a)),
    )

pub field_sub-IsElement : (a b : List ℕ) → IsElement a → IsElement b → IsElement (field_sub a b)
unfolding field_sub
field_sub-IsElement a b (size_a, ha) (size_b, hb) =
    let out = sub_loop true 0 a b sm2_p256_zero31 in
    let (_, last, narrow, size) =
      sub_loop-value true 0 a b sm2_p256_zero31 (size_a ∙ sym size_b) size_a (omega arith) ha hb
        zero31-IsLarge in
    reduce_carry-IsElement out.0 out.1 (size ∙ size_a) narrow last
