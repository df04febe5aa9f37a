-- ===== src/Sm2/Field/Sum.antt =====
-- `sm2P256Add` adds modulo the prime.
use gmsm.Common.{
  ℕ, zero, suc, ◌+◌, ◌*◌, ◌/◌, ◌%◌, ◌^◌, ◌≤◌, ◌<◌, ◌≡◌, refl, sym, ap, ◌∙◌, and_mask, List, [], ◌∷◌,
  length, arith, Bool, true, false,
}
use native.Mathlib.Nat.{mul_assoc}
use gmsm.Sm2.Field.{prime, sm2_p256_carry, carry_at, reduce_carry, add_loop, field_add}

-- The number that limbs stand for.
unfoldable pub value : Bool → List ℕ → ℕ
value wide [] = 0
value true (x ∷ a) = x + 2 ^ 29 * value false a
value false (x ∷ a) = x + 2 ^ 28 * value true a

-- The weight behind as many limbs as a list has.
unfoldable pub weight : Bool → List ℕ → ℕ
weight wide [] = 1
weight true (x ∷ a) = 2 ^ 29 * weight false a
weight false (x ∷ a) = 2 ^ 28 * weight true a

-- The limbs have at most one bit more than their widths.
unfoldable pub IsLimbs : Bool → List ℕ → Type 0
IsLimbs wide [] = Unit
IsLimbs true (x ∷ a) = (x < 2 ^ 30) × IsLimbs false a
IsLimbs false (x ∷ a) = (x < 2 ^ 29) × IsLimbs true a

-- The bounds under which the reduction of the products loses nothing.
unfoldable pub IsLargeElement : List ℕ → Type 0
IsLargeElement
      (b0 ∷ b1 ∷ b2 ∷ b3 ∷ b4 ∷ b5 ∷ b6 ∷ b7 ∷ b8 ∷ b9 ∷ b10 ∷ b11 ∷ b12 ∷ b13 ∷ b14 ∷ b15 ∷ b16
        ∷ []) =
    (b0 < 2 ^ 64)
    × (b1 < 2 ^ 64)
    × (b2 < 2 ^ 64)
    × (b3 < 2 ^ 64)
    × (b4 < 2 ^ 64)
    × (b5 < 2 ^ 64)
    × (b6 < 2 ^ 64)
    × (b7 < 2 ^ 64)
    × (b8 < 2 ^ 64)
    × (b9 < 2 ^ 64)
    × (b10 < 2 ^ 64)
    × (b11 < 2 ^ 64)
    × (b12 < 2 ^ 64)
    × (b13 < 2 ^ 64)
    × (b14 < 2 ^ 64)
    × (b15 < 2 ^ 64)
    × (b16 ≤ 2 ^ 60)
IsLargeElement _ = ⊥

add_loop-value :
    (wide : Bool) (carry : ℕ) (a b : List ℕ)
    → length a ≡ length b
    → carry ≤ 4
    → IsLimbs wide a
    → IsLimbs wide b
    → (value wide (add_loop wide carry a b).0 + weight wide a * (add_loop wide carry a b).1
        ≡ value wide a + value wide b + carry)
      × ((add_loop wide carry a b).1 ≤ 4)
unfolding add_loop value weight IsLimbs
add_loop-value wide carry [] [] h low ha hb = (omega arith, low)
add_loop-value wide carry [] (y ∷ b) h low ha hb = absurd (omega arith)
add_loop-value wide carry (x ∷ a) [] h low ha hb = absurd (omega arith)
add_loop-value true carry (x ∷ a) (y ∷ b) h low (hx, ha) (hy, hb) =
    let c = ((x + y) % 2 ^ 32 + carry) % 2 ^ 32 in
    let c_is : c ≡ x + y + carry = omega arith in
    let (sum, last) =
      add_loop-value false (c / 2 ^ 29) a b (omega arith) (omega (arith, c_is)) ha hb in
    let rest = add_loop false (c / 2 ^ 29) a b in
    (omega (arith, sum, c_is, and_mask 29 c, mul_assoc (2 ^ 29) (weight false a) rest.1), last)
add_loop-value false carry (x ∷ a) (y ∷ b) h low (hx, ha) (hy, hb) =
    let c = ((x + y) % 2 ^ 32 + carry) % 2 ^ 32 in
    let c_is : c ≡ x + y + carry = omega arith in
    let (sum, last) =
      add_loop-value true (c / 2 ^ 28) a b (omega arith) (omega (arith, c_is)) ha hb in
    let rest = add_loop true (c / 2 ^ 28) a b in
    (omega (arith, sum, c_is, and_mask 28 c, mul_assoc (2 ^ 28) (weight true a) rest.1), last)

-- The loop leaves limbs of 29 and 28 bits, as many as there were.
unfoldable pub IsNarrow : Bool → List ℕ → Type 0
IsNarrow wide [] = Unit
IsNarrow true (x ∷ a) = (x < 2 ^ 29) × IsNarrow false a
IsNarrow false (x ∷ a) = (x < 2 ^ 28) × IsNarrow true a

pub add_loop-IsNarrow :
    (wide : Bool) (carry : ℕ) (a b : List ℕ)
    → length a ≡ length b
    → IsNarrow wide (add_loop wide carry a b).0 × (length (add_loop wide carry a b).0 ≡ length a)
unfolding add_loop IsNarrow
add_loop-IsNarrow wide carry [] [] h = (tt, refl)
add_loop-IsNarrow wide carry [] (y ∷ b) h = absurd (omega arith)
add_loop-IsNarrow wide carry (x ∷ a) [] h = absurd (omega arith)
add_loop-IsNarrow true carry (x ∷ a) (y ∷ b) h =
    let c = ((x + y) % 2 ^ 32 + carry) % 2 ^ 32 in
    let (narrow, size) = add_loop-IsNarrow false (c / 2 ^ 29) a b (omega arith) in
    ((omega (arith, and_mask 29 c), narrow), ap suc size)
add_loop-IsNarrow false carry (x ∷ a) (y ∷ b) h =
    let c = ((x + y) % 2 ^ 32 + carry) % 2 ^ 32 in
    let (narrow, size) = add_loop-IsNarrow true (c / 2 ^ 28) a b (omega arith) in
    ((omega (arith, and_mask 28 c), narrow), ap suc size)

row_bounds :
    (carry : ℕ)
    → carry ≤ 7
    → (carry_at carry 0 < 2 ^ 29)
      × (carry_at carry 2 < 2 ^ 29)
      × (carry_at carry 3 < 2 ^ 28)
      × (carry_at carry 7 < 2 ^ 28)
unfolding sm2_p256_carry
row_bounds zero h = omega arith
row_bounds (suc zero) h = omega arith
row_bounds (suc (suc zero)) h = omega arith
row_bounds (suc (suc (suc zero))) h = omega arith
row_bounds (suc (suc (suc (suc zero)))) h = omega arith
row_bounds (suc (suc (suc (suc (suc zero))))) h = omega arith
row_bounds (suc (suc (suc (suc (suc (suc zero)))))) h = omega arith
row_bounds (suc (suc (suc (suc (suc (suc (suc zero))))))) h = omega arith
row_bounds (suc (suc (suc (suc (suc (suc (suc (suc n)))))))) h = absurd (omega arith)

-- A row of the table is a multiple of `2 ^ 257`, less as many times twice the prime.
pub reduce_carry-value :
    (a : List ℕ) (carry : ℕ)
    → length a ≡ 9
    → IsNarrow true a
    → carry ≤ 7
    → value true (reduce_carry a carry) + carry * (2 * prime) ≡ value true a + carry * 2 ^ 257
unfolding value IsNarrow reduce_carry sm2_p256_carry
reduce_carry-value (a0 ∷ a1 ∷ a2 ∷ a3 ∷ a4 ∷ a5 ∷ a6 ∷ a7 ∷ a8 ∷ []) zero h narrow low = omega arith
reduce_carry-value (a0 ∷ a1 ∷ a2 ∷ a3 ∷ a4 ∷ a5 ∷ a6 ∷ a7 ∷ a8 ∷ []) (suc zero) h narrow low =
    omega arith
reduce_carry-value (a0 ∷ a1 ∷ a2 ∷ a3 ∷ a4 ∷ a5 ∷ a6 ∷ a7 ∷ a8 ∷ []) (suc (suc zero)) h narrow low =
    omega arith
reduce_carry-value (a0 ∷ a1 ∷ a2 ∷ a3 ∷ a4 ∷ a5 ∷ a6 ∷ a7 ∷ a8 ∷ []) (suc (suc (suc zero))) h narrow
      low =
    omega arith
reduce_carry-value (a0 ∷ a1 ∷ a2 ∷ a3 ∷ a4 ∷ a5 ∷ a6 ∷ a7 ∷ a8 ∷ []) (suc (suc (suc (suc zero)))) h
      narrow low =
    omega arith
reduce_carry-value (a0 ∷ a1 ∷ a2 ∷ a3 ∷ a4 ∷ a5 ∷ a6 ∷ a7 ∷ a8 ∷ [])
      (suc (suc (suc (suc (suc zero))))) h narrow low =
    omega arith
reduce_carry-value (a0 ∷ a1 ∷ a2 ∷ a3 ∷ a4 ∷ a5 ∷ a6 ∷ a7 ∷ a8 ∷ [])
      (suc (suc (suc (suc (suc (suc zero)))))) h narrow low =
    omega arith
reduce_carry-value (a0 ∷ a1 ∷ a2 ∷ a3 ∷ a4 ∷ a5 ∷ a6 ∷ a7 ∷ a8 ∷ [])
      (suc (suc (suc (suc (suc (suc (suc zero))))))) h narrow low =
    omega arith
reduce_carry-value (a0 ∷ a1 ∷ a2 ∷ a3 ∷ a4 ∷ a5 ∷ a6 ∷ a7 ∷ a8 ∷ [])
      (suc (suc (suc (suc (suc (suc (suc (suc n)))))))) h narrow low =
    absurd (omega arith)
reduce_carry-value _ _ h narrow low = absurd (omega arith)

-- An element that the operations take and leave.
abbrev pub IsElement : List ℕ → Type 0
IsElement a = (length a ≡ 9) × IsLimbs true a

pub reduce_carry-IsElement :
    (a : List ℕ) (carry : ℕ)
    → length a ≡ 9
    → IsNarrow true a
    → carry ≤ 7
    → IsElement (reduce_carry a carry)
unfolding IsNarrow IsLimbs reduce_carry sm2_p256_carry
reduce_carry-IsElement (a0 ∷ a1 ∷ a2 ∷ a3 ∷ a4 ∷ a5 ∷ a6 ∷ a7 ∷ a8 ∷ []) carry h narrow low =
    let (c0, c2, c3, c7) = row_bounds carry low in (refl, omega (arith, c0, c2, c3, c7))
reduce_carry-IsElement _ carry h narrow low = absurd (omega arith)

pub weight-nine : (a : List ℕ) → length a ≡ 9 → weight true a ≡ 2 ^ 257
unfolding weight
weight-nine (a0 ∷ a1 ∷ a2 ∷ a3 ∷ a4 ∷ a5 ∷ a6 ∷ a7 ∷ a8 ∷ []) h = refl
weight-nine _ h = absurd (omega arith)

-- For elements of nine limbs, each with at most one bit more than its width, the element that
-- `sm2P256Add` makes stands for the sum of theirs modulo the prime, and no limb overflows: it is the
-- sum less at most four times twice the prime.
pub field_add-value :
    (a b : List ℕ)
    → length a ≡ 9
    → length b ≡ 9
    → IsLimbs true a
    → IsLimbs true b
    → (n : ℕ) × (n ≤ 4)
      × (value true (field_add a b) + n * (2 * prime) ≡ value true a + value true b)
unfolding field_add
field_add-value a b size_a size_b ha hb =
    let out = add_loop true 0 a b in
    let (sum, last) = add_loop-value true 0 a b (size_a ∙ sym size_b) (omega arith) ha hb in
    let (narrow, size) = add_loop-IsNarrow true 0 a b (size_a ∙ sym size_b) in
    let reduced = reduce_carry-value out.0 out.1 (size ∙ size_a) narrow (omega (arith, last)) in
    (out.1, last, omega (arith, reduced, sum, ap (λ (w : ℕ). w * out.1) (weight-nine a size_a)))

pub field_add-IsElement : (a b : List ℕ) → IsElement a → IsElement b → IsElement (field_add a b)
unfolding field_add
field_add-IsElement a b (size_a, ha) (size_b, hb) =
    let out = add_loop true 0 a b in
    let (_, last) = add_loop-value true 0 a b (size_a ∙ sym size_b) (omega arith) ha hb in
    let (narrow, size) = add_loop-IsNarrow true 0 a b (size_a ∙ sym size_b) in
    reduce_carry-IsElement out.0 out.1 (size ∙ size_a) narrow (omega (arith, last))
