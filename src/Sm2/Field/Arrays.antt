-- ===== src/Sm2/Field/Arrays.antt =====
-- Whatever the elements are, the operations of sm2/p256.go leave arrays of nine words.
use gmsm.Common.{
  ℕ, zero, suc, ◌+◌, ◌*◌, ◌/◌, ◌%◌, ◌^◌, ◌<◌, ◌≤◌, ◌≡◌, refl, sym, ap, ◌∙◌, bit_and, and_mask, List,
  [], ◌∷◌, length, arith, Bool, true, false, All, IsWord,
}
use gmsm.Sm2.Field.{
  sm2_p256_carry, sm2_p256_zero31, sub32, reduce_carry, add_loop, field_add, sub_loop, field_sub,
}
use gmsm.Sm2.Field.Sum.{IsNarrow, IsElement, add_loop-IsNarrow, reduce_carry-IsElement}
use gmsm.Sm2.Field.Degree.{
  wrap32, shl32, split, even_step, odd_step, eliminate, collect, reduce_degree,
}
use gmsm.Sm2.Field.Degree.Split.{length-split_loop}
use gmsm.Sm2.Field.Degree.Value.{length-even_step, length-odd_step}
use gmsm.Sm2.Field.Product.{mul_products, square_products, field_mul, field_square}

-- An array of nine `uint32`s.
abbrev pub IsArray : List ℕ → Type 0
IsArray a = (length a ≡ 9) × All IsWord a

reduce_carry-IsArray :
    (a : List ℕ) (carry : ℕ) → length a ≡ 9 → IsNarrow true a → IsArray (reduce_carry a carry)
unfolding reduce_carry IsNarrow
reduce_carry-IsArray (a0 ∷ a1 ∷ a2 ∷ a3 ∷ a4 ∷ a5 ∷ a6 ∷ a7 ∷ a8 ∷ []) carry size
      (h0, (h1, (h2, (h3, (h4, (h5, (h6, (h7, (h8, _))))))))) =
    (
      refl,
      (
        omega arith,
        (
          omega arith,
          (
            omega arith,
            (
              omega arith,
              (omega arith, (omega arith, (omega arith, (omega arith, (omega arith, tt))))),
            ),
          ),
        ),
      ),
    )
reduce_carry-IsArray _ carry size narrow = absurd (omega arith)

sub_loop-IsNarrow :
    (wide : Bool) (carry : ℕ) (a b zeros : List ℕ)
    → length a ≡ length b
    → length a ≡ length zeros
    → IsNarrow wide (sub_loop wide carry a b zeros).0
      × (length (sub_loop wide carry a b zeros).0 ≡ length a)
unfolding sub_loop IsNarrow
sub_loop-IsNarrow true carry [] [] [] h hz = (tt, refl)
sub_loop-IsNarrow false carry [] [] [] h hz = (tt, refl)
sub_loop-IsNarrow true carry (x ∷ a) (y ∷ b) (z ∷ zeros) h hz =
    let c = ((sub32 x y + z) % 2 ^ 32 + carry) % 2 ^ 32 in
    let (narrow, size) =
      sub_loop-IsNarrow false (c / 2 ^ 29) a b zeros (omega arith) (omega arith) in
    ((omega (arith, and_mask 29 c), narrow), ap suc size)
sub_loop-IsNarrow false carry (x ∷ a) (y ∷ b) (z ∷ zeros) h hz =
    let c = ((sub32 x y + z) % 2 ^ 32 + carry) % 2 ^ 32 in
    let (narrow, size) =
      sub_loop-IsNarrow true (c / 2 ^ 28) a b zeros (omega arith) (omega arith) in
    ((omega (arith, and_mask 28 c), narrow), ap suc size)
sub_loop-IsNarrow wide carry _ _ _ h hz = absurd (omega arith)

collect-IsNarrow :
    (carry : ℕ) (ts : List ℕ)
    → IsNarrow true (collect carry ts).0 × (length (collect carry ts).0 ≡ length ts)
unfolding collect IsNarrow
collect-IsNarrow carry [] = (tt, refl)
collect-IsNarrow carry (t ∷ []) = ((omega (arith, and_mask 29 (wrap32 (t + carry))), tt), refl)
collect-IsNarrow carry (t ∷ u ∷ ts) =
    let a = wrap32 (t + carry + bit_and (shl32 u 28) 0x1fffffff) in
    let b = wrap32 (u / 2 + a / 2 ^ 29) in
    let (narrow, size) = collect-IsNarrow (b / 2 ^ 28) ts in
    (
      (omega (arith, and_mask 29 a), (omega (arith, and_mask 28 b), narrow)),
      ap (λ (n : ℕ). suc (suc n)) size,
    )

length-eliminate :
    (wide : Bool) (n : ℕ) (ts : List ℕ) → length ts ≡ 9 + n → length (eliminate wide n ts) ≡ 9
unfolding eliminate
length-eliminate wide zero ts size = omega (arith, size)
length-eliminate true (suc n) ts size =
    length-eliminate false n (even_step ts) (omega (arith, length-even_step ts (omega arith)))
length-eliminate false (suc n) ts size =
    length-eliminate true n (odd_step ts) (omega (arith, length-odd_step ts (omega arith)))

length-split : (b : List ℕ) → length b ≡ 17 → length (split b) ≡ 18
unfolding split
length-split (b0 ∷ b1 ∷ bs) size = omega (arith, length-split_loop true _ b0 b1 bs)
length-split _ size = absurd (omega arith)

reduce_degree-IsArray : (b : List ℕ) → length b ≡ 17 → IsArray (reduce_degree b)
unfolding reduce_degree
reduce_degree-IsArray b size =
    let us = eliminate true 9 (split b) in
    let (narrow, nine) = collect-IsNarrow 0 us in
    let out = collect 0 us in
    reduce_carry-IsArray out.0 out.1
      (nine ∙ length-eliminate true 9 (split b) (length-split b size)) narrow

-- The carry of nine limbs.
collect-carry : (ts : List ℕ) → length ts ≡ 9 → (collect 0 ts).1 ≤ 7
unfolding collect
collect-carry (t0 ∷ t1 ∷ t2 ∷ t3 ∷ t4 ∷ t5 ∷ t6 ∷ t7 ∷ t8 ∷ []) size = omega arith
collect-carry _ size = absurd (omega arith)

reduce_degree-IsElement : (b : List ℕ) → length b ≡ 17 → IsElement (reduce_degree b)
unfolding reduce_degree
reduce_degree-IsElement b size =
    let us = eliminate true 9 (split b) in
    let nine = length-eliminate true 9 (split b) (length-split b size) in
    let (narrow, same) = collect-IsNarrow 0 us in
    let out = collect 0 us in
    reduce_carry-IsElement out.0 out.1 (same ∙ nine) narrow (collect-carry us nine)

-- Whatever the nine limbs of two lists are, `sm2P256Mul` reads no row behind its table of carries,
-- and the limbs that it leaves have at most one bit more than their widths.
pub field_mul-IsElement :
    (a b : List ℕ)
    → length a ≡ 9
    → length b ≡ 9
    → ((collect 0 (eliminate true 9 (split (mul_products a b)))).1 * 9 + 8 < length sm2_p256_carry)
      × IsElement (field_mul a b)
unfolding field_mul mul_products sm2_p256_carry
field_mul-IsElement (a0 ∷ a1 ∷ a2 ∷ a3 ∷ a4 ∷ a5 ∷ a6 ∷ a7 ∷ a8 ∷ [])
      (b0 ∷ b1 ∷ b2 ∷ b3 ∷ b4 ∷ b5 ∷ b6 ∷ b7 ∷ b8 ∷ []) size_a size_b =
    let b =
      mul_products (a0 ∷ a1 ∷ a2 ∷ a3 ∷ a4 ∷ a5 ∷ a6 ∷ a7 ∷ a8 ∷ [])
        (b0 ∷ b1 ∷ b2 ∷ b3 ∷ b4 ∷ b5 ∷ b6 ∷ b7 ∷ b8 ∷ []) in
    let us = eliminate true 9 (split b) in
    (
      omega (arith, collect-carry us (length-eliminate true 9 (split b) (length-split b refl))),
      reduce_degree-IsElement b refl,
    )
field_mul-IsElement _ _ size_a size_b = absurd (omega arith)

pub field_mul-IsArray : (a b : List ℕ) → length a ≡ 9 → length b ≡ 9 → IsArray (field_mul a b)
unfolding field_mul mul_products
field_mul-IsArray (a0 ∷ a1 ∷ a2 ∷ a3 ∷ a4 ∷ a5 ∷ a6 ∷ a7 ∷ a8 ∷ [])
      (b0 ∷ b1 ∷ b2 ∷ b3 ∷ b4 ∷ b5 ∷ b6 ∷ b7 ∷ b8 ∷ []) size_a size_b =
    reduce_degree-IsArray _ refl
field_mul-IsArray _ _ size_a size_b = absurd (omega arith)

pub field_square-IsArray : (a : List ℕ) → length a ≡ 9 → IsArray (field_square a)
unfolding field_square square_products
field_square-IsArray (a0 ∷ a1 ∷ a2 ∷ a3 ∷ a4 ∷ a5 ∷ a6 ∷ a7 ∷ a8 ∷ []) size =
    reduce_degree-IsArray _ refl
field_square-IsArray _ size = absurd (omega arith)

pub field_add-IsArray : (a b : List ℕ) → length a ≡ 9 → length b ≡ 9 → IsArray (field_add a b)
unfolding field_add
field_add-IsArray a b size_a size_b =
    let out = add_loop true 0 a b in
    let (narrow, size) = add_loop-IsNarrow true 0 a b (size_a ∙ sym size_b) in
    reduce_carry-IsArray out.0 out.1 (size ∙ size_a) narrow

pub field_sub-IsArray : (a b : List ℕ) → length a ≡ 9 → length b ≡ 9 → IsArray (field_sub a b)
unfolding field_sub
field_sub-IsArray a b size_a size_b =
    let out = sub_loop true 0 a b sm2_p256_zero31 in
    let (narrow, size) =
      sub_loop-IsNarrow true 0 a b sm2_p256_zero31 (size_a ∙ sym size_b) size_a in
    reduce_carry-IsArray out.0 out.1 (size ∙ size_a) narrow
