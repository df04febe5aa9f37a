-- ===== src/Sm2/Field/Convert/Value.antt =====
-- `sm2P256FromBig` and `sm2P256ToBig` undo each other, modulo the prime.
use gmsm.Common.{
  ℕ, zero, suc, ◌-◌, ◌*◌, ◌/◌, ◌%◌, ◌^◌, ◌≡◌, refl, ap, ◌∙◌, and_mask, arith, List, [], ◌∷◌, length,
  Bool, true, false, Cong, Cong-mod, Cong-mul_right, drop_multiples,
}
use gmsm.Sm2.Field.{prime}
use gmsm.Sm2.Field.Sum.{value, IsLimbs, IsElement}
use gmsm.Sm2.Field.Convert.{r_inverse, low_limb, from_big_loop, from_big, to_big_loop, to_big}

limb_29 : (x : ℕ) → low_limb 0x1fffffff x ≡ x % 2 ^ 29
unfolding low_limb
limb_29 x = ground (arith, and_mask 29 (x % 2 ^ 64 % 2 ^ 32))

limb_28 : (x : ℕ) → low_limb 0xfffffff x ≡ x % 2 ^ 28
unfolding low_limb
limb_28 x = ground (arith, and_mask 28 (x % 2 ^ 64 % 2 ^ 32))

-- The limbs stand for the number, where there are enough of them.
pub from_big-value : (a : ℕ) → value true (from_big a) ≡ a * 2 ^ 257 % prime
unfolding value from_big from_big_loop
from_big-value a =
    let x = a * 2 ^ 257 % prime in
    omega (
      arith,
      limb_29 x,
      limb_28 (x / 2 ^ 29),
      limb_29 (x / 2 ^ 29 / 2 ^ 28),
      limb_28 (x / 2 ^ 29 / 2 ^ 28 / 2 ^ 29),
      limb_29 (x / 2 ^ 29 / 2 ^ 28 / 2 ^ 29 / 2 ^ 28),
      limb_28 (x / 2 ^ 29 / 2 ^ 28 / 2 ^ 29 / 2 ^ 28 / 2 ^ 29),
      limb_29 (x / 2 ^ 29 / 2 ^ 28 / 2 ^ 29 / 2 ^ 28 / 2 ^ 29 / 2 ^ 28),
      limb_28 (x / 2 ^ 29 / 2 ^ 28 / 2 ^ 29 / 2 ^ 28 / 2 ^ 29 / 2 ^ 28 / 2 ^ 29),
      limb_29 (x / 2 ^ 29 / 2 ^ 28 / 2 ^ 29 / 2 ^ 28 / 2 ^ 29 / 2 ^ 28 / 2 ^ 29 / 2 ^ 28),
    )

pub to_big-value : (a : List ℕ) → length a ≡ 9 → to_big a ≡ value true a * r_inverse % prime
unfolding value to_big to_big_loop
to_big-value (a0 ∷ a1 ∷ a2 ∷ a3 ∷ a4 ∷ a5 ∷ a6 ∷ a7 ∷ a8 ∷ []) size =
    ap (λ (t : ℕ). t * r_inverse % prime)
      {y = value true (a0 ∷ a1 ∷ a2 ∷ a3 ∷ a4 ∷ a5 ∷ a6 ∷ a7 ∷ a8 ∷ [])} (omega arith)
to_big-value _ size = absurd (omega arith)

from_big_loop-IsLimbs : (wide : Bool) (n x : ℕ) → IsLimbs wide (from_big_loop wide n x)
unfolding IsLimbs from_big_loop
from_big_loop-IsLimbs wide zero x = tt
from_big_loop-IsLimbs true (suc n) x =
    (omega (arith, limb_29 x), from_big_loop-IsLimbs false n (x / 2 ^ 29))
from_big_loop-IsLimbs false (suc n) x =
    (omega (arith, limb_28 x), from_big_loop-IsLimbs true n (x / 2 ^ 28))

pub from_big-IsElement : (a : ℕ) → IsElement (from_big a)
unfolding from_big from_big_loop
from_big-IsElement a = (refl, from_big_loop-IsLimbs true 9 (a * 2 ^ 257 % prime))

-- `sm2P256ToBig` undoes `sm2P256FromBig` modulo the prime, and the limbs in between keep their
-- widths.
pub to_big-from_big : (a : ℕ) → (to_big (from_big a) ≡ a % prime) × IsElement (from_big a)
to_big-from_big a = (
  to_big-value (from_big a) (from_big-IsElement a).0
      ∙ ap (λ (t : ℕ). t * r_inverse % prime) (from_big-value a)
      ∙ Cong-mul_right prime (a * 2 ^ 257 % prime) (a * 2 ^ 257) r_inverse
          (Cong-mod prime (a * 2 ^ 257))
      ∙ drop_multiples prime (a * 2 ^ 257 * r_inverse) a 0 (a * ((2 ^ 257 * r_inverse - 1) / prime))
          (omega arith),
  from_big-IsElement a,
)

-- What a number stands for, where 2 ^ 257 times it is known.
pub divided :
    (v w : ℕ) → Cong prime (2 ^ 257 * v) w → Cong prime (v * r_inverse) (w * r_inverse * r_inverse)
divided v w e =
    drop_multiples prime (v * r_inverse) (2 ^ 257 * v * r_inverse * r_inverse)
      (v * r_inverse * ((2 ^ 257 * r_inverse - 1) / prime)) 0 (omega arith)
    ∙ Cong-mul_right prime (2 ^ 257 * v * r_inverse) (w * r_inverse) r_inverse
        (Cong-mul_right prime (2 ^ 257 * v) w r_inverse e)
