-- ===== src/Sm2/FieldExamples.antt =====
-- The theorems about the field's elements at concrete inputs.
use gmsm.Common.{
  ℕ, ◌+◌, ◌*◌, ◌%◌, ◌<◌, ◌≡◌, ◌==◌, refl, List, [], ◌∷◌, length, replicate, arith, Bool, true,
  false,
}
use gmsm.Sm2.Field.{prime, sub32, sm2_p256_carry, reduce_carry, field_sub}
use gmsm.Sm2.Field.Sum.{IsLimbs, IsElement}
use gmsm.Sm2.Field.Degree.{
  split, split_loop, eliminate, even_step, even_round, even_three, even_four, even_five, even_six,
  even_seven, even_eight, odd_step, odd_round, odd_three, odd_four, odd_five, odd_six, odd_seven,
  odd_eight, non_zero_to_all_ones, collect, reduce_degree,
}
use gmsm.Sm2.Field.Degree.EvenStep.{even_safe}
use gmsm.Sm2.Field.Degree.Value.{safe_rounds}
use gmsm.Sm2.Field.Product.{mul_products, field_mul}
use gmsm.Sm2.Field.Convert.{from_big, to_big, to_big_loop}
use gmsm.Sm2.Field.Convert.Value.{to_big-from_big}
use gmsm.Sm2.Field.Arrays.{field_mul-IsElement}
use gmsm.Sm2.Field.Modulo.{safe_products, field_sub-to_big, field_mul-to_big}

-- The largest limbs that the theorems admit in the wide places.
abbrev large : List ℕ
large =
    0x3fffffff ∷ 0x1fffffff ∷ 0x3fffffff ∷ 0x1fffffff ∷ 0x3fffffff ∷ 0x1fffffff ∷ 0x3fffffff
    ∷ 0x1fffffff ∷ 0x3fffffff ∷ []

large-IsLimbs : IsLimbs true large
unfolding IsLimbs
large-IsLimbs = omega arith

small-IsLimbs : IsLimbs true (replicate 9 5)
unfolding IsLimbs
small-IsLimbs = omega arith

large-IsElement : IsElement large
large-IsElement = (refl, large-IsLimbs)

small-IsElement : IsElement (replicate 9 5)
small-IsElement = (refl, small-IsLimbs)

field_sub-to_big_example :
    ((to_big (field_sub (replicate 9 5) large) + to_big large) % prime ≡ to_big (replicate 9 5))
    × IsElement (field_sub (replicate 9 5) large)
field_sub-to_big_example = field_sub-to_big (replicate 9 5) large small-IsElement large-IsElement

-- This computes the products and the rounds of their reduction.
unfoldable computed : List ℕ → Bool
unfolding split split_loop eliminate even_step even_round even_three even_four even_five even_six
    even_seven even_eight odd_step odd_round odd_three odd_four odd_five odd_six odd_seven odd_eight
    non_zero_to_all_ones sub32 collect reduce_degree reduce_carry sm2_p256_carry mul_products
    field_mul even_safe safe_rounds to_big to_big_loop
computed a = safe_products (mul_products a (field_mul a a))

large-safe : safe_products (mul_products large large) ≡ true
unfolding computed
large-safe = refl

field_mul-to_big_example :
    (to_big (field_mul large large) ≡ to_big large * to_big large % prime)
    × IsElement (field_mul large large)
field_mul-to_big_example = field_mul-to_big large large large-IsElement large-IsElement large-safe

field_mul-IsElement_example :
    ((collect 0 (eliminate true 9 (split (mul_products large large)))).1 * 9 + 8
      < length sm2_p256_carry)
    × IsElement (field_mul large large)
field_mul-IsElement_example = field_mul-IsElement large large refl refl

to_big-from_big_example :
    (to_big (from_big (prime + 5)) ≡ (prime + 5) % prime) × IsElement (from_big (prime + 5))
to_big-from_big_example = to_big-from_big (prime + 5)

-- Two elements whose product a round spoils: it lends from a limb that is zero and gets `x >> 1`,
-- which is zero too.
abbrev spoiled : List ℕ
spoiled = 268435455 ∷ 0 ∷ 0 ∷ 0 ∷ 1 ∷ 2 ∷ 268435456 ∷ 0 ∷ 268435455 ∷ []

abbrev spoiler : List ℕ
spoiler = 0 ∷ 2 ∷ 0 ∷ 0 ∷ 0 ∷ 0 ∷ 0 ∷ 0 ∷ 2 ∷ []

spoiled_product :
    (to_big (field_mul spoiled spoiler) == to_big spoiled * to_big spoiler % prime) ≡ false
unfolding computed
spoiled_product = refl

spoiled_round : safe_products (mul_products spoiled spoiler) ≡ false
unfolding computed
spoiled_round = refl
