-- ===== src/Sm2/Field/Degree/Even.antt =====
-- The borrows of a round of `sm2P256ReduceDegree` at an even position.
use gmsm.Common.{ℕ, ◌+◌, ◌-◌, ◌*◌, ◌/◌, ◌%◌, ◌^◌, ◌≤◌, ◌<◌, ◌≡◌, ap, ◌∙◌, bit_and, and_mask, arith}
use gmsm.Sm2.Field.{sub32}
use gmsm.Sm2.Field.Degree.{
  shl32, non_zero_to_all_ones, masked, even_three, even_six, even_five, even_four, even_eight,
  even_seven,
}

-- `nonZeroToAllOnes` of a number that is not zero keeps every bit of a `uint32`.
pub masked_all : (c x : ℕ) → c < 2 ^ 32 → 0 < x → x ≤ 2 ^ 31 → masked c x ≡ c
unfolding non_zero_to_all_ones sub32
masked_all c x hc hx low =
    ap (bit_and c) {y = 2 ^ 32 - 1} (omega arith) ∙ and_mask 32 c ∙ omega arith

pub three_lem :
    (x t3 : ℕ)
    → 0 < x
    → x < 2 ^ 29
    → t3 < 2 ^ 29 + 2 ^ 7
    → ((even_three x t3).0 + x * 2 ^ 10 % 2 ^ 28 ≡ t3 + x / 2 ^ 22 + 2 ^ 28 * (even_three x t3).1)
      × ((even_three x t3).0 < 2 ^ 29 + 2 ^ 8)
      × ((even_three x t3).1 ≤ 1)
unfolding even_three sub32
three_lem x t3 h0 h h3 =
    ground (arith, masked_all 0x10000000 x (omega arith) h0 (omega arith), and_mask 28 (shl32 x 10))

six_lem :
    (x t6 : ℕ)
    → 0 < x
    → x < 2 ^ 29
    → t6 ≤ 2 ^ 30
    → ((even_six x t6).0 + 1 ≡ t6 + 2 ^ 29 * (even_six x t6).1)
      × ((even_six x t6).0 ≤ 2 ^ 30)
      × ((even_six x t6).1 ≤ 1)
unfolding even_six sub32
six_lem x t6 h0 h h6 = ground (arith, masked_all 0x20000000 x (omega arith) h0 (omega arith))

five_lem :
    (x t5 t6 : ℕ)
    → 0 < x
    → x < 2 ^ 29
    → t5 ≤ 2 ^ 29
    → t6 ≤ 2 ^ 30
    → ((even_five x t5 t6).0 + 2 ^ 28 * (even_five x t5 t6).1 + 1
        ≡ t5 + 2 ^ 28 * t6 + 2 ^ 57 * (even_five x t5 t6).2)
      × ((even_five x t5 t6).0 ≤ 2 ^ 29)
      × ((even_five x t5 t6).1 ≤ 2 ^ 30)
      × ((even_five x t5 t6).2 ≤ 1)
unfolding even_five sub32
five_lem x t5 t6 h0 h h5 h6 =
    ground (arith, six_lem x t6 h0 h h6, masked_all 0x10000000 x (omega arith) h0 (omega arith))

pub four_lem :
    (x set4 t4 t5 t6 : ℕ)
    → 0 < x
    → x < 2 ^ 29
    → set4 ≤ 1
    → t4 ≤ 2 ^ 30
    → t5 ≤ 2 ^ 29
    → t6 ≤ 2 ^ 30
    → ((even_four x set4 t4 t5 t6).0
          + 2 ^ 29 * (even_four x set4 t4 t5 t6).1
          + 2 ^ 57 * (even_four x set4 t4 t5 t6).2
          + set4
          + x / 2 ^ 18
        ≡ t4 + 2 ^ 29 * t5 + 2 ^ 57 * t6 + 2 ^ 86 * (even_four x set4 t4 t5 t6).3)
      × ((even_four x set4 t4 t5 t6).0 ≤ 2 ^ 30)
      × ((even_four x set4 t4 t5 t6).1 ≤ 2 ^ 29)
      × ((even_four x set4 t4 t5 t6).2 ≤ 2 ^ 30)
      × ((even_four x set4 t4 t5 t6).3 ≤ 1)
unfolding even_four sub32
four_lem x set4 t4 t5 t6 h0 h hs h4 h5 h6 =
    ground
      (arith, five_lem x t5 t6 h0 h h5 h6, masked_all 0x20000000 x (omega arith) h0 (omega arith))

eight_lem :
    (x set8 t8 t9 : ℕ)
    → 0 < x
    → x < 2 ^ 29
    → set8 ≤ 1
    → t8 < 2 ^ 29 + 2 ^ 28
    → t9 < 2 ^ 31 + 2 ^ 10
    → 0 < t9 + x / 2 + t8 / 2 ^ 28
    → ((even_eight x set8 t8 t9).0 + 2 ^ 29 * (even_eight x set8 t8 t9).1 + set8 + x / 2 ^ 4
        ≡ t8 + x * 2 ^ 28 % 2 ^ 29 + 2 ^ 29 * (t9 + x / 2))
      × ((even_eight x set8 t8 t9).0 < 2 ^ 30)
      × ((even_eight x set8 t8 t9).1 < t9 + 2 ^ 28)
unfolding even_eight sub32
eight_lem x set8 t8 t9 h0 h hs h8 h9 safe = ground (
  arith,
  and_mask 29 (shl32 x 28),
  masked_all 0x20000000 x (omega arith) h0 (omega arith),
  masked_all (x / 2) x (omega arith) h0 (omega arith),
  masked_all ((x / 2 + 2 ^ 32 - 1) % 2 ^ 32) x (omega arith) h0 (omega arith),
)

pub seven_lem :
    (x set7 t7 t8 t9 : ℕ)
    → 0 < x
    → x < 2 ^ 29
    → set7 ≤ 1
    → t7 ≤ 2 ^ 29
    → t8 < 2 ^ 29 + 2 ^ 28
    → t9 < 2 ^ 31 + 2 ^ 10
    → 0 < t9 + x / 2 + t8 / 2 ^ 28
    → ((even_seven x set7 t7 t8 t9).0
          + 2 ^ 28 * (even_seven x set7 t7 t8 t9).1
          + 2 ^ 57 * (even_seven x set7 t7 t8 t9).2
          + set7
          + x * 2 ^ 24 % 2 ^ 28
          + 2 ^ 28 * (x / 2 ^ 4)
        ≡ t7 + 2 ^ 28 * (t8 + x * 2 ^ 28 % 2 ^ 29) + 2 ^ 57 * (t9 + x / 2))
      × ((even_seven x set7 t7 t8 t9).0 ≤ 2 ^ 29)
      × ((even_seven x set7 t7 t8 t9).1 < 2 ^ 30)
      × ((even_seven x set7 t7 t8 t9).2 < t9 + 2 ^ 28)
unfolding even_seven sub32
seven_lem x set7 t7 t8 t9 h0 h hs h7 h8 h9 safe = ground (
  arith,
  and_mask 28 (shl32 x 24),
  masked_all 0x10000000 x (omega arith) h0 (omega arith),
  eight_lem x 0 t8 t9 h0 h (omega arith) h8 h9 safe,
  eight_lem x 1 t8 t9 h0 h (omega arith) h8 h9 safe,
)
