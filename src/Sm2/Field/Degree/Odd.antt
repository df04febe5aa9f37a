-- ===== src/Sm2/Field/Degree/Odd.antt =====
-- A round of `sm2P256ReduceDegree` at an odd position adds a multiple of the prime.
use gmsm.Common.{
  ℕ, zero, suc, ◌+◌, ◌-◌, ◌*◌, ◌/◌, ◌%◌, ◌^◌, ◌≤◌, ◌<◌, ◌≡◌, refl, sym, ap, bit_and, and_mask, ltb,
  ltb-true, subst, if◌then◌else◌, List, ◌∷◌, length, arith, Bool, true, false,
}
use gmsm.Sm2.Field.{sub32, prime}
use gmsm.Sm2.Field.Sum.{value}
use gmsm.Sm2.Field.Degree.Split.{IsSplit}
use gmsm.Sm2.Field.Degree.Even.{masked_all}
use gmsm.Sm2.Field.Degree.EvenStep.{IsEvenReady, IsOddReady, IsBehind}
use gmsm.Sm2.Field.Degree.{
  wrap32, shl32, odd_three, odd_six, odd_five, odd_four, odd_eight, odd_seven, odd_round, odd_step,
}

three_lem :
    (x t3 : ℕ)
    → 0 < x
    → x < 2 ^ 28
    → t3 ≤ 2 ^ 30
    → ((odd_three x t3).0 + x * 2 ^ 11 % 2 ^ 29 ≡ t3 + x / 2 ^ 21 + 2 ^ 29 * (odd_three x t3).1)
      × ((odd_three x t3).0 < 2 ^ 30 + 2 ^ 7)
      × ((odd_three x t3).1 ≤ 1)
unfolding odd_three sub32
three_lem x t3 h0 h h3 =
    ground (arith, masked_all 0x20000000 x (omega arith) h0 (omega arith), and_mask 29 (shl32 x 11))

six_lem :
    (x t6 : ℕ)
    → 0 < x
    → x < 2 ^ 28
    → t6 ≤ 2 ^ 29
    → ((odd_six x t6).0 + 1 ≡ t6 + 2 ^ 28 * (odd_six x t6).1)
      × ((odd_six x t6).0 ≤ 2 ^ 29)
      × ((odd_six x t6).1 ≤ 1)
unfolding odd_six sub32
six_lem x t6 h0 h h6 = ground (arith, masked_all 0x10000000 x (omega arith) h0 (omega arith))

five_lem :
    (x t5 t6 : ℕ)
    → 0 < x
    → x < 2 ^ 28
    → t5 ≤ 2 ^ 30
    → t6 ≤ 2 ^ 29
    → ((odd_five x t5 t6).0 + 2 ^ 29 * (odd_five x t5 t6).1 + 1
        ≡ t5 + 2 ^ 29 * t6 + 2 ^ 57 * (odd_five x t5 t6).2)
      × ((odd_five x t5 t6).0 ≤ 2 ^ 30)
      × ((odd_five x t5 t6).1 ≤ 2 ^ 29)
      × ((odd_five x t5 t6).2 ≤ 1)
unfolding odd_five sub32
five_lem x t5 t6 h0 h h5 h6 =
    ground (arith, six_lem x t6 h0 h h6, masked_all 0x20000000 x (omega arith) h0 (omega arith))

four_lem :
    (x set5 t4 t5 t6 : ℕ)
    → 0 < x
    → x < 2 ^ 28
    → set5 ≤ 1
    → t4 ≤ 2 ^ 29
    → t5 ≤ 2 ^ 30
    → t6 ≤ 2 ^ 29
    → ((odd_four x set5 t4 t5 t6).0
          + 2 ^ 28 * (odd_four x set5 t4 t5 t6).1
          + 2 ^ 57 * (odd_four x set5 t4 t5 t6).2
          + set5
          + x / 2 ^ 18
        ≡ t4 + 2 ^ 28 * t5 + 2 ^ 57 * t6 + 2 ^ 85 * (odd_four x set5 t4 t5 t6).3)
      × ((odd_four x set5 t4 t5 t6).0 ≤ 2 ^ 29)
      × ((odd_four x set5 t4 t5 t6).1 ≤ 2 ^ 30)
      × ((odd_four x set5 t4 t5 t6).2 ≤ 2 ^ 29)
      × ((odd_four x set5 t4 t5 t6).3 ≤ 1)
unfolding odd_four sub32
four_lem x set5 t4 t5 t6 h0 h hs h4 h5 h6 =
    ground
      (arith, five_lem x t5 t6 h0 h h5 h6, masked_all 0x10000000 x (omega arith) h0 (omega arith))

seven_lem :
    (x set8 t7 : ℕ)
    → 0 < x
    → x < 2 ^ 28
    → set8 ≤ 1
    → t7 < 2 ^ 30
    → ((odd_seven x set8 t7).0 + set8 + x * 2 ^ 25 % 2 ^ 29 ≡ t7 + 2 ^ 29 * (odd_seven x set8 t7).1)
      × ((odd_seven x set8 t7).0 ≤ 2 ^ 30)
      × ((odd_seven x set8 t7).1 ≤ 1)
unfolding odd_seven sub32
seven_lem x set8 t7 h0 h hs h7 =
    ground (arith, and_mask 29 (shl32 x 25), masked_all 0x20000000 x (omega arith) h0 (omega arith))

eight_lem :
    (x set9 t8 t9 : ℕ)
    → 0 < x
    → x < 2 ^ 28
    → set9 ≤ 1
    → t8 < 2 ^ 29
    → t9 < 2 ^ 29
    → ((odd_eight x set9 t8 t9).0 + 2 ^ 28 * (odd_eight x set9 t8 t9).1 + set9 + x / 2 ^ 4
        ≡ t8 + 2 ^ 28 * (t9 + x))
      × ((odd_eight x set9 t8 t9).0 ≤ 2 ^ 29)
      × ((odd_eight x set9 t8 t9).1 < 2 ^ 29 + 2 ^ 28)
unfolding odd_eight sub32
eight_lem x set9 t8 t9 h0 h hs h8 h9 = ground (
  arith,
  masked_all 0x10000000 x (omega arith) h0 (omega arith),
  masked_all x x (omega arith) h0 (omega arith),
  masked_all ((x + 2 ^ 32 - 1) % 2 ^ 32) x (omega arith) h0 (omega arith),
)

-- The limbs behind the next one, in a round that makes the limb `x` zero.
odd_rest :
    (x t2 t3 t4 t5 t6 t7 t8 t9 : ℕ) (rest : List ℕ)
    → x < 2 ^ 28
    → t2 < 2 ^ 29 + 2 ^ 8
    → t3 ≤ 2 ^ 30
    → t4 ≤ 2 ^ 29
    → t5 ≤ 2 ^ 30
    → t6 ≤ 2 ^ 29
    → t7 < 2 ^ 30
    → t8 < 2 ^ 29
    → t9 < 2 ^ 29
    → (u2 : ℕ) × (u3 : ℕ) × (u4 : ℕ) × (u5 : ℕ) × (u6 : ℕ) × (u7 : ℕ) × (u8 : ℕ) × (u9 : ℕ)
      × ((if ltb 0 x
            then odd_round x (t2 ∷ t3 ∷ t4 ∷ t5 ∷ t6 ∷ t7 ∷ t8 ∷ t9 ∷ rest)
            else t2 ∷ t3 ∷ t4 ∷ t5 ∷ t6 ∷ t7 ∷ t8 ∷ t9 ∷ rest)
          ≡ u2 ∷ u3 ∷ u4 ∷ u5 ∷ u6 ∷ u7 ∷ u8 ∷ u9 ∷ rest)
      × (u2
            + 2 ^ 28 * u3
            + 2 ^ 57 * u4
            + 2 ^ 85 * u5
            + 2 ^ 114 * u6
            + 2 ^ 142 * u7
            + 2 ^ 171 * u8
            + 2 ^ 199 * u9
            + x * 2 ^ 167
            + x * 2 ^ 39
          ≡ t2
            + 2 ^ 28 * t3
            + 2 ^ 57 * t4
            + 2 ^ 85 * t5
            + 2 ^ 114 * t6
            + 2 ^ 142 * t7
            + 2 ^ 171 * t8
            + 2 ^ 199 * t9
            + x * 2 ^ 199
            + x * 2 ^ 7)
      × (u2 < 2 ^ 30)
      × (u3 < 2 ^ 30 + 2 ^ 7)
      × (u4 ≤ 2 ^ 29)
      × (u5 ≤ 2 ^ 30)
      × (u6 ≤ 2 ^ 29)
      × (u7 ≤ 2 ^ 30)
      × (u8 ≤ 2 ^ 29)
      × (u9 < 2 ^ 29 + 2 ^ 28)
unfolding odd_round
odd_rest zero t2 t3 t4 t5 t6 t7 t8 t9 rest h h2 h3 h4 h5 h6 h7 h8 h9 = (
  t2,
  t3,
  t4,
  t5,
  t6,
  t7,
  t8,
  t9,
  refl,
  refl,
  omega arith,
  omega arith,
  omega arith,
  omega arith,
  omega arith,
  omega arith,
  omega arith,
  omega arith,
)
odd_rest (suc y) t2 t3 t4 t5 t6 t7 t8 t9 rest h h2 h3 h4 h5 h6 h7 h8 h9 =
    let x = suc y in
    let (u3, set5) = odd_three x t3 in
    let (u4, u5, u6, set8) = odd_four x set5 t4 t5 t6 in
    let (u7, set9) = odd_seven x set8 t7 in
    let (u8, u9) = odd_eight x set9 t8 t9 in
    let (e3, b3, c3) = three_lem x t3 (omega arith) h h3 in
    let (e4, b4, b5, b6, c4) = four_lem x set5 t4 t5 t6 (omega arith) h c3 h4 h5 h6 in
    let (e7, b7, c7) = seven_lem x set8 t7 (omega arith) h c4 h7 in
    let (e8, b8, b9) = eight_lem x set9 t8 t9 (omega arith) h c7 h8 h9 in
    let u2 = wrap32 (t2 + bit_and (shl32 x 7) 0xfffffff) in
    (
      u2,
      u3,
      u4,
      u5,
      u6,
      u7,
      u8,
      u9,
      ap
          (λ (b : Bool).
            if b
            then odd_round x (t2 ∷ t3 ∷ t4 ∷ t5 ∷ t6 ∷ t7 ∷ t8 ∷ t9 ∷ rest)
            else t2 ∷ t3 ∷ t4 ∷ t5 ∷ t6 ∷ t7 ∷ t8 ∷ t9 ∷ rest)
          (ltb-true 0 x (omega arith)),
      omega (arith, e3, e4, e7, e8, and_mask 28 (shl32 x 7)),
      omega (arith, and_mask 28 (shl32 x 7)),
      b3,
      b4,
      b5,
      b6,
      b7,
      b8,
      b9,
    )

-- A round at an odd position adds a multiple of the prime.
pub odd_step-value :
    (ts : List ℕ)
    → 11 ≤ length ts
    → IsOddReady ts
    → IsEvenReady (odd_step ts)
      × ((n : ℕ) × (2 ^ 28 * value true (odd_step ts) ≡ value false ts + n * prime))
unfolding IsEvenReady IsOddReady IsBehind IsSplit odd_step value
odd_step-value (t0 ∷ t1 ∷ t2 ∷ t3 ∷ t4 ∷ t5 ∷ t6 ∷ t7 ∷ t8 ∷ t9 ∷ s ∷ rest) size
      (h0, h1, h2, h3, h4, h5, h6, h7, (h8, (h9, h10))) =
    let x = bit_and t0 0xfffffff in
    let low : x < 2 ^ 28 = omega (arith, and_mask 28 t0) in
    let (u2, u3, u4, u5, u6, u7, u8, u9, e, sum, b2, b3, b4, b5, b6, b7, b8, b9) =
      odd_rest x t2 t3 t4 t5 t6 t7 t8 t9 (s ∷ rest) low h2 h3 h4 h5 h6 h7 h8 h9 in
    let w0 = wrap32 (t1 + t0 / 2 ^ 28) in
    subst
      (λ (l : List ℕ).
        IsEvenReady (w0 ∷ l)
        × ((n : ℕ) × (2 ^ 28 * value true (w0 ∷ l)
              ≡ value false (t0 ∷ t1 ∷ t2 ∷ t3 ∷ t4 ∷ t5 ∷ t6 ∷ t7 ∷ t8 ∷ t9 ∷ s ∷ rest)
                + n * prime)))
      (sym e)
      (
        (omega arith, b2, b3, omega (arith, b4), b5, b6, b7, b8, b9, h10),
        (x, omega (arith, sum, and_mask 28 t0)),
      )
odd_step-value _ size h = absurd (omega arith)
