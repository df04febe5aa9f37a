-- ===== src/Sm2/Field/Degree/EvenStep.antt =====
-- A round of `sm2P256ReduceDegree` at an even position adds a multiple of the prime.
use gmsm.Common.{
  ℕ, zero, suc, ◌+◌, ◌-◌, ◌*◌, ◌/◌, ◌^◌, ◌≤◌, ◌<◌, ◌≡◌, refl, sym, ap, bit_and, and_mask, ltb,
  ltb→lt, ltb-true, subst, if◌then◌else◌, List, [], ◌∷◌, arith, Bool, true, false,
}
use gmsm.Sm2.Field.{prime}
use gmsm.Sm2.Field.Sum.{value}
use gmsm.Sm2.Field.Degree.Split.{IsSplit}
use gmsm.Sm2.Field.Degree.{wrap32, shl32, even_three, even_four, even_seven, even_round, even_step}
use gmsm.Sm2.Field.Degree.Even.{three_lem, four_lem, seven_lem}

-- The limbs behind the next one, in a round that makes the limb `x` zero.
even_rest :
    (x t2 t3 t4 t5 t6 t7 t8 t9 : ℕ) (rest : List ℕ)
    → x < 2 ^ 29
    → t2 < 2 ^ 30 + 2 ^ 7
    → t3 < 2 ^ 29 + 2 ^ 7
    → t4 ≤ 2 ^ 30
    → t5 ≤ 2 ^ 29
    → t6 ≤ 2 ^ 30
    → t7 ≤ 2 ^ 29
    → t8 < 2 ^ 29 + 2 ^ 28
    → t9 < 2 ^ 31 + 2 ^ 10
    → 0 < t9 + x / 2 + t8 / 2 ^ 28 + (1 - x)
    → (u2 : ℕ) × (u3 : ℕ) × (u4 : ℕ) × (u5 : ℕ) × (u6 : ℕ) × (u7 : ℕ) × (u8 : ℕ) × (u9 : ℕ)
      × ((if ltb 0 x
            then even_round x (t2 ∷ t3 ∷ t4 ∷ t5 ∷ t6 ∷ t7 ∷ t8 ∷ t9 ∷ rest)
            else t2 ∷ t3 ∷ t4 ∷ t5 ∷ t6 ∷ t7 ∷ t8 ∷ t9 ∷ rest)
          ≡ u2 ∷ u3 ∷ u4 ∷ u5 ∷ u6 ∷ u7 ∷ u8 ∷ u9 ∷ rest)
      × (u2
            + 2 ^ 29 * u3
            + 2 ^ 57 * u4
            + 2 ^ 86 * u5
            + 2 ^ 114 * u6
            + 2 ^ 143 * u7
            + 2 ^ 171 * u8
            + 2 ^ 200 * u9
            + x * 2 ^ 167
            + x * 2 ^ 39
          ≡ t2
            + 2 ^ 29 * t3
            + 2 ^ 57 * t4
            + 2 ^ 86 * t5
            + 2 ^ 114 * t6
            + 2 ^ 143 * t7
            + 2 ^ 171 * t8
            + 2 ^ 200 * t9
            + x * 2 ^ 199
            + x * 2 ^ 7)
      × (u2 < 2 ^ 30 + 2 ^ 29 + 2 ^ 7)
      × (u3 < 2 ^ 29 + 2 ^ 8)
      × (u4 ≤ 2 ^ 30)
      × (u5 ≤ 2 ^ 29)
      × (u6 ≤ 2 ^ 30)
      × (u7 ≤ 2 ^ 29)
      × (u8 < 2 ^ 30)
      × (u9 < t9 + 2 ^ 28)
unfolding even_round
even_rest zero t2 t3 t4 t5 t6 t7 t8 t9 rest h h2 h3 h4 h5 h6 h7 h8 h9 safe = (
  t2,
  t3,
  t4,
  t5,
  t6,
  t7,
  t8,
  t9,
  refl,
  refl,
  omega arith,
  omega arith,
  omega arith,
  omega arith,
  omega arith,
  omega arith,
  omega arith,
  omega arith,
)
even_rest (suc y) t2 t3 t4 t5 t6 t7 t8 t9 rest h h2 h3 h4 h5 h6 h7 h8 h9 safe =
    let x = suc y in
    let (u3, set4) = even_three x t3 in
    let (u4, u5, u6, set7) = even_four x set4 t4 t5 t6 in
    let (u7, u8, u9) = even_seven x set7 t7 t8 t9 in
    let (e3, b3, c3) = three_lem x t3 (omega arith) h h3 in
    let (e4, b4, b5, b6, c4) = four_lem x set4 t4 t5 t6 (omega arith) h c3 h4 h5 h6 in
    let (e7, b7, b8, b9) =
      seven_lem x set7 t7 t8 t9 (omega arith) h (omega (arith, c4)) h7 h8 h9 (omega arith) in
    let u2 = wrap32 (t2 + bit_and (shl32 x 7) 0x1fffffff) in
    (
      u2,
      u3,
      u4,
      u5,
      u6,
      u7,
      u8,
      u9,
      ap
          (λ (b : Bool).
            if b
            then even_round x (t2 ∷ t3 ∷ t4 ∷ t5 ∷ t6 ∷ t7 ∷ t8 ∷ t9 ∷ rest)
            else t2 ∷ t3 ∷ t4 ∷ t5 ∷ t6 ∷ t7 ∷ t8 ∷ t9 ∷ rest)
          (ltb-true 0 x (omega arith)),
      omega (arith, e3, e4, e7, and_mask 29 (shl32 x 7)),
      omega (arith, and_mask 29 (shl32 x 7)),
      b3,
      b4,
      b5,
      b6,
      b7,
      b8,
      b9,
    )

-- The limbs from the last that the round changes on.
unfoldable pub IsBehind : ℕ → List ℕ → Type 0
IsBehind w [] = w < 2 ^ 31 + 2 ^ 10 + 2 ^ 28
IsBehind w (t ∷ ts) = (w < 2 ^ 29) × IsSplit true (t ∷ ts)

-- The limbs at an even position, the first of which becomes zero.
unfoldable pub IsEvenReady : List ℕ → Type 0
IsEvenReady (t0 ∷ t1 ∷ t2 ∷ t3 ∷ t4 ∷ t5 ∷ t6 ∷ t7 ∷ t8 ∷ t9 ∷ rest) =
    (t0 < 2 ^ 31)
    × (t1 < 2 ^ 30)
    × (t2 < 2 ^ 30 + 2 ^ 7)
    × (t3 < 2 ^ 29 + 2 ^ 7)
    × (t4 ≤ 2 ^ 30)
    × (t5 ≤ 2 ^ 29)
    × (t6 ≤ 2 ^ 30)
    × (t7 ≤ 2 ^ 29)
    × (t8 < 2 ^ 29 + 2 ^ 28)
    × IsSplit false (t9 ∷ rest)
IsEvenReady _ = ⊥

-- What a round at an even position leaves.
unfoldable pub IsOddReady : List ℕ → Type 0
IsOddReady (w0 ∷ w1 ∷ w2 ∷ w3 ∷ w4 ∷ w5 ∷ w6 ∷ w7 ∷ w8 ∷ rest) =
    (w0 < 2 ^ 31)
    × (w1 < 2 ^ 30 + 2 ^ 29 + 2 ^ 7)
    × (w2 < 2 ^ 29 + 2 ^ 8)
    × (w3 ≤ 2 ^ 30)
    × (w4 ≤ 2 ^ 29)
    × (w5 ≤ 2 ^ 30)
    × (w6 ≤ 2 ^ 29)
    × (w7 < 2 ^ 30)
    × IsBehind w8 rest
IsOddReady _ = ⊥

pub split_head : (t : ℕ) (ts : List ℕ) → IsSplit false (t ∷ ts) → t < 2 ^ 31 + 2 ^ 10
unfolding IsSplit
split_head t [] h = h
split_head t (u ∷ ts) (h, rest) = omega arith

behind : (t w : ℕ) (ts : List ℕ) → w < t + 2 ^ 28 → IsSplit false (t ∷ ts) → IsBehind w ts
unfolding IsSplit IsBehind
behind t w [] low h = omega arith
behind t w (u ∷ ts) low (h, rest) = (omega arith, rest)

-- Where `x` is one, the limb that gets `x >> 1` can give what it lends.
unfoldable pub even_safe : List ℕ → Bool
even_safe (t0 ∷ t1 ∷ t2 ∷ t3 ∷ t4 ∷ t5 ∷ t6 ∷ t7 ∷ t8 ∷ t9 ∷ rest) =
    let x = bit_and t0 0x1fffffff in ltb 0 (t9 + x / 2 + t8 / 2 ^ 28 + (1 - x))
even_safe _ = false

-- A round at an even position adds a multiple of the prime, where the last borrow can be taken.
pub even_step-value :
    (ts : List ℕ)
    → IsEvenReady ts
    → even_safe ts ≡ true
    → IsOddReady (even_step ts)
      × ((n : ℕ) × (2 ^ 29 * value false (even_step ts) ≡ value true ts + n * prime))
unfolding IsEvenReady IsOddReady even_step even_safe value
even_step-value (t0 ∷ t1 ∷ t2 ∷ t3 ∷ t4 ∷ t5 ∷ t6 ∷ t7 ∷ t8 ∷ t9 ∷ rest)
      (h0, h1, h2, h3, h4, h5, h6, h7, h8, h9) safe =
    let x = bit_and t0 0x1fffffff in
    let low : x < 2 ^ 29 = omega (arith, and_mask 29 t0) in
    let last = split_head t9 rest h9 in
    let (u2, u3, u4, u5, u6, u7, u8, u9, e, sum, b2, b3, b4, b5, b6, b7, b8, b9) =
      even_rest x t2 t3 t4 t5 t6 t7 t8 t9 rest low h2 h3 h4 h5 h6 h7 h8 last
        (ltb→lt 0 (t9 + x / 2 + t8 / 2 ^ 28 + (1 - x)) safe) in
    let w0 = wrap32 (t1 + t0 / 2 ^ 29) in
    subst
      (λ (l : List ℕ).
        IsOddReady (w0 ∷ l)
        × ((n : ℕ) × (2 ^ 29 * value false (w0 ∷ l)
              ≡ value true (t0 ∷ t1 ∷ t2 ∷ t3 ∷ t4 ∷ t5 ∷ t6 ∷ t7 ∷ t8 ∷ t9 ∷ rest) + n * prime)))
      (sym e)
      (
        (omega arith, b2, b3, b4, b5, b6, b7, b8, behind t9 u9 rest b9 h9),
        (x, omega (arith, sum, and_mask 29 t0)),
      )
even_step-value _ h safe = absurd h
