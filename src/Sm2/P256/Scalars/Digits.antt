-- ===== src/Sm2/P256/Scalars/Digits.antt =====
-- The indices that the loops of sm2/p256.go look up.
use gmsm.Common.{
  ℕ, ◌+◌, ◌-◌, ◌*◌, ◌/◌, ◌%◌, ◌^◌, ◌<◌, ◌≡◌, ap, ◌∙◌, bit_or, List, arith, and_mask, or_low_field,
  get_or, All, All-get_or, IsByte,
}
use gmsm.Sm2.P256.Scalars.{get_bit, base_index, window}

-- The bit of a scalar, whose bytes are listed with the lowest first.
pub get_bit-digit :
    (scalar : List ℕ) (bit : ℕ) → get_bit scalar bit ≡ get_or scalar (bit / 8) 0 / 2 ^ (bit % 8) % 2
unfolding get_bit
get_bit-digit scalar bit = and_mask 1 (get_or scalar (bit / 8) 0 / 2 ^ (bit % 8))

get_bit-lt : (scalar : List ℕ) (bit : ℕ) → get_bit scalar bit < 2
get_bit-lt scalar bit = omega (arith, get_bit-digit scalar bit)

-- The index of `sm2P256ScalarBaseMult` has the four bits of the scalar at distance 64 as its digits,
-- and is below sixteen.
pub base_index-digits :
    (scalar : List ℕ) (i j : ℕ)
    → (base_index scalar i j
        ≡ get_bit scalar (31 - i + j)
          + 2 * get_bit scalar (95 - i + j)
          + 4 * get_bit scalar (159 - i + j)
          + 8 * get_bit scalar (223 - i + j))
      × (base_index scalar i j < 16)
unfolding base_index
base_index-digits scalar i j =
    let b0 = get_bit scalar (31 - i + j) in
    let b1 = get_bit scalar (95 - i + j) in
    let b2 = get_bit scalar (159 - i + j) in
    let b3 = get_bit scalar (223 - i + j) in
    let h0 = get_bit-lt scalar (31 - i + j) in
    let h1 = get_bit-lt scalar (95 - i + j) in
    let h2 = get_bit-lt scalar (159 - i + j) in
    let h3 = get_bit-lt scalar (223 - i + j) in
    let sum : base_index scalar i j ≡ b0 + 2 * b1 + 4 * b2 + 8 * b3 =
      ap (λ (t : ℕ). bit_or (bit_or t (b2 * 2 ^ 2)) (b3 * 2 ^ 3)) (or_low_field 1 b1 b0 h0)
      ∙ ap (λ (t : ℕ). bit_or t (b3 * 2 ^ 3)) (or_low_field 2 b2 (b1 * 2 ^ 1 + b0) (omega arith))
      ∙ or_low_field 3 b3 (b2 * 2 ^ 2 + (b1 * 2 ^ 1 + b0)) (omega arith)
      ∙ omega arith in
    (sum, omega (arith, sum))

pub window-lt : (scalar : List ℕ) (i : ℕ) → All IsByte scalar → window scalar i < 16
unfolding window
window-lt scalar i bytes =
    let index = get_or scalar (31 - i / 2) 0 in
    let low : index < 256 = All-get_or IsByte scalar (31 - i / 2) 0 bytes (omega arith) in
    ground (arith, and_mask 4 index)
