-- ===== src/Sm2/Field/Product/Value.antt =====
-- The products of two elements stand for the product of the numbers that the elements stand for.
use gmsm.Common.{
  ℕ, ◌+◌, ◌*◌, ◌%◌, ◌^◌, ◌<◌, ◌≤◌, ◌≡◌, refl, ap, ◌∙◌, List, [], ◌∷◌, length, arith, true,
}
use native.Mathlib.Nat.{mul-le-mul, mod-eq_of_lt}
use gmsm.Sm2.Field.Sum.{value, IsLimbs, IsLargeElement}
use gmsm.Sm2.Field.Product.{mul_products}

-- One limb times an element.
row :
    (x v b0 b1 b2 b3 b4 b5 b6 b7 b8 : ℕ)
    → v ≡ value true (b0 ∷ b1 ∷ b2 ∷ b3 ∷ b4 ∷ b5 ∷ b6 ∷ b7 ∷ b8 ∷ [])
    → x * v
      ≡ x * b0
        + 2 ^ 29 * (x * b1)
        + 2 ^ 57 * (x * b2)
        + 2 ^ 86 * (x * b3)
        + 2 ^ 114 * (x * b4)
        + 2 ^ 143 * (x * b5)
        + 2 ^ 171 * (x * b6)
        + 2 ^ 200 * (x * b7)
        + 2 ^ 228 * (x * b8)
unfolding value
row x v b0 b1 b2 b3 b4 b5 b6 b7 b8 e = ap (λ (t : ℕ). x * t) e ∙ omega arith

exact :
    (a0 a1 a2 a3 a4 a5 a6 a7 a8 b0 b1 b2 b3 b4 b5 b6 b7 b8 v : ℕ)
    → v ≡ value true (b0 ∷ b1 ∷ b2 ∷ b3 ∷ b4 ∷ b5 ∷ b6 ∷ b7 ∷ b8 ∷ [])
    → value true (
        (a0 * b0)
        ∷ (a0 * b1 + a1 * b0)
        ∷ (a0 * b2 + a1 * (b1 * 2) + a2 * b0)
        ∷ (a0 * b3 + a1 * b2 + a2 * b1 + a3 * b0)
        ∷ (a0 * b4 + a1 * (b3 * 2) + a2 * b2 + a3 * (b1 * 2) + a4 * b0)
        ∷ (a0 * b5 + a1 * b4 + a2 * b3 + a3 * b2 + a4 * b1 + a5 * b0)
        ∷ (a0 * b6 + a1 * (b5 * 2) + a2 * b4 + a3 * (b3 * 2) + a4 * b2 + a5 * (b1 * 2) + a6 * b0)
        ∷ (a0 * b7 + a1 * b6 + a2 * b5 + a3 * b4 + a4 * b3 + a5 * b2 + a6 * b1 + a7 * b0)
        ∷ (a0 * b8
            + a1 * (b7 * 2)
            + a2 * b6
            + a3 * (b5 * 2)
            + a4 * b4
            + a5 * (b3 * 2)
            + a6 * b2
            + a7 * (b1 * 2)
            + a8 * b0)
        ∷ (a1 * b8 + a2 * b7 + a3 * b6 + a4 * b5 + a5 * b4 + a6 * b3 + a7 * b2 + a8 * b1)
        ∷ (a2 * b8 + a3 * (b7 * 2) + a4 * b6 + a5 * (b5 * 2) + a6 * b4 + a7 * (b3 * 2) + a8 * b2)
        ∷ (a3 * b8 + a4 * b7 + a5 * b6 + a6 * b5 + a7 * b4 + a8 * b3)
        ∷ (a4 * b8 + a5 * (b7 * 2) + a6 * b6 + a7 * (b5 * 2) + a8 * b4)
        ∷ (a5 * b8 + a6 * b7 + a7 * b6 + a8 * b5)
        ∷ (a6 * b8 + a7 * (b7 * 2) + a8 * b6)
        ∷ (a7 * b8 + a8 * b7)
        ∷ (a8 * b8)
        ∷ [])
      ≡ value true (a0 ∷ a1 ∷ a2 ∷ a3 ∷ a4 ∷ a5 ∷ a6 ∷ a7 ∷ a8 ∷ []) * v
unfolding value
exact a0 a1 a2 a3 a4 a5 a6 a7 a8 b0 b1 b2 b3 b4 b5 b6 b7 b8 v e = omega (
  arith,
  row a0 v b0 b1 b2 b3 b4 b5 b6 b7 b8 e,
  row a1 v b0 b1 b2 b3 b4 b5 b6 b7 b8 e,
  row a2 v b0 b1 b2 b3 b4 b5 b6 b7 b8 e,
  row a3 v b0 b1 b2 b3 b4 b5 b6 b7 b8 e,
  row a4 v b0 b1 b2 b3 b4 b5 b6 b7 b8 e,
  row a5 v b0 b1 b2 b3 b4 b5 b6 b7 b8 e,
  row a6 v b0 b1 b2 b3 b4 b5 b6 b7 b8 e,
  row a7 v b0 b1 b2 b3 b4 b5 b6 b7 b8 e,
  row a8 v b0 b1 b2 b3 b4 b5 b6 b7 b8 e,
)

-- Products of limbs.
wide_wide : (x y : ℕ) → x < 2 ^ 30 → y < 2 ^ 30 → x * y ≤ 2 ^ 60
wide_wide x y hx hy = mul-le-mul {n₂ = 2 ^ 30} {m₂ = 2 ^ 30} (omega arith) (omega arith)

wide_narrow : (x y : ℕ) → x < 2 ^ 30 → y < 2 ^ 29 → x * y ≤ 2 ^ 59
wide_narrow x y hx hy = mul-le-mul {n₂ = 2 ^ 30} {m₂ = 2 ^ 29} (omega arith) (omega arith)

narrow_wide : (x y : ℕ) → x < 2 ^ 29 → y < 2 ^ 30 → x * y ≤ 2 ^ 59
narrow_wide x y hx hy = mul-le-mul {n₂ = 2 ^ 29} {m₂ = 2 ^ 30} (omega arith) (omega arith)

narrow_narrow : (x y : ℕ) → x < 2 ^ 29 → y < 2 ^ 29 → x * y ≤ 2 ^ 58
narrow_narrow x y hx hy = mul-le-mul {n₂ = 2 ^ 29} {m₂ = 2 ^ 29} (omega arith) (omega arith)

fits : (n : ℕ) → n < 2 ^ 64 → n % 2 ^ 64 ≡ n
fits n h = mod-eq_of_lt h

-- No product overflows.
mul_products-exact :
    (a0 a1 a2 a3 a4 a5 a6 a7 a8 b0 b1 b2 b3 b4 b5 b6 b7 b8 : ℕ)
    → IsLimbs true (a0 ∷ a1 ∷ a2 ∷ a3 ∷ a4 ∷ a5 ∷ a6 ∷ a7 ∷ a8 ∷ [])
    → IsLimbs true (b0 ∷ b1 ∷ b2 ∷ b3 ∷ b4 ∷ b5 ∷ b6 ∷ b7 ∷ b8 ∷ [])
    → mul_products
        (a0 ∷ a1 ∷ a2 ∷ a3 ∷ a4 ∷ a5 ∷ a6 ∷ a7 ∷ a8 ∷ [])
        (b0 ∷ b1 ∷ b2 ∷ b3 ∷ b4 ∷ b5 ∷ b6 ∷ b7 ∷ b8 ∷ [])
      ≡ (a0 * b0)
        ∷ (a0 * b1 + a1 * b0)
        ∷ (a0 * b2 + a1 * (b1 * 2) + a2 * b0)
        ∷ (a0 * b3 + a1 * b2 + a2 * b1 + a3 * b0)
        ∷ (a0 * b4 + a1 * (b3 * 2) + a2 * b2 + a3 * (b1 * 2) + a4 * b0)
        ∷ (a0 * b5 + a1 * b4 + a2 * b3 + a3 * b2 + a4 * b1 + a5 * b0)
        ∷ (a0 * b6 + a1 * (b5 * 2) + a2 * b4 + a3 * (b3 * 2) + a4 * b2 + a5 * (b1 * 2) + a6 * b0)
        ∷ (a0 * b7 + a1 * b6 + a2 * b5 + a3 * b4 + a4 * b3 + a5 * b2 + a6 * b1 + a7 * b0)
        ∷ (a0 * b8
            + a1 * (b7 * 2)
            + a2 * b6
            + a3 * (b5 * 2)
            + a4 * b4
            + a5 * (b3 * 2)
            + a6 * b2
            + a7 * (b1 * 2)
            + a8 * b0)
        ∷ (a1 * b8 + a2 * b7 + a3 * b6 + a4 * b5 + a5 * b4 + a6 * b3 + a7 * b2 + a8 * b1)
        ∷ (a2 * b8 + a3 * (b7 * 2) + a4 * b6 + a5 * (b5 * 2) + a6 * b4 + a7 * (b3 * 2) + a8 * b2)
        ∷ (a3 * b8 + a4 * b7 + a5 * b6 + a6 * b5 + a7 * b4 + a8 * b3)
        ∷ (a4 * b8 + a5 * (b7 * 2) + a6 * b6 + a7 * (b5 * 2) + a8 * b4)
        ∷ (a5 * b8 + a6 * b7 + a7 * b6 + a8 * b5)
        ∷ (a6 * b8 + a7 * (b7 * 2) + a8 * b6)
        ∷ (a7 * b8 + a8 * b7)
        ∷ (a8 * b8)
        ∷ []
unfolding mul_products IsLimbs
mul_products-exact a0 a1 a2 a3 a4 a5 a6 a7 a8 b0 b1 b2 b3 b4 b5 b6 b7 b8
      (h0, (h1, (h2, (h3, (h4, (h5, (h6, (h7, (h8, _)))))))))
      (g0, (g1, (g2, (g3, (g4, (g5, (g6, (g7, (g8, _))))))))) =
    λ i.
      fits (a0 * b0) (omega (arith, wide_wide a0 b0 h0 g0)) i
      ∷ fits (a0 * b1 + a1 * b0) (omega (arith, wide_narrow a0 b1 h0 g1, narrow_wide a1 b0 h1 g0)) i
      ∷ fits (a0 * b2 + a1 * (b1 * 2) + a2 * b0)
          (omega (arith, wide_wide a0 b2 h0 g2, narrow_narrow a1 b1 h1 g1, wide_wide a2 b0 h2 g0)) i
      ∷ fits (a0 * b3 + a1 * b2 + a2 * b1 + a3 * b0)
          (omega (
            arith,
            wide_narrow a0 b3 h0 g3,
            narrow_wide a1 b2 h1 g2,
            wide_narrow a2 b1 h2 g1,
            narrow_wide a3 b0 h3 g0,
          ))
          i
      ∷ fits (a0 * b4 + a1 * (b3 * 2) + a2 * b2 + a3 * (b1 * 2) + a4 * b0)
          (omega (
            arith,
            wide_wide a0 b4 h0 g4,
            narrow_narrow a1 b3 h1 g3,
            wide_wide a2 b2 h2 g2,
            narrow_narrow a3 b1 h3 g1,
            wide_wide a4 b0 h4 g0,
          ))
          i
      ∷ fits (a0 * b5 + a1 * b4 + a2 * b3 + a3 * b2 + a4 * b1 + a5 * b0)
          (omega (
            arith,
            wide_narrow a0 b5 h0 g5,
            narrow_wide a1 b4 h1 g4,
            wide_narrow a2 b3 h2 g3,
            narrow_wide a3 b2 h3 g2,
            wide_narrow a4 b1 h4 g1,
            narrow_wide a5 b0 h5 g0,
          ))
          i
      ∷ fits (a0 * b6 + a1 * (b5 * 2) + a2 * b4 + a3 * (b3 * 2) + a4 * b2 + a5 * (b1 * 2) + a6 * b0)
          (omega (
            arith,
            wide_wide a0 b6 h0 g6,
            narrow_narrow a1 b5 h1 g5,
            wide_wide a2 b4 h2 g4,
            narrow_narrow a3 b3 h3 g3,
            wide_wide a4 b2 h4 g2,
            narrow_narrow a5 b1 h5 g1,
            wide_wide a6 b0 h6 g0,
          ))
          i
      ∷ fits (a0 * b7 + a1 * b6 + a2 * b5 + a3 * b4 + a4 * b3 + a5 * b2 + a6 * b1 + a7 * b0)
          (omega (
            arith,
            wide_narrow a0 b7 h0 g7,
            narrow_wide a1 b6 h1 g6,
            wide_narrow a2 b5 h2 g5,
            narrow_wide a3 b4 h3 g4,
            wide_narrow a4 b3 h4 g3,
            narrow_wide a5 b2 h5 g2,
            wide_narrow a6 b1 h6 g1,
            narrow_wide a7 b0 h7 g0,
          ))
          i
      ∷ fits
          (a0 * b8
            + a1 * (b7 * 2)
            + a2 * b6
            + a3 * (b5 * 2)
            + a4 * b4
            + a5 * (b3 * 2)
            + a6 * b2
            + a7 * (b1 * 2)
            + a8 * b0)
          (omega (
            arith,
            wide_wide a0 b8 h0 g8,
            narrow_narrow a1 b7 h1 g7,
            wide_wide a2 b6 h2 g6,
            narrow_narrow a3 b5 h3 g5,
            wide_wide a4 b4 h4 g4,
            narrow_narrow a5 b3 h5 g3,
            wide_wide a6 b2 h6 g2,
            narrow_narrow a7 b1 h7 g1,
            wide_wide a8 b0 h8 g0,
          ))
          i
      ∷ fits (a1 * b8 + a2 * b7 + a3 * b6 + a4 * b5 + a5 * b4 + a6 * b3 + a7 * b2 + a8 * b1)
          (omega (
            arith,
            narrow_wide a1 b8 h1 g8,
            wide_narrow a2 b7 h2 g7,
            narrow_wide a3 b6 h3 g6,
            wide_narrow a4 b5 h4 g5,
            narrow_wide a5 b4 h5 g4,
            wide_narrow a6 b3 h6 g3,
            narrow_wide a7 b2 h7 g2,
            wide_narrow a8 b1 h8 g1,
          ))
          i
      ∷ fits (a2 * b8 + a3 * (b7 * 2) + a4 * b6 + a5 * (b5 * 2) + a6 * b4 + a7 * (b3 * 2) + a8 * b2)
          (omega (
            arith,
            wide_wide a2 b8 h2 g8,
            narrow_narrow a3 b7 h3 g7,
            wide_wide a4 b6 h4 g6,
            narrow_narrow a5 b5 h5 g5,
            wide_wide a6 b4 h6 g4,
            narrow_narrow a7 b3 h7 g3,
            wide_wide a8 b2 h8 g2,
          ))
          i
      ∷ fits (a3 * b8 + a4 * b7 + a5 * b6 + a6 * b5 + a7 * b4 + a8 * b3)
          (omega (
            arith,
            narrow_wide a3 b8 h3 g8,
            wide_narrow a4 b7 h4 g7,
            narrow_wide a5 b6 h5 g6,
            wide_narrow a6 b5 h6 g5,
            narrow_wide a7 b4 h7 g4,
            wide_narrow a8 b3 h8 g3,
          ))
          i
      ∷ fits (a4 * b8 + a5 * (b7 * 2) + a6 * b6 + a7 * (b5 * 2) + a8 * b4)
          (omega (
            arith,
            wide_wide a4 b8 h4 g8,
            narrow_narrow a5 b7 h5 g7,
            wide_wide a6 b6 h6 g6,
            narrow_narrow a7 b5 h7 g5,
            wide_wide a8 b4 h8 g4,
          ))
          i
      ∷ fits (a5 * b8 + a6 * b7 + a7 * b6 + a8 * b5)
          (omega (
            arith,
            narrow_wide a5 b8 h5 g8,
            wide_narrow a6 b7 h6 g7,
            narrow_wide a7 b6 h7 g6,
            wide_narrow a8 b5 h8 g5,
          ))
          i
      ∷ fits (a6 * b8 + a7 * (b7 * 2) + a8 * b6)
          (omega (arith, wide_wide a6 b8 h6 g8, narrow_narrow a7 b7 h7 g7, wide_wide a8 b6 h8 g6)) i
      ∷ fits (a7 * b8 + a8 * b7) (omega (arith, narrow_wide a7 b8 h7 g8, wide_narrow a8 b7 h8 g7)) i
      ∷ fits (a8 * b8) (omega (arith, wide_wide a8 b8 h8 g8)) i
      ∷ []

bounds :
    (a0 a1 a2 a3 a4 a5 a6 a7 a8 b0 b1 b2 b3 b4 b5 b6 b7 b8 : ℕ)
    → IsLimbs true (a0 ∷ a1 ∷ a2 ∷ a3 ∷ a4 ∷ a5 ∷ a6 ∷ a7 ∷ a8 ∷ [])
    → IsLimbs true (b0 ∷ b1 ∷ b2 ∷ b3 ∷ b4 ∷ b5 ∷ b6 ∷ b7 ∷ b8 ∷ [])
    → IsLargeElement (
        mul_products
          (a0 ∷ a1 ∷ a2 ∷ a3 ∷ a4 ∷ a5 ∷ a6 ∷ a7 ∷ a8 ∷ [])
          (b0 ∷ b1 ∷ b2 ∷ b3 ∷ b4 ∷ b5 ∷ b6 ∷ b7 ∷ b8 ∷ []))
unfolding IsLargeElement mul_products IsLimbs
bounds a0 a1 a2 a3 a4 a5 a6 a7 a8 b0 b1 b2 b3 b4 b5 b6 b7 b8
      (h0, (h1, (h2, (h3, (h4, (h5, (h6, (h7, (h8, _)))))))))
      (g0, (g1, (g2, (g3, (g4, (g5, (g6, (g7, (g8, _))))))))) =
    omega (arith, wide_wide a8 b8 h8 g8)

-- For two elements of nine limbs, each with at most one bit more than its width, the seventeen
-- products do not overflow, and stand for the product of the numbers that the elements stand for.
pub mul_products-value :
    (a b : List ℕ)
    → length a ≡ 9
    → length b ≡ 9
    → IsLimbs true a
    → IsLimbs true b
    → IsLargeElement (mul_products a b)
      × (value true (mul_products a b) ≡ value true a * value true b)
unfolding IsLargeElement
mul_products-value (a0 ∷ a1 ∷ a2 ∷ a3 ∷ a4 ∷ a5 ∷ a6 ∷ a7 ∷ a8 ∷ [])
      (b0 ∷ b1 ∷ b2 ∷ b3 ∷ b4 ∷ b5 ∷ b6 ∷ b7 ∷ b8 ∷ []) size_a size_b ha hb =
    let whole = mul_products-exact a0 a1 a2 a3 a4 a5 a6 a7 a8 b0 b1 b2 b3 b4 b5 b6 b7 b8 ha hb in
    (
      bounds a0 a1 a2 a3 a4 a5 a6 a7 a8 b0 b1 b2 b3 b4 b5 b6 b7 b8 ha hb,
      ap (value true) whole ∙ exact a0 a1 a2 a3 a4 a5 a6 a7 a8 b0 b1 b2 b3 b4 b5 b6 b7 b8 _ refl,
    )
mul_products-value _ _ size_a size_b ha hb = absurd (omega arith)
