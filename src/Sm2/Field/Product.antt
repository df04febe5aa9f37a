-- ===== src/Sm2/Field/Product.antt =====
-- sm2/p256.go: `sm2P256Mul` and `sm2P256Square`, which make seventeen products, `uint64`s, first. A sum of
-- products is reduced once, at its end.
pub mod Square
pub mod Value
use gmsm.Common.{ℕ, ◌+◌, ◌*◌, ◌%◌, ◌^◌, List, [], ◌∷◌}
use gmsm.Sm2.Field.Degree.{reduce_degree}

unfoldable pub mul_products : List ℕ → List ℕ → List ℕ
mul_products (a0 ∷ a1 ∷ a2 ∷ a3 ∷ a4 ∷ a5 ∷ a6 ∷ a7 ∷ a8 ∷ [])
      (b0 ∷ b1 ∷ b2 ∷ b3 ∷ b4 ∷ b5 ∷ b6 ∷ b7 ∷ b8 ∷ []) =
    (a0 * b0) % 2 ^ 64
    ∷ (a0 * b1 + a1 * b0) % 2 ^ 64
    ∷ (a0 * b2 + a1 * (b1 * 2) + a2 * b0) % 2 ^ 64
    ∷ (a0 * b3 + a1 * b2 + a2 * b1 + a3 * b0) % 2 ^ 64
    ∷ (a0 * b4 + a1 * (b3 * 2) + a2 * b2 + a3 * (b1 * 2) + a4 * b0) % 2 ^ 64
    ∷ (a0 * b5 + a1 * b4 + a2 * b3 + a3 * b2 + a4 * b1 + a5 * b0) % 2 ^ 64
    ∷ (a0 * b6 + a1 * (b5 * 2) + a2 * b4 + a3 * (b3 * 2) + a4 * b2 + a5 * (b1 * 2) + a6 * b0)
      % 2 ^ 64
    ∷ (a0 * b7 + a1 * b6 + a2 * b5 + a3 * b4 + a4 * b3 + a5 * b2 + a6 * b1 + a7 * b0) % 2 ^ 64
    ∷ (a0 * b8
        + a1 * (b7 * 2)
        + a2 * b6
        + a3 * (b5 * 2)
        + a4 * b4
        + a5 * (b3 * 2)
        + a6 * b2
        + a7 * (b1 * 2)
        + a8 * b0)
      % 2 ^ 64
    ∷ (a1 * b8 + a2 * b7 + a3 * b6 + a4 * b5 + a5 * b4 + a6 * b3 + a7 * b2 + a8 * b1) % 2 ^ 64
    ∷ (a2 * b8 + a3 * (b7 * 2) + a4 * b6 + a5 * (b5 * 2) + a6 * b4 + a7 * (b3 * 2) + a8 * b2)
      % 2 ^ 64
    ∷ (a3 * b8 + a4 * b7 + a5 * b6 + a6 * b5 + a7 * b4 + a8 * b3) % 2 ^ 64
    ∷ (a4 * b8 + a5 * (b7 * 2) + a6 * b6 + a7 * (b5 * 2) + a8 * b4) % 2 ^ 64
    ∷ (a5 * b8 + a6 * b7 + a7 * b6 + a8 * b5) % 2 ^ 64
    ∷ (a6 * b8 + a7 * (b7 * 2) + a8 * b6) % 2 ^ 64
    ∷ (a7 * b8 + a8 * b7) % 2 ^ 64
    ∷ (a8 * b8) % 2 ^ 64
    ∷ []
mul_products _ _ = []

unfoldable pub square_products : List ℕ → List ℕ
square_products (a0 ∷ a1 ∷ a2 ∷ a3 ∷ a4 ∷ a5 ∷ a6 ∷ a7 ∷ a8 ∷ []) =
    (a0 * a0) % 2 ^ 64
    ∷ (a0 * (a1 * 2)) % 2 ^ 64
    ∷ (a0 * (a2 * 2) + a1 * (a1 * 2)) % 2 ^ 64
    ∷ (a0 * (a3 * 2) + a1 * (a2 * 2)) % 2 ^ 64
    ∷ (a0 * (a4 * 2) + a1 * (a3 * 4) + a2 * a2) % 2 ^ 64
    ∷ (a0 * (a5 * 2) + a1 * (a4 * 2) + a2 * (a3 * 2)) % 2 ^ 64
    ∷ (a0 * (a6 * 2) + a1 * (a5 * 4) + a2 * (a4 * 2) + a3 * (a3 * 2)) % 2 ^ 64
    ∷ (a0 * (a7 * 2) + a1 * (a6 * 2) + a2 * (a5 * 2) + a3 * (a4 * 2)) % 2 ^ 64
    ∷ (a0 * (a8 * 2) + a1 * (a7 * 4) + a2 * (a6 * 2) + a3 * (a5 * 4) + a4 * a4) % 2 ^ 64
    ∷ (a1 * (a8 * 2) + a2 * (a7 * 2) + a3 * (a6 * 2) + a4 * (a5 * 2)) % 2 ^ 64
    ∷ (a2 * (a8 * 2) + a3 * (a7 * 4) + a4 * (a6 * 2) + a5 * (a5 * 2)) % 2 ^ 64
    ∷ (a3 * (a8 * 2) + a4 * (a7 * 2) + a5 * (a6 * 2)) % 2 ^ 64
    ∷ (a4 * (a8 * 2) + a5 * (a7 * 4) + a6 * a6) % 2 ^ 64
    ∷ (a5 * (a8 * 2) + a6 * (a7 * 2)) % 2 ^ 64
    ∷ (a6 * (a8 * 2) + a7 * (a7 * 2)) % 2 ^ 64
    ∷ (a7 * (a8 * 2)) % 2 ^ 64
    ∷ (a8 * a8) % 2 ^ 64
    ∷ []
square_products _ = []

unfoldable pub field_mul : List ℕ → List ℕ → List ℕ
field_mul a b = reduce_degree (mul_products a b)

unfoldable pub field_square : List ℕ → List ℕ
field_square a = reduce_degree (square_products a)
