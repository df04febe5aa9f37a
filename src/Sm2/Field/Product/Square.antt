-- ===== src/Sm2/Field/Product/Square.antt =====
-- `sm2P256Square` makes the products of `sm2P256Mul` at one element.
use gmsm.Common.{ℕ, ◌≡◌, refl, List, [], ◌∷◌, arith}
use gmsm.Sm2.Field.Product.{mul_products, square_products}

-- For an element of nine limbs `sm2P256Square` makes the seventeen products that `sm2P256Mul` makes
-- of the element with itself, overflows included.
pub square_products-mul_products : (a : List ℕ) → square_products a ≡ mul_products a a
unfolding square_products mul_products
square_products-mul_products (a0 ∷ a1 ∷ a2 ∷ a3 ∷ a4 ∷ a5 ∷ a6 ∷ a7 ∷ a8 ∷ []) = ground arith
square_products-mul_products _ = refl
