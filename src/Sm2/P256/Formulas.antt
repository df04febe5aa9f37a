-- ===== src/Sm2/P256/Formulas.antt =====
-- The doubling and the additions of sm2/p256.go are the formulas in Jacobian coordinates.
pub mod Doubling
pub mod Addition
pub mod Mixed
pub mod Same
use gmsm.Common.{ℕ, ◌+◌, ◌*◌, ◌%◌, ◌≡◌, refl, List, [], ◌∷◌, length, arith}
use gmsm.Sm2.Field.Convert.{to_big, to_big_loop}
use gmsm.Sm2.Field.Sum.{IsLimbs}
use gmsm.Sm2.Field.Numbers.{Means}
use gmsm.Sm2.P256.Table.{sm2_p256_factor}
use gmsm.Sm2.P256.Points.{Jacobian, factor}

-- Each coordinate stands for a number.
abbrev pub MeansPoint : Jacobian → ℕ → ℕ → ℕ → Type 0
MeansPoint p x y z = Means p.x x × Means p.y y × Means p.z z

-- The elements that `sm2P256Scalar` multiplies by stand for the numbers that it is given.
pub factor-Means : Means (factor 2) 2 × Means (factor 3) 3 × Means (factor 4) 4 × Means (factor 8) 8
unfolding factor sm2_p256_factor to_big to_big_loop IsLimbs
factor-Means = (
  (refl, (refl, omega arith)),
  (refl, (refl, omega arith)),
  (refl, (refl, omega arith)),
  (refl, (refl, omega arith)),
)
