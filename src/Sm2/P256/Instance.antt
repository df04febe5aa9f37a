-- ===== src/Sm2/P256/Instance.antt =====
-- sm2/p256.go: the curve that `P256Sm2` returns, as the keys of the package carry it.
use gmsm.Common.{ℕ, Option, none, some}
use gmsm.Sm2.Curve.{Point, Curve}
use gmsm.Sm2.P256.Scalars.{curve_order}
use gmsm.Sm2.P256.Methods.{add, curve_scalar_mult, curve_scalar_base_mult}

abbrev pub as_point : ℕ × ℕ → Point
as_point (x, y) = record { x = x; y = y }

-- The type `Curve` has no panic: a scalar that is too long to be read gives the origin here.
abbrev pub or_origin : Option (ℕ × ℕ) → Point
or_origin none = record { x = 0; y = 0 }
or_origin (some p) = as_point p

unfoldable pub p256_sm2 : (ℕ → ℕ → ℕ) → Curve
p256_sm2 mod_inverse = record {
  order = curve_order;
  bit_size = 256;
  add = λ p q. as_point (add mod_inverse p.x p.y q.x q.y);
  scalar_mult = λ p k. or_origin (curve_scalar_mult mod_inverse p.x p.y k);
  scalar_base_mult = λ k. or_origin (curve_scalar_base_mult mod_inverse k);
}
