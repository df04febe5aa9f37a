-- ===== src/Sm2/P256Runs.antt =====
-- Runs of the curve's methods of sm2/p256.go, with the inverse modulo a prime by a power.
use gmsm.Common.{
  ◌-◌, to_bytes, ◌/◌, ◌==◌, if◌then◌else◌, ◌/◌, ◌==◌, if◌then◌else◌, ℕ, zero, suc, ◌*◌, ◌%◌, ◌≡◌,
  refl, [], ◌∷◌, some, from_bytes,
}
use gmsm.Sm2.Hash.{a, gx, gy}
use gmsm.Sm2.Field.{sub32, sm2_p256_carry, reduce_carry, field_add, field_sub, add_loop, sub_loop}
use gmsm.Sm2.Field.Degree.{
  split, split_loop, eliminate, even_step, even_round, even_three, even_four, even_five, even_six,
  even_seven, even_eight, odd_step, odd_round, odd_three, odd_four, odd_five, odd_six, odd_seven,
  odd_eight, non_zero_to_all_ones, collect, reduce_degree,
}
use gmsm.Sm2.Field.Degree.EvenStep.{even_safe}
use gmsm.Sm2.Field.Degree.Value.{safe_rounds}
use gmsm.Sm2.Field.Product.{mul_products, square_products, field_mul, field_square}
use gmsm.Sm2.Field.Convert.{from_big, to_big, to_big_loop, from_big_loop, low_limb}
use gmsm.Sm2.P256.Table.{sm2_p256_factor, sm2_p256_precomputed}
use gmsm.Sm2.P256.Points.{curve_a, factor, point_double, point_add, point_add_mixed}
use gmsm.Sm2.P256.Scalars.{get_scalar, scalar_base_mult}
use gmsm.Sm2.P256.Points.{add_distinct, scalar, to_affine, point_to_affine}
use gmsm.Sm2.P256.Select.{
  copy_conditional, equality_mask, or_masked, zeros, select_affine_loop, select_affine_point,
}
use gmsm.Sm2.P256.Scalars.{
  get_bit, reversed, copy_point, accept, base_index, base_add, base_loop, infinity,
}
use gmsm.Sm2.P256.Methods.{
  add, double, jacobian, z_for_affine, curve_scalar_base_mult, curve_scalar_mult,
}
use gmsm.Sm2.P256.Select.{select_jacobian_point, select_jacobian_loop}
use gmsm.Sm2.P256.Scalars.{precompute, multiples, window, mult_loop, scalar_mult}
use gmsm.Sm2.P256.Instance.{p256_sm2}

inverse_power : ℕ → ℕ → ℕ → ℕ → ℕ → ℕ
inverse_power zero e b acc p = acc
inverse_power (suc fuel) e b acc p =
    inverse_power fuel (e / 2) (b * b % p) (if e % 2 == 1 then acc * b % p else acc) p

-- The inverse of a number that the prime does not divide.
pub inverse : ℕ → ℕ → ℕ
unfolding inverse_power
inverse a p = inverse_power 256 (p - 2) a 1 p

-- What the runs compute with.
unfoldable pub executed : ℕ × ℕ
unfolding safe_rounds even_safe split split_loop eliminate even_step even_round even_three even_four
    even_five even_six even_seven even_eight odd_step odd_round odd_three odd_four odd_five odd_six
    odd_seven odd_eight non_zero_to_all_ones sub32 collect reduce_degree reduce_carry sm2_p256_carry
    mul_products square_products field_mul field_square field_add field_sub add_loop sub_loop
    from_big from_big_loop low_limb curve_a factor sm2_p256_factor inverse inverse_power double
    jacobian z_for_affine point_double scalar to_affine point_to_affine add point_add add_distinct
    curve_scalar_mult select_jacobian_point select_jacobian_loop precompute multiples window
    mult_loop scalar_mult p256_sm2 curve_scalar_base_mult get_scalar reversed scalar_base_mult
    base_loop base_add base_index get_bit select_affine_point select_affine_loop equality_mask
    or_masked zeros accept copy_point copy_conditional infinity point_add_mixed from_bytes to_bytes
    sm2_p256_precomputed to_big to_big_loop
executed = add inverse gx gy gx gy

-- The double of the base point.
abbrev twice_base : ℕ × ℕ
twice_base = (
  39264624226210491828350299246801547995169179683885222662092227069188840275282,
  22488263119165336147085100012701851696717994160539376183636150600277949031363,
)

doubled : double inverse gx gy ≡ twice_base
unfolding executed
doubled = refl

-- The sum of the base point and itself is taken for the point at infinity.
added_same : add inverse gx gy gx gy ≡ (0, 0)
unfolding executed
added_same = refl

multiplied : curve_scalar_base_mult inverse (2 ∷ []) ≡ some twice_base
unfolding executed
multiplied = refl

-- The constant that `ZA` reads out of the field element `sm2P256.a`.
converted_a : to_big curve_a ≡ a
unfolding executed
converted_a = refl
