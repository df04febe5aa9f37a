-- ===== src/Sm2/P256Examples.antt =====
-- The theorems about the curve at concrete inputs, and runs of its methods.
use gmsm.Common.{
  ◌/◌, ◌==◌, if◌then◌else◌, Option, inl, ok, ℕ, zero, suc, ◌+◌, ◌*◌, ◌%◌, ◌<◌, ◌≡◌, ◌≢◌, ◌↔◌, ◌⊎◌,
  refl, Cong, List, [], ◌∷◌, length, get_or, replicate, arith, Bool, true, ◌&&◌, and_true, none,
  some, All, IsByte, IsBytes, from_bytes,
}
use gmsm.Sm2.Hash.{gx, gy}
use gmsm.Sm2.Curve.{Point}
use gmsm.Sm2.Buffers.{zero_byte_slice}
use gmsm.Sm2.Compression.{compress, decompress}
use gmsm.Sm2.Compression.Restored.{decompress-compress}
use gmsm.Sm2.Field.{
  prime, sub32, sm2_p256_carry, reduce_carry, field_add, field_sub, add_loop, sub_loop,
}
use gmsm.Sm2.Field.Degree.{
  split, split_loop, eliminate, even_step, even_round, even_three, even_four, even_five, even_six,
  even_seven, even_eight, odd_step, odd_round, odd_three, odd_four, odd_five, odd_six, odd_seven,
  odd_eight, non_zero_to_all_ones, collect, reduce_degree,
}
use gmsm.Sm2.Field.Degree.EvenStep.{even_safe}
use gmsm.Sm2.Field.Degree.Value.{safe_rounds}
use gmsm.Sm2.Field.Sum.{IsLimbs}
use gmsm.Sm2.Field.Product.{mul_products, square_products, field_mul, field_square}
use gmsm.Sm2.Field.Convert.{from_big, to_big, to_big_loop, from_big_loop, low_limb}
use gmsm.Sm2.Field.Modulo.{safe_products}
use gmsm.Sm2.Field.Numbers.{Means, IsSafe}
use gmsm.Sm2.P256.Table.{sm2_p256_factor}
use gmsm.Sm2.P256.Points.{Jacobian, curve_a, factor, point_double, point_add, point_add_mixed}
use gmsm.Sm2.P256.Select.{select_jacobian_point}
use gmsm.Sm2.P256.Select.Lookup.{IsEntry, origin, select_jacobian_point_entry}
use gmsm.Sm2.P256.Scalars.{curve_order, get_scalar, scalar_base_mult, scalar_mult}
use gmsm.Sm2.P256.Scalars.Reversal.{from_little, get_scalar_branches}
use gmsm.Sm2.P256.Scalars.Refinement.{Stands}
use gmsm.Sm2.P256.Scalars.BaseMult.{add_entries, scalar_base_mult-add_entries}
use gmsm.Sm2.P256.Scalars.DoubleAdd.{double_and_add, scalar_mult-double_and_add}
use gmsm.Sm2.P256.Methods.{is_on_curve}
use gmsm.Sm2.P256.OnCurve.{a_number, b_number, side_factors, is_on_curve_iff}
use gmsm.Sm2.P256.Multiples.{entry_numbers, entry_factor, times_base, precomputed-times_base}
use gmsm.Sm2.P256.Formulas.{MeansPoint}
use gmsm.Sm2.P256.Formulas.Doubling.{double_factors, double_numbers, point_double-double_numbers}
use gmsm.Sm2.P256.Formulas.Mixed.{mixed_factors, mixed_numbers, point_add_mixed-mixed_numbers}
use gmsm.Sm2.P256.Formulas.Addition.{
  add_factors, more_factors, distinct_factors, sum_numbers, point_add-sum_numbers,
}
use gmsm.Sm2.P256.Formulas.Same.{point_add_same}

-- Every pair of factors is safe; this computes the elements of the field.
unfoldable computed : ℕ → ℕ
unfolding safe_rounds even_safe split split_loop eliminate even_step even_round even_three even_four
    even_five even_six even_seven even_eight odd_step odd_round odd_three odd_four odd_five odd_six
    odd_seven odd_eight non_zero_to_all_ones sub32 collect reduce_degree reduce_carry sm2_p256_carry
    mul_products square_products field_mul field_square field_add field_sub add_loop sub_loop
    from_big from_big_loop low_limb curve_a factor sm2_p256_factor
computed n =
    to_big
      (field_mul (from_big n) (field_square (field_add (factor 1) (field_sub curve_a curve_a))))

all_safe : List (List ℕ × List ℕ) → Bool
all_safe [] = true
all_safe (pair ∷ pairs) = safe_products (mul_products pair.0 pair.1) && all_safe pairs

all_safe_sound : (pairs : List (List ℕ × List ℕ)) → all_safe pairs ≡ true → All IsSafe pairs
unfolding all_safe
all_safe_sound [] h = tt
all_safe_sound (pair ∷ pairs) h =
    let (now, later) = and_true (safe_products (mul_products pair.0 pair.1)) (all_safe pairs) h in
    (now, all_safe_sound pairs later)

-- The base point.
abbrev base_x : List ℕ
base_x =
    0x830053d ∷ 0x328990f ∷ 0x6c04fe1 ∷ 0xc0f72e5 ∷ 0x1e19f3c ∷ 0x666b093 ∷ 0x175a87b ∷ 0xec38276
    ∷ 0x222cf4b ∷ []

abbrev base_y : List ℕ
base_y =
    0x185a1bba ∷ 0x354e593 ∷ 0x1295fac1 ∷ 0xf2bc469 ∷ 0x47c60fa ∷ 0xc19b8a9 ∷ 0xf63533e ∷ 0x903ae6b
    ∷ 0xc79acba ∷ []

abbrev one : List ℕ
one = 0x2 ∷ 0x0 ∷ 0x1fffff00 ∷ 0x7ff ∷ 0x0 ∷ 0x0 ∷ 0x0 ∷ 0x2000000 ∷ 0x0 ∷ []

abbrev base : Jacobian
base = record { x = base_x; y = base_y; z = one }

base_x-Means : Means base_x gx
unfolding to_big to_big_loop IsLimbs
base_x-Means = (refl, (refl, omega arith))

base_y-Means : Means base_y gy
unfolding to_big to_big_loop IsLimbs
base_y-Means = (refl, (refl, omega arith))

one-Means : Means one 1
unfolding to_big to_big_loop IsLimbs
one-Means = (refl, (refl, omega arith))

base-IsEntry : IsEntry base
base-IsEntry = omega arith

double-IsSafe : All IsSafe (double_factors base)
unfolding computed all_safe double_factors
double-IsSafe = all_safe_sound (double_factors base) refl

point_double-double_numbers_example :
    MeansPoint
      (point_double base)
      (double_numbers gx gy 1).0
      (double_numbers gx gy 1).1
      (double_numbers gx gy 1).2
point_double-double_numbers_example =
    point_double-double_numbers base gx gy 1 (base_x-Means, base_y-Means, one-Means) double-IsSafe

-- Another point, which need not lie on the curve.
abbrev other : Jacobian
other = record { x = base_y; y = one; z = base_x }

other-IsSafe : All IsSafe (mixed_factors other base_x base_y)
unfolding computed all_safe mixed_factors
other-IsSafe = all_safe_sound (mixed_factors other base_x base_y) refl

point_add_mixed-mixed_numbers_example :
    MeansPoint
      (point_add_mixed other base_x base_y)
      (mixed_numbers gy 1 gx gx gy).0
      (mixed_numbers gy 1 gx gx gy).1
      (mixed_numbers gy 1 gx gx gy).2
point_add_mixed-mixed_numbers_example =
    point_add_mixed-mixed_numbers other base_x base_y gy 1 gx gx gy
      (base_y-Means, one-Means, base_x-Means) base_x-Means base_y-Means other-IsSafe

add-IsSafe : All IsSafe (add_factors base other)
unfolding computed all_safe add_factors
add-IsSafe = all_safe_sound (add_factors base other) refl

more-IsSafe : All IsSafe (more_factors base other)
unfolding computed all_safe more_factors distinct_factors
more-IsSafe = all_safe_sound (more_factors base other) refl

base_differs :
    ¬ (Cong prime (gx * gx * gx) (gy * 1 * 1) × Cong prime (gy * gx * gx * gx) (1 * 1 * 1 * 1))
base_differs (first, _) = omega arith

point_add-sum_numbers_example :
    ((point_add base other).0 ≡ base)
    × MeansPoint
        (point_add base other).1
        (sum_numbers gx gy 1 gy 1 gx).0
        (sum_numbers gx gy 1 gy 1 gx).1
        (sum_numbers gx gy 1 gy 1 gx).2
point_add-sum_numbers_example =
    point_add-sum_numbers base other gx gy 1 gy 1 gx (base_x-Means, base_y-Means, one-Means)
      (base_y-Means, one-Means, base_x-Means) (omega arith) (omega arith) base_differs add-IsSafe
      more-IsSafe

same-IsSafe : IsSafe (
  field_mul (point_double base).z one,
  field_sub (field_mul base_x (field_square one)) (field_mul base_x (field_square one)),
)
unfolding computed point_double
same-IsSafe = refl

one_number : to_big one ≢ 0
unfolding to_big to_big_loop
one_number = omega arith

point_add_same_example :
    ((point_add base base).0 ≡ point_double base) × (to_big (point_add base base).1.z ≡ 0)
point_add_same_example = point_add_same base base-IsEntry one_number same-IsSafe

side-IsSafe : All IsSafe (side_factors (from_big gx))
unfolding computed all_safe side_factors
side-IsSafe = all_safe_sound (side_factors (from_big gx)) refl

square-IsSafe : IsSafe (from_big gy, from_big gy)
unfolding computed
square-IsSafe = refl

is_on_curve_iff_example :
    (is_on_curve gx gy ≡ true)
    ↔ ((gx * gx * gx + a_number * gx + b_number) % prime ≡ gy * gy % prime)
is_on_curve_iff_example = is_on_curve_iff gx gy side-IsSafe square-IsSafe

precomputed-times_base_example :
    let a = entry_numbers 1 14 in
    let p = times_base 257 (entry_factor 1 14) in
    (0 < p.2) × (a.0 * p.2 * p.2 % prime ≡ p.0) × (a.1 * p.2 * p.2 * p.2 % prime ≡ p.1)
precomputed-times_base_example = precomputed-times_base 1 14 (omega arith) (omega arith)

abbrev three_bytes : List ℕ
three_bytes = 1 ∷ 2 ∷ 3 ∷ []

three_bytes-IsBytes : IsBytes three_bytes
three_bytes-IsBytes = omega arith

get_scalar_branches_example :
    ((b : List ℕ) × (get_scalar three_bytes ≡ some b)
      × (length b ≡ 32)
      × IsBytes b
      × (from_little b ≡ from_bytes three_bytes % curve_order))
    ⊎ ((get_scalar three_bytes ≡ none)
        × (32 < length three_bytes)
        × (from_bytes three_bytes < curve_order))
get_scalar_branches_example = get_scalar_branches three_bytes three_bytes-IsBytes

replicate-AreEntries : (n : ℕ) → All IsEntry (replicate n base)
replicate-AreEntries zero = tt
replicate-AreEntries (suc n) = (base-IsEntry, replicate-AreEntries n)

select_jacobian_point_entry_example :
    select_jacobian_point (other ∷ replicate 15 base) 7
    ≡ get_or (origin ∷ replicate 15 base) 7 origin
select_jacobian_point_entry_example =
    select_jacobian_point_entry other (replicate 15 base) 7 refl (replicate-AreEntries 15)
      (omega arith)

scalar_base_mult-add_entries_example :
    Stands (scalar_base_mult (replicate 32 7)) (add_entries (replicate 32 7) 32 0 none)
scalar_base_mult-add_entries_example = scalar_base_mult-add_entries (replicate 32 7)

replicate-AreBytes : (n : ℕ) → All IsByte (replicate n 9)
replicate-AreBytes zero = tt
replicate-AreBytes (suc n) = (omega arith, replicate-AreBytes n)

scalar_mult-double_and_add_example :
    Stands
      (scalar_mult base_x base_y (replicate 32 9))
      (double_and_add base_x base_y (from_little (replicate 32 9)) 64 none)
scalar_mult-double_and_add_example =
    scalar_mult-double_and_add base_x base_y (replicate 32 9) base-IsEntry.0 base-IsEntry.1
      (replicate-AreBytes 32)

-- A square root modulo a prime that leaves three modulo four, by a power.
root_power : ℕ → ℕ → ℕ → ℕ → ℕ → ℕ
root_power zero e b acc p = acc
root_power (suc fuel) e b acc p =
    root_power fuel (e / 2) (b * b % p) (if e % 2 == 1 then acc * b % p else acc) p

root_by_power : ℕ → ℕ → Option ℕ
unfolding root_power
root_by_power a p = some (root_power 256 ((p + 1) / 4) a 1 p)

abbrev base_point : Point
base_point = record { x = gx; y = gy }

base_root : root_by_power (gy * gy % prime) prime ≡ some gy
unfolding root_by_power root_power
base_root = refl

decompress-compress_example :
    decompress root_by_power (compress zero_byte_slice base_point).1 ≡ ok base_point
decompress-compress_example =
    decompress-compress root_by_power base_point gy (omega arith) (omega arith) refl side-IsSafe
      base_root (inl refl)
