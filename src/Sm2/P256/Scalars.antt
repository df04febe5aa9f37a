-- ===== src/Sm2/P256/Scalars.antt =====
-- sm2/p256.go: scalars and the multiplications of points.
pub mod Choice
pub mod Refinement
pub mod Digits
pub mod Reversal
pub mod BaseMult
pub mod Mult
pub mod DoubleAdd
use gmsm.Common.{
  ℕ, zero, suc, ◌+◌, ◌-◌, ◌*◌, ◌/◌, ◌%◌, ◌^◌, ◌==◌, leb, ltb, bit_and, bit_or, List, [], ◌∷◌, ◌++◌,
  get_or, length, replicate, drop, from_bytes, to_bytes, Bool, true, false, if◌then◌else◌, Option,
  none, some,
}
use gmsm.Sm2.Field.{sub32}
use gmsm.Sm2.Field.Degree.{non_zero_to_all_ones}
use gmsm.Sm2.P256.Table.{sm2_p256_precomputed}
use gmsm.Sm2.P256.Points.{Jacobian, factor, point_double, point_add, point_add_mixed}
use gmsm.Sm2.P256.Select.{copy_conditional, zeros, select_affine_point, select_jacobian_point}

-- `sm2P256.N`
abbrev pub curve_order : ℕ
curve_order = 0xfffffffeffffffffffffffffffffffff7203df6b21c6052b53bbf40939d54123

-- `b[len(scalarBytes)-(1+i)] = v` for each byte `v`: the first byte goes behind those of the rest.
unfoldable pub reversed : List ℕ → List ℕ
reversed [] = []
reversed (v ∷ bytes) = reversed bytes ++ (v ∷ [])

-- The bytes, lowest first, in an array of 32, or none where an index is out of its range.
unfoldable pub get_scalar : List ℕ → Option (List ℕ)
get_scalar a =
    let n = from_bytes a in
    let scalar_bytes = if leb curve_order n then to_bytes (n % curve_order) else a in
    if ltb 32 (length scalar_bytes)
    then none
    else some (reversed scalar_bytes ++ replicate (32 - length scalar_bytes) 0)

unfoldable pub get_bit : List ℕ → ℕ → ℕ
get_bit scalar bit = bit_and (get_or scalar (bit / 8) 0 / 2 ^ (bit % 8)) 1

-- `out` and `nIsInfinityMask` of the loops.
pub record Sum : Type 0 where
  pub out : Jacobian
  pub n_is_infinity_mask : ℕ

-- The three copies of a point.
unfoldable pub copy_point : Jacobian → Jacobian → ℕ → Jacobian
copy_point out p mask = record {
  x = copy_conditional out.x p.x mask;
  y = copy_conditional out.y p.y mask;
  z = copy_conditional out.z p.z mask;
}

-- What both loops do with the point `p` that they have looked up at `index`, and with its sum `t`
-- with the point before, which the addition may have changed.
unfoldable pub accept : Jacobian → ℕ → Jacobian → Jacobian → ℕ → Sum
accept out n_is_infinity_mask p t index =
    let first = copy_point out p n_is_infinity_mask in
    let p_is_noninfinite_mask = non_zero_to_all_ones index in
    let mask = bit_and p_is_noninfinite_mask (0xffffffff - n_is_infinity_mask) in
    record {
      out = copy_point first t mask;
      n_is_infinity_mask = bit_and n_is_infinity_mask (0xffffffff - p_is_noninfinite_mask);
    }

unfoldable pub base_index : List ℕ → ℕ → ℕ → ℕ
base_index scalar i j =
    let bit0 = get_bit scalar (31 - i + j) in
    let bit1 = get_bit scalar (95 - i + j) in
    let bit2 = get_bit scalar (159 - i + j) in
    let bit3 = get_bit scalar (223 - i + j) in
    bit_or (bit_or (bit_or bit0 (bit1 * 2)) (bit2 * 2 ^ 2)) (bit3 * 2 ^ 3)

-- One turn of the inner loop.
unfoldable pub base_add : List ℕ → ℕ → ℕ → ℕ → Sum → Sum
unfolding sm2_p256_precomputed
base_add scalar i j table_offset s =
    let index = base_index scalar i j in
    let (px, py) = select_affine_point (drop table_offset sm2_p256_precomputed) index in
    let t = point_add_mixed s.out px py in
    accept s.out s.n_is_infinity_mask (record { x = px; y = py; z = factor 1 }) t index

-- The turns of the outer loop that are left, from the position `i` on.
unfoldable pub base_loop : List ℕ → ℕ → ℕ → Sum → Sum
base_loop scalar zero i s = s
base_loop scalar (suc n) i s =
    let doubled =
      if i == 0
      then s
      else record { out = point_double s.out; n_is_infinity_mask = s.n_is_infinity_mask } in
    let low = base_add scalar i 0 0 doubled in
    base_loop scalar n (suc i) (base_add scalar i 32 (30 * 9) low)

unfoldable pub infinity : Jacobian
infinity = record { x = zeros; y = zeros; z = zeros }

unfoldable pub scalar_base_mult : List ℕ → Jacobian
scalar_base_mult scalar =
    (base_loop scalar 32 0 (record { out = infinity; n_is_infinity_mask = 0xffffffff })).out

-- The entries of `precomp` so far, and as many pairs of them as are still to be made.
unfoldable pub precompute : ℕ → List ℕ → List ℕ → List Jacobian → List Jacobian
precompute zero x y precomp = precomp
precompute (suc n) x y precomp =
    let even = point_double (get_or precomp (length precomp / 2) infinity) in
    precompute n x y (precomp ++ (even ∷ point_add_mixed even x y ∷ []))

unfoldable pub multiples : List ℕ → List ℕ → List Jacobian
multiples x y = precompute 7 x y (infinity ∷ record { x = x; y = y; z = factor 1 } ∷ [])

unfoldable pub window : List ℕ → ℕ → ℕ
window scalar i =
    let index = get_or scalar (31 - i / 2) 0 in
    if bit_and i 1 == 1 then bit_and index 15 else index / 2 ^ 4

-- The turns that are left, from the window `i` on.
unfoldable pub mult_loop : List Jacobian → List ℕ → ℕ → ℕ → Sum → Sum
mult_loop precomp scalar zero i s = s
mult_loop precomp scalar (suc n) i s =
    let doubled =
      if i == 0 then s.out else point_double (point_double (point_double (point_double s.out))) in
    let index = window scalar i in
    let p = select_jacobian_point precomp index in
    let (out, t) = point_add doubled p in
    mult_loop precomp scalar n (suc i) (accept out s.n_is_infinity_mask p t index)

unfoldable pub scalar_mult : List ℕ → List ℕ → List ℕ → Jacobian
scalar_mult x y scalar =
    (mult_loop (multiples x y) scalar 64 0
      (record { out = infinity; n_is_infinity_mask = 0xffffffff })).out
