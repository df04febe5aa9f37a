-- ===== src/Sm2/P256/Select.antt =====
-- sm2/p256.go: copies and table look-ups that take the same steps whatever they choose.
pub mod Masks
pub mod Lookup
pub mod Affine
use gmsm.Common.{
  ℕ, zero, suc, ◌+◌, ◌-◌, ◌*◌, ◌/◌, ◌%◌, ◌^◌, bit_and, bit_or, bit_xor, List, [], ◌∷◌, get_or, take,
  drop, Bool, true, false, if◌then◌else◌,
}
use gmsm.Sm2.Field.{sub32}
use gmsm.Sm2.P256.Points.{Jacobian}

-- `sm2P256CopyConditional(out, in, mask)`
unfoldable pub copy_conditional : List ℕ → List ℕ → ℕ → List ℕ
copy_conditional (o ∷ out) (i ∷ input) mask =
    bit_xor o (bit_and mask (bit_xor i o)) ∷ copy_conditional out input mask
copy_conditional out input mask = out

-- The mask has every bit set where the two numbers are equal.
unfoldable pub equality_mask : ℕ → ℕ → ℕ
equality_mask i index =
    let m0 = bit_xor i index in
    let m1 = bit_or m0 (m0 / 2 ^ 2) in let m2 = bit_or m1 (m1 / 2) in sub32 (bit_and m2 1) 1

-- `out[j] |= table[j] & mask`
unfoldable pub or_masked : ℕ → List ℕ → List ℕ → List ℕ
or_masked mask (o ∷ out) (t ∷ table) = bit_or o (bit_and t mask) ∷ or_masked mask out table
or_masked mask out table = out

unfoldable pub zeros : List ℕ
zeros = 0 ∷ 0 ∷ 0 ∷ 0 ∷ 0 ∷ 0 ∷ 0 ∷ 0 ∷ 0 ∷ []

-- The loop over the entries that are left, the first of which has the number `i`.
unfoldable pub select_affine_loop : ℕ → ℕ → ℕ → List ℕ → List ℕ → List ℕ → List ℕ × List ℕ
select_affine_loop zero i index x_out y_out table = (x_out, y_out)
select_affine_loop (suc n) i index x_out y_out table =
    let mask = equality_mask i index in
    select_affine_loop n (suc i) index (or_masked mask x_out (take 9 table))
      (or_masked mask y_out (take 9 (drop 9 table))) (drop 18 table)

unfoldable pub select_affine_point : List ℕ → ℕ → List ℕ × List ℕ
select_affine_point table index = select_affine_loop 15 1 index zeros zeros table

-- The loop over the entries that are left, as above.
unfoldable pub select_jacobian_loop : ℕ → ℕ → Jacobian → List Jacobian → Jacobian
select_jacobian_loop i index out [] = out
select_jacobian_loop i index out (t ∷ table) =
    let mask = equality_mask i index in
    select_jacobian_loop (suc i) index
      (record {
        x = or_masked mask out.x t.x;
        y = or_masked mask out.y t.y;
        z = or_masked mask out.z t.z;
      })
      table

-- The table has sixteen entries, and the first is not read.
unfoldable pub select_jacobian_point : List Jacobian → ℕ → Jacobian
select_jacobian_point table index =
    select_jacobian_loop 1 index (record { x = zeros; y = zeros; z = zeros }) (drop 1 table)
