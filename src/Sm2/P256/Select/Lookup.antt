-- ===== src/Sm2/P256/Select/Lookup.antt =====
-- `sm2P256SelectJacobianPoint` finds the entry of a table.
use gmsm.Common.{
  ℕ, zero, suc, ◌+◌, ◌≤◌, ◌<◌, ◌≡◌, refl, ap, ◌∙◌, List, [], ◌∷◌, length, get_or, All, arith,
}
use gmsm.Sm2.Field.Arrays.{IsArray}
use gmsm.Sm2.P256.Points.{Jacobian}
use gmsm.Sm2.P256.Select.{
  equality_mask, or_masked, zeros, select_jacobian_loop, select_jacobian_point,
}
use gmsm.Sm2.P256.Select.Masks.{equality_mask_choice, or_none, or_all}

-- An entry of a table of points.
abbrev pub IsEntry : Jacobian → Type 0
IsEntry p = IsArray p.x × IsArray p.y × IsArray p.z

or_entry : ℕ → Jacobian → Jacobian → Jacobian
or_entry mask out t = record {
  x = or_masked mask out.x t.x;
  y = or_masked mask out.y t.y;
  z = or_masked mask out.z t.z;
}

entry_none : (out t : Jacobian) → or_entry 0 out t ≡ out
unfolding or_entry
entry_none out t =
    λ i. record { x = or_none out.x t.x i; y = or_none out.y t.y i; z = or_none out.z t.z i }

entry_all :
    (t : Jacobian)
    → IsEntry t
    → or_entry 0xffffffff (record { x = zeros; y = zeros; z = zeros }) t ≡ t
unfolding or_entry
entry_all t (hx, hy, hz) =
    λ i. record { x = or_all t.x hx i; y = or_all t.y hy i; z = or_all t.z hz i }

-- Behind the entry that is looked for, nothing is added.
passed :
    (i index : ℕ) (out : Jacobian) (table : List Jacobian)
    → index < i
    → i + length table ≤ 16
    → select_jacobian_loop i index out table ≡ out
unfolding select_jacobian_loop or_entry
passed i index out [] lt top = refl
passed i index out (t ∷ table) lt top =
    let mask_is : equality_mask i index ≡ 0 = ground (arith, equality_mask_choice i index) in
    ap (λ (mask : ℕ). select_jacobian_loop (suc i) index (or_entry mask out t) table) mask_is
    ∙ ap (λ (p : Jacobian). select_jacobian_loop (suc i) index p table) (entry_none out t)
    ∙ passed (suc i) index out table (omega arith) (omega arith)

found :
    (k i index : ℕ) (d : Jacobian) (table : List Jacobian)
    → index ≡ i + k
    → k < length table
    → i + length table ≤ 16
    → All IsEntry table
    → select_jacobian_loop i index (record { x = zeros; y = zeros; z = zeros }) table
      ≡ get_or table k d
unfolding select_jacobian_loop or_entry
found k i index d [] e lt top entries = absurd (omega arith)
found zero i index d (t ∷ table) e lt top (ht, entries) =
    let start : Jacobian = record { x = zeros; y = zeros; z = zeros } in
    let mask_is : equality_mask i index ≡ 0xffffffff =
      ground (arith, equality_mask_choice i index) in
    ap (λ (mask : ℕ). select_jacobian_loop (suc i) index (or_entry mask start t) table) mask_is
    ∙ ap (λ (p : Jacobian). select_jacobian_loop (suc i) index p table) (entry_all t ht)
    ∙ passed (suc i) index t table (omega arith) (omega arith)
found (suc k) i index d (t ∷ table) e lt top (ht, entries) =
    let start : Jacobian = record { x = zeros; y = zeros; z = zeros } in
    let mask_is : equality_mask i index ≡ 0 = ground (arith, equality_mask_choice i index) in
    ap (λ (mask : ℕ). select_jacobian_loop (suc i) index (or_entry mask start t) table) mask_is
    ∙ ap (λ (p : Jacobian). select_jacobian_loop (suc i) index p table) (entry_none start t)
    ∙ found k (suc i) index d table (omega arith) (omega arith) (omega arith) entries

abbrev pub origin : Jacobian
origin = record { x = zeros; y = zeros; z = zeros }

-- For a table of sixteen points, each of three arrays of nine words, and an index below sixteen,
-- `sm2P256SelectJacobianPoint` finds the entry at the index, and zeros at the index zero, whatever
-- the first entry is.
pub select_jacobian_point_entry :
    (first : Jacobian) (table : List Jacobian) (index : ℕ)
    → length table ≡ 15
    → All IsEntry table
    → index < 16
    → select_jacobian_point (first ∷ table) index ≡ get_or (origin ∷ table) index origin
unfolding select_jacobian_point
select_jacobian_point_entry first table zero size entries low =
    passed 1 0 (record { x = zeros; y = zeros; z = zeros }) table (omega arith) (omega arith)
select_jacobian_point_entry first table (suc k) size entries low =
    found k 1 (suc k) origin table (omega arith) (omega arith) (omega arith) entries
