-- ===== src/Sm2/P256/Select/Affine.antt =====
-- `sm2P256SelectAffinePoint` finds the entry of a table.
use gmsm.Common.{
  ℕ, zero, suc, ◌+◌, ◌*◌, ◌≤◌, ◌<◌, ◌≡◌, refl, ap, ap₂, ◌∙◌, List, length, take, drop, All,
  All-take, All-drop, length-take, length-drop, drop-drop, arith, IsWord,
}
use gmsm.Sm2.Field.Arrays.{IsArray}
use gmsm.Sm2.P256.Select.{equality_mask, or_masked, zeros, select_affine_loop, select_affine_point}
use gmsm.Sm2.P256.Select.Masks.{equality_mask_choice, or_none, or_all}

-- The limbs of `x` and of `y` of the entry behind as many others.
abbrev pub affine_entry : ℕ → List ℕ → List ℕ × List ℕ
affine_entry k table = (take 9 (drop (18 * k) table), take 9 (drop 9 (drop (18 * k) table)))

affine_passed :
    (n i index : ℕ) (x_out y_out table : List ℕ)
    → index < i
    → i + n ≤ 16
    → select_affine_loop n i index x_out y_out table ≡ (x_out, y_out)
unfolding select_affine_loop
affine_passed zero i index x_out y_out table lt top = refl
affine_passed (suc n) i index x_out y_out table lt top =
    let mask_is : equality_mask i index ≡ 0 = ground (arith, equality_mask_choice i index) in
    let x = take 9 table in
    let y = take 9 (drop 9 table) in
    let rest = drop 18 table in
    ap
      (λ (mask : ℕ).
        select_affine_loop n (suc i) index (or_masked mask x_out x) (or_masked mask y_out y) rest)
      mask_is
    ∙ ap₂ (λ (a b : List ℕ). select_affine_loop n (suc i) index a b rest) (or_none x_out x)
        (or_none y_out y)
    ∙ affine_passed n (suc i) index x_out y_out rest (omega arith) (omega arith)

take-IsArray : (table : List ℕ) → 9 ≤ length table → All IsWord table → IsArray (take 9 table)
take-IsArray table size words = (length-take 9 table ∙ omega arith, All-take IsWord 9 table words)

affine_found :
    (k n i index : ℕ) (table : List ℕ)
    → index ≡ i + k
    → k < n
    → i + n ≤ 16
    → 18 * n ≤ length table
    → All IsWord table
    → select_affine_loop n i index zeros zeros table ≡ affine_entry k table
unfolding select_affine_loop
affine_found k zero i index table e lt top size words = absurd (omega arith)
affine_found zero (suc n) i index table e lt top size words =
    let mask_is : equality_mask i index ≡ 0xffffffff =
      ground (arith, equality_mask_choice i index) in
    let x = take 9 table in
    let y = take 9 (drop 9 table) in
    let rest = drop 18 table in
    ap
      (λ (mask : ℕ).
        select_affine_loop n (suc i) index (or_masked mask zeros x) (or_masked mask zeros y) rest)
      mask_is
    ∙ ap₂ (λ (a b : List ℕ). select_affine_loop n (suc i) index a b rest)
        (or_all x (take-IsArray table (omega arith) words))
        (or_all y (
          take-IsArray (drop 9 table) (omega (arith, length-drop 9 table))
            (All-drop IsWord 9 table words)))
    ∙ affine_passed n (suc i) index x y rest (omega arith) (omega arith)
affine_found (suc k) (suc n) i index table e lt top size words =
    let mask_is : equality_mask i index ≡ 0 = ground (arith, equality_mask_choice i index) in
    let x = take 9 table in
    let y = take 9 (drop 9 table) in
    let rest = drop 18 table in
    ap
      (λ (mask : ℕ).
        select_affine_loop n (suc i) index (or_masked mask zeros x) (or_masked mask zeros y) rest)
      mask_is
    ∙ ap₂ (λ (a b : List ℕ). select_affine_loop n (suc i) index a b rest) (or_none zeros x)
        (or_none zeros y)
    ∙ affine_found k n (suc i) index rest (omega arith) (omega arith) (omega arith)
        (omega (arith, length-drop 18 table)) (All-drop IsWord 18 table words)
    ∙ ap (λ (t : List ℕ). (take 9 t, take 9 (drop 9 t)))
        (drop-drop (18 * k) 18 table ∙ ap (λ (m : ℕ). drop m table) {y = 18 * suc k} (omega arith))

-- For a table of at least fifteen entries of eighteen words each, and an index from one to fifteen,
-- `sm2P256SelectAffinePoint` finds the words of the entry at the index, the first of which has the
-- index one.
pub select_affine_point_entry :
    (table : List ℕ) (k : ℕ)
    → 270 ≤ length table
    → All IsWord table
    → k < 15
    → select_affine_point table (suc k) ≡ affine_entry k table
unfolding select_affine_point
select_affine_point_entry table k size words low =
    affine_found k 15 1 (suc k) table (omega arith) low (omega arith) (omega arith) words

pub select_affine_point_zero : (table : List ℕ) → select_affine_point table 0 ≡ (zeros, zeros)
unfolding select_affine_point
select_affine_point_zero table = affine_passed 15 1 0 zeros zeros table (omega arith) (omega arith)

pub affine_entry-IsArray :
    (k : ℕ) (table : List ℕ)
    → 270 ≤ length table
    → All IsWord table
    → k < 15
    → IsArray (affine_entry k table).0 × IsArray (affine_entry k table).1
affine_entry-IsArray k table size words low =
    let rest = drop (18 * k) table in
    let left = All-drop IsWord (18 * k) table words in
    let long : 18 ≤ length rest = omega (arith, length-drop (18 * k) table) in
    (
      take-IsArray rest (omega arith) left,
      take-IsArray (drop 9 rest) (omega (arith, length-drop 9 rest)) (All-drop IsWord 9 rest left),
    )
