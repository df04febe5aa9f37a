-- ===== src/Sm2/P256/Scalars/BaseMult.antt =====
-- `sm2P256ScalarBaseMult`, whose loop never branches, adds and doubles as a loop with branches does.
use gmsm.Common.{
  ℕ, zero, suc, ◌^◌, ◌≤◌, ◌<◌, ◌≡◌, refl, sym, subst, ◌==◌, if◌then◌else◌, List, [], ◌∷◌, arith,
  Bool, true, false, ltb, ltb→lt, and_true, ◌&&◌, Option, none, some, All, All-drop, IsWord, length,
  length-drop, drop,
}
use gmsm.Sm2.P256.Table.{sm2_p256_precomputed}
use gmsm.Sm2.P256.Points.{Jacobian, factor, point_double, point_add_mixed}
use gmsm.Sm2.P256.Select.{zeros, select_affine_point}
use gmsm.Sm2.P256.Select.Lookup.{IsEntry}
use gmsm.Sm2.P256.Select.Affine.{
  affine_entry, affine_entry-IsArray, select_affine_point_entry, select_affine_point_zero,
}
use gmsm.Sm2.P256.Entries.{point_add_mixed-IsEntry, factor-one}
use gmsm.Sm2.P256.Scalars.{Sum, accept, base_index, base_add, base_loop, infinity, scalar_base_mult}
use gmsm.Sm2.P256.Scalars.Digits.{base_index-digits}
use gmsm.Sm2.P256.Scalars.Refinement.{
  add_to, doubled, Keeps, IsSum, IsSum-Keeps, skip-IsSum, take-IsSum, double-Keeps, zeros-IsArray,
  Keeps-IsEntry, Stands, IsSum-Stands, infinity-IsSum,
}

-- The entry of the table at an index that is not zero.
unfoldable pub base_entry : ℕ → ℕ → Jacobian
unfolding sm2_p256_precomputed
base_entry table_offset k =
    let (px, py) = affine_entry k (drop table_offset sm2_p256_precomputed) in
    record { x = px; y = py; z = factor 1 }

unfoldable pub add_entry : ℕ → ℕ → Option Jacobian → Option Jacobian
add_entry table_offset zero sum = sum
add_entry table_offset (suc k) sum =
    let p = base_entry table_offset k in some (add_to (λ q. point_add_mixed q p.x p.y) p sum)

-- From the highest bits on, the sum is doubled and the two entries of the bits are added.
unfoldable pub add_entries : List ℕ → ℕ → ℕ → Option Jacobian → Option Jacobian
add_entries scalar zero i sum = sum
add_entries scalar (suc n) i sum =
    let start = if i == 0 then sum else doubled sum in
    let low = add_entry 0 (base_index scalar i 0) start in
    add_entries scalar n (suc i) (add_entry 270 (base_index scalar i 32) low)

every_word : List ℕ → Bool
every_word [] = true
every_word (x ∷ xs) = ltb x (2 ^ 32) && every_word xs

every_word_sound : (xs : List ℕ) → every_word xs ≡ true → All IsWord xs
unfolding every_word
every_word_sound [] h = tt
every_word_sound (x ∷ xs) h =
    let (now, later) = and_true (ltb x (2 ^ 32)) (every_word xs) h in
    (ltb→lt x (2 ^ 32) now, every_word_sound xs later)

table_words : every_word sm2_p256_precomputed ≡ true
unfolding every_word sm2_p256_precomputed
table_words = refl

table_length : length sm2_p256_precomputed ≡ 540
unfolding sm2_p256_precomputed
table_length = refl

-- The table from the offsets of the two halves on.
half-IsTable :
    (table_offset : ℕ)
    → table_offset ≤ 270
    → (270 ≤ length (drop table_offset sm2_p256_precomputed))
      × All IsWord (drop table_offset sm2_p256_precomputed)
half-IsTable table_offset low = (
  omega (arith, table_length, length-drop table_offset sm2_p256_precomputed),
  All-drop IsWord table_offset sm2_p256_precomputed
      (every_word_sound sm2_p256_precomputed table_words),
)

base_entry-IsEntry :
    (table_offset k : ℕ) → table_offset ≤ 270 → k < 15 → IsEntry (base_entry table_offset k)
unfolding base_entry
base_entry-IsEntry table_offset k low lt =
    let (size, words) = half-IsTable table_offset low in
    let (hx, hy) = affine_entry-IsArray k (drop table_offset sm2_p256_precomputed) size words lt in
    (hx, hy, factor-one)

-- One turn of the inner loop of `sm2P256ScalarBaseMult`, by its index.
turn : ℕ → ℕ → Sum → Sum
unfolding sm2_p256_precomputed
turn table_offset index s =
    let (px, py) = select_affine_point (drop table_offset sm2_p256_precomputed) index in
    let t = point_add_mixed s.out px py in
    accept s.out s.n_is_infinity_mask (record { x = px; y = py; z = factor 1 }) t index

-- A turn with the entry that was looked up.
abbrev turn_with : ℕ → Sum → List ℕ × List ℕ → Sum
turn_with index s p =
    accept s.out s.n_is_infinity_mask (record { x = p.0; y = p.1; z = factor 1 })
      (point_add_mixed s.out p.0 p.1) index

turn-IsSum :
    (table_offset index : ℕ) (s : Sum) (sum : Option Jacobian)
    → table_offset ≤ 270
    → index < 16
    → Keeps s sum
    → IsSum (turn table_offset index s) (add_entry table_offset index sum)
unfolding turn add_entry base_entry
turn-IsSum table_offset zero s sum low lt h =
    subst (λ (p : List ℕ × List ℕ). IsSum (turn_with 0 s p) sum)
      (sym (select_affine_point_zero (drop table_offset sm2_p256_precomputed)))
      (skip-IsSum s sum (record { x = zeros; y = zeros; z = factor 1 })
        (point_add_mixed s.out zeros zeros) h (zeros-IsArray, zeros-IsArray, factor-one)
        (point_add_mixed-IsEntry s.out zeros zeros (Keeps-IsEntry s sum h) zeros-IsArray
          zeros-IsArray)
        refl refl)
turn-IsSum table_offset (suc k) s sum low lt h =
    let table = drop table_offset sm2_p256_precomputed in
    let (size, words) = half-IsTable table_offset low in
    let (hx, hy) = affine_entry-IsArray k table size words (omega arith) in
    let (px, py) = affine_entry k table in
    subst
      (λ (p : List ℕ × List ℕ). IsSum (turn_with (suc k) s p) (add_entry table_offset (suc k) sum))
      (sym (select_affine_point_entry table k size words (omega arith)))
      (take-IsSum s sum s.out (base_entry table_offset k) (λ q. point_add_mixed q px py) k h
        (Keeps-IsEntry s sum h) (hx, hy, factor-one)
        (point_add_mixed-IsEntry s.out px py (Keeps-IsEntry s sum h) hx hy) lt)

first_or_double :
    (b : Bool) (s : Sum) (sum : Option Jacobian)
    → IsSum s sum
    → Keeps
        (if b
          then s
          else record { out = point_double s.out; n_is_infinity_mask = s.n_is_infinity_mask })
        (if b then sum else doubled sum)
first_or_double true s sum h = IsSum-Keeps s sum h
first_or_double false s sum h = double-Keeps s sum (IsSum-Keeps s sum h)

base_loop-IsSum :
    (scalar : List ℕ) (n i : ℕ) (s : Sum) (sum : Option Jacobian)
    → IsSum s sum
    → IsSum (base_loop scalar n i s) (add_entries scalar n i sum)
unfolding base_loop base_add add_entries turn
base_loop-IsSum scalar zero i s sum h = h
base_loop-IsSum scalar (suc n) i s sum h =
    let start =
      if i == 0
      then s
      else record { out = point_double s.out; n_is_infinity_mask = s.n_is_infinity_mask } in
    let begun = if i == 0 then sum else doubled sum in
    let k0 = base_index scalar i 0 in
    let k32 = base_index scalar i 32 in
    let low =
      turn-IsSum 0 k0 start begun (omega arith) (base_index-digits scalar i 0).1
        (first_or_double (i == 0) s sum h) in
    let low_s = turn 0 k0 start in
    let low_sum = add_entry 0 k0 begun in
    let high =
      turn-IsSum 270 k32 low_s low_sum (omega arith) (base_index-digits scalar i 32).1
        (IsSum-Keeps low_s low_sum low) in
    base_loop-IsSum scalar n (suc i) (turn 270 k32 low_s) (add_entry 270 k32 low_sum) high

-- `sm2P256ScalarBaseMult` returns what a loop with branches sums up: from the highest bits of the
-- scalar on it doubles the sum and adds the two entries of the table that the bits name, takes the
-- first entry as it is, and adds nothing where the bits are zero. Where nothing was added the
-- coordinates `x` and `y` are zero.
pub scalar_base_mult-add_entries :
    (scalar : List ℕ) → Stands (scalar_base_mult scalar) (add_entries scalar 32 0 none)
unfolding scalar_base_mult
scalar_base_mult-add_entries scalar =
    let start : Sum = record { out = infinity; n_is_infinity_mask = 0xffffffff } in
    IsSum-Stands (base_loop scalar 32 0 start) (add_entries scalar 32 0 none)
      (base_loop-IsSum scalar 32 0 start none infinity-IsSum)
