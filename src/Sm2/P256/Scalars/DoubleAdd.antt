-- ===== src/Sm2/P256/Scalars/DoubleAdd.antt =====
-- `sm2P256ScalarMult` against double-and-add over the hexadecimal digits of the scalar's number.
use gmsm.Common.{
  ℕ, zero, suc, ◌+◌, ◌-◌, ◌*◌, ◌/◌, ◌%◌, ◌<◌, ◌≡◌, ◌≢◌, refl, sym, ap, ◌∙◌, subst, ◌==◌, ==_iff,
  if◌then◌else◌, Bool-cases, inl, inr, bit_and, List, [], ◌∷◌, arith, false, Option, none, some,
  All, IsByte, and_mask, get_or,
}
use gmsm.Sm2.Field.Arrays.{IsArray}
use gmsm.Sm2.P256.Points.{Jacobian, factor, point_double, point_add, point_add_mixed}
use gmsm.Sm2.P256.Scalars.{infinity, precompute, multiples, window, scalar_mult}
use gmsm.Sm2.P256.Scalars.Reversal.{from_little}
use gmsm.Sm2.P256.Scalars.Refinement.{add_to, doubled, Stands}
use gmsm.Sm2.P256.Scalars.Mult.{entries, add_window, add_windows, scalar_mult-add_windows}

-- The digit of a number at a place, to the base sixteen.
unfoldable pub hex_digit : ℕ → ℕ → ℕ
hex_digit v zero = v % 16
hex_digit v (suc n) = hex_digit (v / 16) n

-- The multiple `n`, below `2 ^ bits`, of a point in affine coordinates: the double of the half, and
-- the point added to it where `n` is odd.
unfoldable pub multiple : ℕ → ℕ → List ℕ → List ℕ → Jacobian
multiple zero n x y = record { x = x; y = y; z = factor 1 }
multiple (suc bits) n x y =
    let even = point_double (multiple bits (n / 2) x y) in
    if n == 1
    then record { x = x; y = y; z = factor 1 }
    else if n % 2 == 1
    then point_add_mixed even x y
    else even

-- The sum with the multiple that a digit names, by `sm2P256PointAdd`; the digit zero adds nothing.
unfoldable pub add_multiple : List ℕ → List ℕ → ℕ → Option Jacobian → Option Jacobian
add_multiple x y zero sum = sum
add_multiple x y (suc k) sum =
    let p = multiple 4 (suc k) x y in some (add_to (λ q. (point_add q p).1) p sum)

-- The lowest `n` digits of `v`, the highest of them first: sixteen times the sum, and the digit's
-- multiple.
unfoldable pub double_and_add : List ℕ → List ℕ → ℕ → ℕ → Option Jacobian → Option Jacobian
double_and_add x y v zero sum = sum
double_and_add x y v (suc n) sum =
    double_and_add x y v n
      (add_multiple x y (hex_digit v n) (doubled (doubled (doubled (doubled sum)))))

hex_digit-zero : (n : ℕ) → hex_digit 0 n ≡ 0
unfolding hex_digit
hex_digit-zero zero = refl
hex_digit-zero (suc n) = hex_digit-zero n

-- Two digits for each byte.
hex_digit-bytes :
    (scalar : List ℕ) (j : ℕ)
    → All IsByte scalar
    → (hex_digit (from_little scalar) (j + j) ≡ get_or scalar j 0 % 16)
      × (hex_digit (from_little scalar) (suc (j + j)) ≡ get_or scalar j 0 / 16)
unfolding hex_digit from_little
hex_digit-bytes [] j bytes = (hex_digit-zero (j + j), hex_digit-zero (suc (j + j)))
hex_digit-bytes (b ∷ scalar) zero (low, bytes) = (omega arith, omega arith)
hex_digit-bytes (b ∷ scalar) (suc j) (low, bytes) =
    let v = b + 256 * from_little scalar in
    let places : suc j + suc j ≡ suc (suc (j + j)) = omega arith in
    let behind : v / 16 / 16 ≡ from_little scalar = omega arith in
    let (even, odd) = hex_digit-bytes scalar j bytes in
    (
      ap (hex_digit v) places ∙ ap (λ (w : ℕ). hex_digit w (j + j)) behind ∙ even,
      ap (λ (n : ℕ). hex_digit v (suc n)) places
          ∙ ap (λ (w : ℕ). hex_digit w (suc (j + j))) behind
          ∙ odd,
    )

-- The index that is looked up is the digit.
window-hex_digit :
    (scalar : List ℕ) (i n : ℕ)
    → All IsByte scalar
    → i + n ≡ 63
    → window scalar i ≡ hex_digit (from_little scalar) n
unfolding window
window-hex_digit scalar i n bytes h =
    let j = n / 2 in
    let (even, odd) = hex_digit-bytes scalar j bytes in
    let byte : 31 - i / 2 ≡ j = omega arith in
    let last : bit_and i 1 ≡ i % 2 = and_mask 1 i in
    elim (Bool-cases (i % 2 == 1)) [
      | inl e ↦
          let low : i % 2 ≡ 1 = (==_iff (i % 2) 1).0 e in
          let place : j + j ≡ n = omega arith in
          rw (last, e, byte)
            (and_mask 4 (get_or scalar j 0) ∙ sym even ∙ ap (hex_digit (from_little scalar)) place)
      | inr e ↦
          let high : i % 2 ≢ 1 = λ q. let clash = (==_iff (i % 2) 1).1 q in cc in
          let place : suc (j + j) ≡ n = omega arith in
          rw (last, e, byte) (sym odd ∙ ap (hex_digit (from_little scalar)) place)
    ]

unfoldable values : (ℕ → Jacobian) → ℕ → ℕ → List Jacobian
values f i zero = []
values f i (suc n) = f i ∷ values f (suc i) n

get_or-values :
    (f : ℕ → Jacobian) (i n k : ℕ) (default : Jacobian)
    → k < n
    → get_or (values f i n) k default ≡ f (i + k)
unfolding values
get_or-values f i zero k default h = absurd (omega arith)
get_or-values f i (suc n) zero default h = ap f (omega arith)
get_or-values f i (suc n) (suc k) default h =
    get_or-values f (suc i) n k default (omega arith) ∙ ap f (omega arith)

-- The entries of the table are the multiples.
entries-values : (x y : List ℕ) → entries x y ≡ values (λ n. multiple 4 n x y) 1 15
unfolding entries multiples precompute multiple values
entries-values x y = refl

entries-multiple :
    (x y : List ℕ) (k : ℕ) → k < 15 → get_or (entries x y) k infinity ≡ multiple 4 (suc k) x y
entries-multiple x y k h =
    ap (λ t. get_or t k infinity) (entries-values x y)
    ∙ get_or-values (λ n. multiple 4 n x y) 1 15 k infinity h
    ∙ ap (λ (n : ℕ). multiple 4 n x y) (omega arith)

hex_digit-lt : (v n : ℕ) → hex_digit v n < 16
unfolding hex_digit
hex_digit-lt v zero = omega arith
hex_digit-lt v (suc n) = hex_digit-lt (v / 16) n

add_window-multiple :
    (x y : List ℕ) (k : ℕ) (sum : Option Jacobian)
    → k < 16
    → add_window (entries x y) k sum ≡ add_multiple x y k sum
unfolding add_window add_multiple
add_window-multiple x y zero sum h = refl
add_window-multiple x y (suc k) sum h =
    ap (λ p. some (add_to (λ q. (point_add q p).1) p sum)) (entries-multiple x y k (omega arith))

-- A turn of the loop at the window `i` adds the digit at the place `n`.
add_window-digit :
    (x y scalar : List ℕ) (i n : ℕ) (sum : Option Jacobian)
    → All IsByte scalar
    → i + n ≡ 63
    → add_window (entries x y) (window scalar i) sum
      ≡ add_multiple x y (hex_digit (from_little scalar) n) sum
add_window-digit x y scalar i n sum bytes h =
    let v = from_little scalar in
    ap (λ (k : ℕ). add_window (entries x y) k sum) (window-hex_digit scalar i n bytes h)
    ∙ add_window-multiple x y (hex_digit v n) sum (hex_digit-lt v n)

add_windows-double_and_add :
    (x y scalar : List ℕ) (n i : ℕ) (sum : Option Jacobian)
    → All IsByte scalar
    → suc i + n ≡ 64
    → add_windows (entries x y) scalar n (suc i) sum ≡ double_and_add x y (from_little scalar) n sum
unfolding add_windows double_and_add
add_windows-double_and_add x y scalar zero i sum bytes h = refl
add_windows-double_and_add x y scalar (suc n) i sum bytes h =
    let later : (suc i == 0) ≡ false = ground arith in
    let start = doubled (doubled (doubled (doubled sum))) in
    rw (later, add_window-digit x y scalar (suc i) n start bytes (omega arith))
      (add_windows-double_and_add x y scalar n (suc i)
        (add_multiple x y (hex_digit (from_little scalar) n) start) bytes (omega arith))

-- For coordinates of nine words and a scalar of bytes, the lowest first, `sm2P256ScalarMult` returns
-- the result of double-and-add over the 64 lowest hexadecimal digits of the scalar's number, from the
-- highest on: four doublings of the sum, then the digit's multiple of the point is added by
-- `sm2P256PointAdd`; the first multiple is taken as it is, and the digit zero adds nothing. The
-- multiples are made by doubling the half, with the point added where the number is odd. Where
-- nothing was added the coordinates `x` and `y` are zero.
pub scalar_mult-double_and_add :
    (x y scalar : List ℕ)
    → IsArray x
    → IsArray y
    → All IsByte scalar
    → Stands (scalar_mult x y scalar) (double_and_add x y (from_little scalar) 64 none)
unfolding add_windows double_and_add doubled
scalar_mult-double_and_add x y scalar hx hy bytes =
    let v = from_little scalar in
    subst (Stands (scalar_mult x y scalar))
      (ap (add_windows (entries x y) scalar 63 1) (add_window-digit x y scalar 0 63 none bytes refl)
        ∙ add_windows-double_and_add x y scalar 63 0 (add_multiple x y (hex_digit v 63) none) bytes
            refl)
      (scalar_mult-add_windows x y scalar hx hy bytes)
