-- ===== src/Sm2/P256/Multiples.antt =====
-- The table of sm2/p256.go holds the multiples of the base point that `sm2P256ScalarBaseMult` adds.
use gmsm.Common.{
  ℕ, zero, suc, ◌+◌, ◌*◌, ◌/◌, ◌%◌, ◌^◌, ◌<◌, ◌≡◌, refl, drop, Bool, true, ◌==◌, ==_iff, ◌&&◌,
  and_true, ltb, ltb→lt, if◌then◌else◌, all_below, all_below_sound,
}
use gmsm.Sm2.Field.{prime}
use gmsm.Sm2.Field.Convert.{to_big, to_big_loop}
use gmsm.Sm2.Hash.{gx, gy}
use gmsm.Sm2.P256.Table.{sm2_p256_precomputed}
use gmsm.Sm2.P256.Select.Affine.{affine_entry}
use gmsm.Sm2.P256.Formulas.Doubling.{double_numbers}
use gmsm.Sm2.P256.Formulas.Mixed.{mixed_numbers}

-- Jacobian coordinates as numbers below the prime.
abbrev pub below_prime : ℕ × ℕ × ℕ → ℕ × ℕ × ℕ
below_prime p = (p.0 % prime, p.1 % prime, p.2 % prime)

abbrev pub twice : ℕ × ℕ × ℕ → ℕ × ℕ × ℕ
twice p = below_prime (double_numbers p.0 p.1 p.2)

abbrev pub plus_base : ℕ × ℕ × ℕ → ℕ × ℕ × ℕ
plus_base p = below_prime (mixed_numbers p.0 p.1 p.2 gx gy)

-- Doubling and adding: the multiple of the base point by a number that is not zero, where the fuel
-- exceeds the number of its binary digits.
unfoldable pub times_base : ℕ → ℕ → ℕ × ℕ × ℕ
unfolding double_numbers mixed_numbers
times_base zero n = (0, 0, 0)
times_base (suc fuel) n =
    let doubled = twice (times_base fuel (n / 2)) in
    if n == 1 then (gx, gy, 1) else if n % 2 == 1 then plus_base doubled else doubled

-- The factor of the entry behind `k` others in the half: its binary digits stand 64 places apart.
unfoldable pub entry_factor : ℕ → ℕ → ℕ
entry_factor half k =
    let i = suc k in
    2 ^ (32 * half) * (i % 2 + i / 2 % 2 * 2 ^ 64 + i / 4 % 2 * 2 ^ 128 + i / 8 * 2 ^ 192)

-- The numbers that the entry behind `k` others in the half stands for.
unfoldable pub entry_numbers : ℕ → ℕ → ℕ × ℕ
unfolding sm2_p256_precomputed to_big to_big_loop
entry_numbers half k =
    let (x, y) = affine_entry k (drop (270 * half) sm2_p256_precomputed) in (to_big x, to_big y)

-- Whether affine and Jacobian coordinates are of one point.
abbrev same_point : ℕ × ℕ → ℕ × ℕ × ℕ → Bool
same_point a p =
    ltb 0 p.2 && ((a.0 * p.2 * p.2 % prime == p.0) && (a.1 * p.2 * p.2 * p.2 % prime == p.1))

all_same :
    all_below 2 (λ (half : ℕ).
      all_below 15
        (λ (k : ℕ). same_point (entry_numbers half k) (times_base 257 (entry_factor half k))))
    ≡ true
unfolding all_below entry_numbers times_base entry_factor
all_same = refl

-- The table of `sm2P256ScalarBaseMult` has two halves of fifteen entries. The entry of index `i` in a
-- half is, in affine coordinates, the multiple of the base point by the number whose binary digits
-- at distance 64 are those of `i`, times 2 ^ 32 in the second half: the multiple that doubling and
-- adding by the formulas in Jacobian coordinates computes, and none of them is the point at infinity.
pub precomputed-times_base :
    (half k : ℕ)
    → half < 2
    → k < 15
    → let a = entry_numbers half k in
      let p = times_base 257 (entry_factor half k) in
      (0 < p.2) × (a.0 * p.2 * p.2 % prime ≡ p.0) × (a.1 * p.2 * p.2 * p.2 % prime ≡ p.1)
precomputed-times_base half k half_low low =
    let a = entry_numbers half k in
    let p = times_base 257 (entry_factor half k) in
    let row =
      all_below_sound 2
        (λ (h : ℕ).
          all_below 15
            (λ (j : ℕ). same_point (entry_numbers h j) (times_base 257 (entry_factor h j))))
        half all_same half_low in
    let one =
      all_below_sound 15
        (λ (j : ℕ). same_point (entry_numbers half j) (times_base 257 (entry_factor half j))) k row
        low in
    let (nonzero, rest) =
      and_true (ltb 0 p.2)
        ((a.0 * p.2 * p.2 % prime == p.0) && (a.1 * p.2 * p.2 * p.2 % prime == p.1)) one in
    let (first, second) =
      and_true (a.0 * p.2 * p.2 % prime == p.0) (a.1 * p.2 * p.2 * p.2 % prime == p.1) rest in
    (ltb→lt 0 p.2 nonzero, (==_iff _ _).0 first, (==_iff _ _).0 second)
