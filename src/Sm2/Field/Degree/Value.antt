-- ===== src/Sm2/Field/Degree/Value.antt =====
-- `sm2P256ReduceDegree` divides by 2 ^ 257 modulo the prime.
use gmsm.Common.{
  ℕ, zero, suc, ◌+◌, ◌*◌, ◌%◌, ◌^◌, ◌≤◌, ◌<◌, ◌≡◌, refl, ap, ◌∙◌, bit_and, ltb, if◌then◌else◌, List,
  [], ◌∷◌, length, arith, Bool, true, false, not, ◌&&◌, drop_multiples, and_true,
}
use native.Mathlib.Nat.{mul_assoc}
use gmsm.Sm2.Field.{prime, reduce_carry}
use gmsm.Sm2.Field.Sum.{
  value, weight-nine, IsElement, reduce_carry-IsElement, IsLargeElement, reduce_carry-value,
}
use gmsm.Sm2.Field.Degree.{
  even_round, even_step, odd_round, odd_step, eliminate, split, collect, reduce_degree,
}
use gmsm.Sm2.Field.Degree.Split.{IsSplit, split-value}
use gmsm.Sm2.Field.Degree.EvenStep.{IsEvenReady, IsOddReady, IsBehind, even_safe, even_step-value}
use gmsm.Sm2.Field.Degree.Odd.{odd_step-value}
use gmsm.Sm2.Field.Degree.Collect.{IsLoose, collect-value}

length-choice :
    (b : Bool) (l m : List ℕ) → length l ≡ length m → length (if b then l else m) ≡ length m
length-choice true l m h = h
length-choice false l m h = refl

length-even_round : (x : ℕ) (ts : List ℕ) → length (even_round x ts) ≡ length ts
unfolding even_round
length-even_round x (t2 ∷ t3 ∷ t4 ∷ t5 ∷ t6 ∷ t7 ∷ t8 ∷ t9 ∷ rest) = refl
length-even_round x _ = refl

pub length-even_step : (ts : List ℕ) → 2 ≤ length ts → suc (length (even_step ts)) ≡ length ts
unfolding even_step
length-even_step (t0 ∷ t1 ∷ ts) h =
    ap (λ (n : ℕ). suc (suc n))
      (length-choice (ltb 0 (bit_and t0 0x1fffffff)) (even_round (bit_and t0 0x1fffffff) ts) ts
        (length-even_round (bit_and t0 0x1fffffff) ts))
length-even_step _ h = absurd (omega arith)

length-odd_round : (x : ℕ) (ts : List ℕ) → length (odd_round x ts) ≡ length ts
unfolding odd_round
length-odd_round x (t2 ∷ t3 ∷ t4 ∷ t5 ∷ t6 ∷ t7 ∷ t8 ∷ t9 ∷ rest) = refl
length-odd_round x _ = refl

pub length-odd_step : (ts : List ℕ) → 2 ≤ length ts → suc (length (odd_step ts)) ≡ length ts
unfolding odd_step
length-odd_step (t0 ∷ t1 ∷ ts) h =
    ap (λ (n : ℕ). suc (suc n))
      (length-choice (ltb 0 (bit_and t0 0xfffffff)) (odd_round (bit_and t0 0xfffffff) ts) ts
        (length-odd_round (bit_and t0 0xfffffff) ts))
length-odd_step _ h = absurd (omega arith)

-- In no round at an even position does the limb that gets `x >> 1` lend what it has not.
unfoldable pub safe_rounds : Bool → ℕ → List ℕ → Bool
safe_rounds wide zero ts = true
safe_rounds true (suc n) ts = even_safe ts && safe_rounds false n (even_step ts)
safe_rounds false (suc n) ts = safe_rounds true n (odd_step ts)

-- What `n` rounds divide by.
unfoldable divisor : Bool → ℕ → ℕ
divisor wide zero = 1
divisor true (suc n) = 2 ^ 29 * divisor false n
divisor false (suc n) = 2 ^ 28 * divisor true n

-- Whether the limb behind the rounds is wide.
unfoldable wide_after : Bool → ℕ → Bool
wide_after wide zero = wide
wide_after wide (suc n) = wide_after (not wide) n

unfoldable IsReady : Bool → List ℕ → Type 0
IsReady true ts = IsEvenReady ts
IsReady false ts = IsOddReady ts

eliminate-value :
    (wide : Bool) (n : ℕ) (ts : List ℕ)
    → length ts ≡ 9 + n
    → wide_after wide n ≡ false
    → IsReady wide ts
    → safe_rounds wide n ts ≡ true
    → IsOddReady (eliminate wide n ts)
      × (length (eliminate wide n ts) ≡ 9)
      × ((k : ℕ) × (divisor wide n * value false (eliminate wide n ts) ≡ value wide ts + k * prime))
unfolding eliminate divisor wide_after IsReady safe_rounds
eliminate-value true zero ts size ends ready safe = absurd (ground arith)
eliminate-value false zero ts size ends ready safe = (ready, omega (arith, size), (0, omega arith))
eliminate-value true (suc n) ts size ends ready safe =
    let (now, later) = and_true (even_safe ts) (safe_rounds false n (even_step ts)) safe in
    let (odd, (m, once)) = even_step-value ts ready now in
    let (end, last, (k, more)) =
      eliminate-value false n (even_step ts) (omega (arith, length-even_step ts)) ends odd later in
    (
      end,
      last,
      (
        2 ^ 29 * k + m,
        omega (
          arith,
          once,
          more,
          mul_assoc (2 ^ 29) (divisor false n) (value false (eliminate false n (even_step ts))),
        ),
      ),
    )
eliminate-value false (suc zero) ts size ends ready safe = absurd (ground arith)
eliminate-value false (suc (suc n)) ts size ends ready safe =
    let (even, (m, once)) = odd_step-value ts (omega arith) ready in
    let (end, last, (k, more)) =
      eliminate-value true (suc n) (odd_step ts) (omega (arith, length-odd_step ts)) ends even
        safe in
    (
      end,
      last,
      (
        2 ^ 28 * k + m,
        omega (
          arith,
          once,
          more,
          mul_assoc (2 ^ 28) (divisor true (suc n))
              (value false (eliminate true (suc n) (odd_step ts))),
        ),
      ),
    )

-- The limbs that the last loop of `sm2P256ReduceDegree` reads.
loose_behind : (w : ℕ) (ts : List ℕ) → IsBehind w ts → w < 2 ^ 31 + 2 ^ 10 + 2 ^ 28
unfolding IsBehind
loose_behind w [] h = h
loose_behind w (t ∷ ts) (h, _) = omega arith

eliminated-IsLoose : (ts : List ℕ) → length ts ≡ 9 → IsOddReady ts → IsLoose ts
unfolding IsOddReady IsLoose
eliminated-IsLoose (w0 ∷ w1 ∷ w2 ∷ w3 ∷ w4 ∷ w5 ∷ w6 ∷ w7 ∷ w8 ∷ []) size
      (h0, h1, h2, h3, h4, h5, h6, h7, h8) =
    (
      omega arith,
      (
        omega arith,
        (
          omega arith,
          (
            omega arith,
            (omega arith, (omega arith, (omega arith, (omega arith, (loose_behind w8 [] h8, tt))))),
          ),
        ),
      ),
    )
eliminated-IsLoose _ size h = absurd (omega arith)

split-IsEvenReady : (ts : List ℕ) → 10 ≤ length ts → IsSplit true ts → IsEvenReady ts
unfolding IsSplit IsEvenReady
split-IsEvenReady (t0 ∷ t1 ∷ t2 ∷ t3 ∷ t4 ∷ t5 ∷ t6 ∷ t7 ∷ t8 ∷ t9 ∷ rest) size
      (h0, (h1, (h2, (h3, (h4, (h5, (h6, (h7, (h8, h9))))))))) =
    (
      omega arith,
      omega arith,
      omega arith,
      omega arith,
      omega arith,
      omega arith,
      omega arith,
      omega arith,
      omega arith,
      h9,
    )
split-IsEvenReady _ size h = absurd (omega arith)

-- For seventeen products that fit in their words, and where no round at an even position lends what
-- it has not, the element that `sm2P256ReduceDegree` makes stands, modulo the prime, for what the
-- products stand for over 2 ^ 257, and its limbs have at most one bit more than their widths.
pub reduce_degree-value :
    (b : List ℕ)
    → IsLargeElement b
    → safe_rounds true 9 (split b) ≡ true
    → (2 ^ 257 * value true (reduce_degree b) % prime ≡ value true b % prime)
      × IsElement (reduce_degree b)
unfolding reduce_degree divisor IsReady wide_after
reduce_degree-value b large safe =
    let ts = split b in
    let (same, narrow, size) = split-value b large in
    let (end, last, (k, divided)) =
      eliminate-value true 9 ts size refl (split-IsEvenReady ts (omega (arith, size)) narrow)
        safe in
    let us = eliminate true 9 ts in
    let out = collect 0 us in
    let (sum, low, fits, nine) =
      collect-value 0 us (omega arith) (eliminated-IsLoose us last end) in
    let reduced = reduce_carry-value out.0 out.1 (nine ∙ last) fits low in
    (
      drop_multiples prime (2 ^ 257 * value true (reduce_carry out.0 out.1)) (value true b)
          (2 ^ 258 * out.1) k
          (omega
            (arith, same, divided, reduced, sum, ap (λ (w : ℕ). w * out.1) (weight-nine us last))),
      reduce_carry-IsElement out.0 out.1 (nine ∙ last) fits low,
    )
