-- ===== src/Sm2/Field/Degree/Collect.antt =====
-- The last loop of `sm2P256ReduceDegree` gives the limbs their widths.
use gmsm.Common.{
  ℕ, suc, ◌+◌, ◌*◌, ◌/◌, ◌%◌, ◌^◌, ◌≤◌, ◌<◌, ◌≡◌, refl, ap, bit_and, and_mask, List, [], ◌∷◌,
  length, arith, true, false,
}
use native.Mathlib.Nat.{mul_assoc}
use gmsm.Sm2.Field.{bottom_29_bits}
use gmsm.Sm2.Field.Sum.{value, weight, IsNarrow}
use gmsm.Sm2.Field.Degree.{wrap32, shl32, collect}

-- What the rounds leave in a limb leaves room for a carry.
unfoldable pub IsLoose : List ℕ → Type 0
IsLoose [] = Unit
IsLoose (t ∷ ts) = (t < 2 ^ 31 + 2 ^ 10 + 2 ^ 28) × IsLoose ts

pub collect-value :
    (carry : ℕ) (ts : List ℕ)
    → carry ≤ 7
    → IsLoose ts
    → (value true (collect carry ts).0 + weight true ts * (collect carry ts).1
        ≡ value false ts + carry)
      × ((collect carry ts).1 ≤ 7)
      × IsNarrow true (collect carry ts).0
      × (length (collect carry ts).0 ≡ length ts)
unfolding collect value weight IsLoose IsNarrow
collect-value carry [] low h = (omega arith, low, tt, refl)
collect-value carry (t ∷ []) low (h, _) =
    let a = wrap32 (t + carry) in
    (omega (arith, and_mask 29 a), omega arith, (omega (arith, and_mask 29 a), tt), refl)
collect-value carry (t ∷ u ∷ ts) low (h, (g, rest)) =
    let a = wrap32 (t + carry + bit_and (shl32 u 28) bottom_29_bits) in
    let b = wrap32 (u / 2 + a / 2 ^ 29) in
    let a_is : a ≡ t + carry + 2 ^ 28 * (u % 2) = omega (arith, and_mask 29 (shl32 u 28)) in
    let (sum, last, narrow, size) = collect-value (b / 2 ^ 28) ts (omega (arith, a_is)) rest in
    let out = collect (b / 2 ^ 28) ts in
    (
      omega (
        arith,
        sum,
        a_is,
        and_mask 29 a,
        and_mask 28 b,
        mul_assoc (2 ^ 57) (weight true ts) out.1,
      ),
      last,
      (omega (arith, and_mask 29 a), (omega (arith, and_mask 28 b), narrow)),
      ap (λ (n : ℕ). suc (suc n)) size,
    )
