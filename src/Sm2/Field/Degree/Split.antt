-- ===== src/Sm2/Field/Degree/Split.antt =====
-- The first loop of `sm2P256ReduceDegree` keeps the number that the products stand for.
use gmsm.Common.{
  ℕ, suc, ◌+◌, ◌-◌, ◌*◌, ◌/◌, ◌%◌, ◌^◌, ◌≤◌, ◌<◌, ◌≡◌, refl, ap, bit_and, bit_or, and_mask,
  or_low_field, List, [], ◌∷◌, length, arith, Bool, true, false,
}
use gmsm.Sm2.Field.Sum.{value, IsLargeElement}
use gmsm.Sm2.Field.Degree.{low32, high32, wrap32, shl32, split_loop, split}

-- The products from the one given on, the last of which is small.
unfoldable IsProducts : Bool → ℕ → List ℕ → Type 0
IsProducts true p1 [] = ⊥
IsProducts false p1 [] = p1 ≤ 2 ^ 60
IsProducts true p1 (b ∷ bs) = (p1 < 2 ^ 64) × IsProducts false b bs
IsProducts false p1 (b ∷ bs) = (p1 < 2 ^ 64) × IsProducts true b bs

-- Limbs of 29 and 28 bits, but for the last.
unfoldable pub IsSplit : Bool → List ℕ → Type 0
IsSplit wide [] = ⊥
IsSplit true (t ∷ []) = ⊥
IsSplit false (t ∷ []) = t < 2 ^ 31 + 2 ^ 10
IsSplit true (t ∷ u ∷ ts) = (t < 2 ^ 29) × IsSplit false (u ∷ ts)
IsSplit false (t ∷ u ∷ ts) = (t < 2 ^ 28) × IsSplit true (u ∷ ts)

wide_limb :
    (p2 p1 b carry : ℕ)
    → p2 < 2 ^ 64
    → p1 < 2 ^ 64
    → carry ≤ 7
    → wrap32 (
        high32 p2 / 2 ^ 25
        + low32 p1 / 2 ^ 28
        + bit_and (shl32 (high32 p1) 4) 0x1fffffff
        + bit_and (low32 b) 0x1fffffff
        + carry)
      ≡ p2 / 2 ^ 57 + p1 / 2 ^ 28 % 2 ^ 29 + b % 2 ^ 29 + carry
wide_limb p2 p1 b carry h2 h1 hc =
    omega (arith, and_mask 29 (shl32 (high32 p1) 4), and_mask 29 (low32 b))

narrow_limb :
    (p2 p1 b carry : ℕ)
    → p2 < 2 ^ 64
    → p1 < 2 ^ 64
    → carry ≤ 7
    → wrap32 (
        high32 p2 / 2 ^ 25
        + low32 p1 / 2 ^ 29
        + bit_and (shl32 (high32 p1) 3) 0xfffffff
        + bit_and (low32 b) 0xfffffff
        + carry)
      ≡ p2 / 2 ^ 57 + p1 / 2 ^ 29 % 2 ^ 28 + b % 2 ^ 28 + carry
narrow_limb p2 p1 b carry h2 h1 hc =
    omega (arith, and_mask 28 (shl32 (high32 p1) 3), and_mask 28 (low32 b))

-- What the products in front add to the limbs from here on.
abbrev overflow : Bool → ℕ → ℕ → ℕ → ℕ
overflow true carry p2 p1 = p2 / 2 ^ 57 + p1 / 2 ^ 28 + carry
overflow false carry p2 p1 = p2 / 2 ^ 57 + p1 / 2 ^ 29 + carry

split_loop-value :
    (wide : Bool) (carry p2 p1 : ℕ) (bs : List ℕ)
    → p2 < 2 ^ 64
    → carry ≤ 7
    → IsProducts wide p1 bs
    → value wide (split_loop wide carry p2 p1 bs) ≡ overflow wide carry p2 p1 + value wide bs
unfolding split_loop value IsProducts
split_loop-value true carry p2 p1 [] h2 hc h = absurd h
split_loop-value false carry p2 p1 [] h2 hc h = omega arith
split_loop-value true carry p2 p1 (b ∷ bs) h2 hc (h1, h) =
    let t = wrap32 (
      high32 p2 / 2 ^ 25
      + low32 p1 / 2 ^ 28
      + bit_and (shl32 (high32 p1) 4) 0x1fffffff
      + bit_and (low32 b) 0x1fffffff
      + carry) in
    let t_is = wide_limb p2 p1 b carry h2 h1 hc in
    let rest = split_loop-value false (t / 2 ^ 29) p1 b bs h1 (omega (arith, t_is)) h in
    omega (arith, t_is, rest, and_mask 29 t)
split_loop-value false carry p2 p1 (b ∷ bs) h2 hc (h1, h) =
    let t = wrap32 (
      high32 p2 / 2 ^ 25
      + low32 p1 / 2 ^ 29
      + bit_and (shl32 (high32 p1) 3) 0xfffffff
      + bit_and (low32 b) 0xfffffff
      + carry) in
    let t_is = narrow_limb p2 p1 b carry h2 h1 hc in
    let rest = split_loop-value true (t / 2 ^ 28) p1 b bs h1 (omega (arith, t_is)) h in
    omega (arith, t_is, rest, and_mask 28 t)

wide_front : (t : ℕ) (ts : List ℕ) → t < 2 ^ 29 → IsSplit false ts → IsSplit true (t ∷ ts)
unfolding IsSplit
wide_front t [] h rest = absurd rest
wide_front t (u ∷ ts) h rest = (h, rest)

narrow_front : (t : ℕ) (ts : List ℕ) → t < 2 ^ 28 → IsSplit true ts → IsSplit false (t ∷ ts)
unfolding IsSplit
narrow_front t [] h rest = absurd rest
narrow_front t (u ∷ ts) h rest = (h, rest)

split_loop-IsSplit :
    (wide : Bool) (carry p2 p1 : ℕ) (bs : List ℕ)
    → p2 < 2 ^ 64
    → carry ≤ 7
    → IsProducts wide p1 bs
    → IsSplit wide (split_loop wide carry p2 p1 bs)
unfolding split_loop IsSplit IsProducts
split_loop-IsSplit true carry p2 p1 [] h2 hc h = absurd h
split_loop-IsSplit false carry p2 p1 [] h2 hc h = omega arith
split_loop-IsSplit true carry p2 p1 (b ∷ bs) h2 hc (h1, h) =
    let t = wrap32 (
      high32 p2 / 2 ^ 25
      + low32 p1 / 2 ^ 28
      + bit_and (shl32 (high32 p1) 4) 0x1fffffff
      + bit_and (low32 b) 0x1fffffff
      + carry) in
    let t_is = wide_limb p2 p1 b carry h2 h1 hc in
    let rest = split_loop-IsSplit false (t / 2 ^ 29) p1 b bs h1 (omega (arith, t_is)) h in
    wide_front (bit_and t (2 ^ 29 - 1)) (split_loop false (t / 2 ^ 29) p1 b bs)
      (omega (arith, and_mask 29 t)) rest
split_loop-IsSplit false carry p2 p1 (b ∷ bs) h2 hc (h1, h) =
    let t = wrap32 (
      high32 p2 / 2 ^ 25
      + low32 p1 / 2 ^ 29
      + bit_and (shl32 (high32 p1) 3) 0xfffffff
      + bit_and (low32 b) 0xfffffff
      + carry) in
    let t_is = narrow_limb p2 p1 b carry h2 h1 hc in
    let rest = split_loop-IsSplit true (t / 2 ^ 28) p1 b bs h1 (omega (arith, t_is)) h in
    narrow_front (bit_and t (2 ^ 28 - 1)) (split_loop true (t / 2 ^ 28) p1 b bs)
      (omega (arith, and_mask 28 t)) rest

pub length-split_loop :
    (wide : Bool) (carry p2 p1 : ℕ) (bs : List ℕ)
    → length (split_loop wide carry p2 p1 bs) ≡ suc (length bs)
unfolding split_loop
length-split_loop true carry p2 p1 [] = refl
length-split_loop false carry p2 p1 [] = refl
length-split_loop true carry p2 p1 (b ∷ bs) = ap suc (length-split_loop false _ p1 b bs)
length-split_loop false carry p2 p1 (b ∷ bs) = ap suc (length-split_loop true _ p1 b bs)

first_limb :
    (b0 b1 : ℕ)
    → b0 < 2 ^ 64
    → wrap32 (
        bit_or (low32 b0 / 2 ^ 29) (bit_and (shl32 (high32 b0) 3) 0xfffffff)
        + bit_and (low32 b1) 0xfffffff)
      ≡ b0 / 2 ^ 29 % 2 ^ 28 + b1 % 2 ^ 28
first_limb b0 b1 h = omega (
  arith,
  and_mask 28 (shl32 (high32 b0) 3),
  and_mask 28 (low32 b1),
  ap (bit_or (low32 b0 / 2 ^ 29)) {x = bit_and (shl32 (high32 b0) 3) 0xfffffff}
      {y = (b0 / 2 ^ 32 % 2 ^ 25) * 2 ^ 3} (omega (arith, and_mask 28 (shl32 (high32 b0) 3))),
  or_low_field 3 (b0 / 2 ^ 32 % 2 ^ 25) (low32 b0 / 2 ^ 29) (omega arith),
)

-- For seventeen products the eighteen limbs stand for the same number.
pub split-value :
    (b : List ℕ)
    → IsLargeElement b
    → (value true (split b) ≡ value true b) × IsSplit true (split b) × (length (split b) ≡ 18)
unfolding split IsLargeElement value IsProducts IsSplit
split-value
      (b0 ∷ b1 ∷ b2 ∷ b3 ∷ b4 ∷ b5 ∷ b6 ∷ b7 ∷ b8 ∷ b9 ∷ b10 ∷ b11 ∷ b12 ∷ b13 ∷ b14 ∷ b15 ∷ b16
        ∷ [])
      (h0, h1, h2, h3, h4, h5, h6, h7, h8, h9, h10, h11, h12, h13, h14, h15, h16) =
    let bs = b2 ∷ b3 ∷ b4 ∷ b5 ∷ b6 ∷ b7 ∷ b8 ∷ b9 ∷ b10 ∷ b11 ∷ b12 ∷ b13 ∷ b14 ∷ b15 ∷ b16 ∷ [] in
    let t = wrap32 (
      bit_or (low32 b0 / 2 ^ 29) (bit_and (shl32 (high32 b0) 3) 0xfffffff)
      + bit_and (low32 b1) 0xfffffff) in
    let t_is = first_limb b0 b1 h0 in
    let small : t / 2 ^ 28 ≤ 7 = omega (arith, t_is) in
    let products : IsProducts true b1 bs = (
      h1,
      (h2, (h3, (h4, (h5, (h6, (h7, (h8, (h9, (h10, (h11, (h12, (h13, (h14, (h15, h16)))))))))))))),
    ) in
    (
      omega (
        arith,
        t_is,
        and_mask 29 (low32 b0),
        and_mask 28 t,
        split_loop-value true (t / 2 ^ 28) b0 b1 bs h0 small products,
      ),
      wide_front (bit_and (low32 b0) (2 ^ 29 - 1))
          (bit_and t (2 ^ 28 - 1) ∷ split_loop true (t / 2 ^ 28) b0 b1 bs)
          (omega (arith, and_mask 29 (low32 b0)))
          (narrow_front (bit_and t (2 ^ 28 - 1)) (split_loop true (t / 2 ^ 28) b0 b1 bs)
            (omega (arith, and_mask 28 t))
            (split_loop-IsSplit true (t / 2 ^ 28) b0 b1 bs h0 small products)),
      ap (λ (n : ℕ). suc (suc n)) (length-split_loop true (t / 2 ^ 28) b0 b1 bs),
    )
split-value _ h = absurd h
