-- ===== src/Sm2/Field/Degree.antt =====
-- sm2/p256.go: `sm2P256ReduceDegree`, which divides seventeen products by 2 ^ 257 modulo the prime.
-- The limbs `tmp[i]` that a round still reads are a list that begins with `tmp[i]`: the round makes
-- that limb zero, and no later one reads it.
pub mod Split
pub mod Even
pub mod EvenStep
pub mod Odd
pub mod Collect
pub mod Value
use gmsm.Common.{
  ℕ, zero, suc, ◌+◌, ◌-◌, ◌*◌, ◌/◌, ◌%◌, ◌^◌, bit_and, bit_or, ltb, ◌==◌, ◌&&◌, not, List, [], ◌∷◌,
  Bool, true, false, if◌then◌else◌,
}
use gmsm.Sm2.Field.{bottom_28_bits, bottom_29_bits, sub32, reduce_carry}

-- `uint32(b)` and `uint32(b >> 32)` of a `uint64`, and sums and shifts of `uint32`s.
abbrev pub low32 : ℕ → ℕ
low32 b = b % 2 ^ 32

abbrev pub high32 : ℕ → ℕ
high32 b = b / 2 ^ 32

abbrev pub wrap32 : ℕ → ℕ
wrap32 x = x % 2 ^ 32

abbrev pub shl32 : ℕ → ℕ → ℕ
shl32 x k = x * 2 ^ k % 2 ^ 32

-- The first loop: from the products `b[i-2]`, `b[i-1]` and those behind them the limbs `tmp[i]` and
-- on; `wide` says whether `i` is even. Behind the products stands `tmp[17]`.
unfoldable pub split_loop : Bool → ℕ → ℕ → ℕ → List ℕ → List ℕ
split_loop wide carry p2 p1 [] =
    wrap32 (high32 p2 / 2 ^ 25 + low32 p1 / 2 ^ 29 + shl32 (high32 p1) 3 + carry) ∷ []
split_loop true carry p2 p1 (b ∷ bs) =
    let t = wrap32 (
      high32 p2 / 2 ^ 25
      + low32 p1 / 2 ^ 28
      + bit_and (shl32 (high32 p1) 4) bottom_29_bits
      + bit_and (low32 b) bottom_29_bits
      + carry) in
    bit_and t bottom_29_bits ∷ split_loop false (t / 2 ^ 29) p1 b bs
split_loop false carry p2 p1 (b ∷ bs) =
    let t = wrap32 (
      high32 p2 / 2 ^ 25
      + low32 p1 / 2 ^ 29
      + bit_and (shl32 (high32 p1) 3) bottom_28_bits
      + bit_and (low32 b) bottom_28_bits
      + carry) in
    bit_and t bottom_28_bits ∷ split_loop true (t / 2 ^ 28) p1 b bs

unfoldable pub split : List ℕ → List ℕ
split (b0 ∷ b1 ∷ bs) =
    let t = wrap32 (
      bit_or (low32 b0 / 2 ^ 29) (bit_and (shl32 (high32 b0) 3) bottom_28_bits)
      + bit_and (low32 b1) bottom_28_bits) in
    bit_and (low32 b0) bottom_29_bits
    ∷ bit_and t bottom_28_bits
    ∷ split_loop true (t / 2 ^ 28) b0 b1 bs
split _ = []

unfoldable pub non_zero_to_all_ones : ℕ → ℕ
non_zero_to_all_ones x = sub32 (sub32 x 1 / 2 ^ 31) 1

-- `c & xMask`
abbrev pub masked : ℕ → ℕ → ℕ
masked c x = bit_and c (non_zero_to_all_ones x)

-- The second loop at an even position, where the limb `x` is not zero. First `tmp[i+3]`, with
-- `set4`.
unfoldable pub even_three : ℕ → ℕ → ℕ × ℕ
even_three x t3 =
    let t = wrap32 (t3 + x / 2 ^ 22) in
    let d = bit_and (shl32 x 10) bottom_28_bits in
    if ltb t 0x10000000 then (sub32 (wrap32 (t + masked 0x10000000 x)) d, 1) else (sub32 t d, 0)

-- `tmp[i+6]` with `set7`, where `tmp[i+5]` borrows.
unfoldable pub even_six : ℕ → ℕ → ℕ × ℕ
even_six x t6 =
    if ltb t6 0x20000000 then (sub32 (wrap32 (t6 + masked 0x20000000 x)) 1, 1) else (sub32 t6 1, 0)

-- `tmp[i+5]`, where `tmp[i+4]` borrows, with `tmp[i+6]` and `set7`.
unfoldable pub even_five : ℕ → ℕ → ℕ → ℕ × ℕ × ℕ
even_five x t5 t6 =
    if ltb t5 0x10000000
    then (sub32 (wrap32 (t5 + masked 0x10000000 x)) 1, (even_six x t6).0, (even_six x t6).1)
    else (sub32 t5 1, t6, 0)

-- `tmp[i+4]`, with what stands behind it.
unfoldable pub even_four : ℕ → ℕ → ℕ → ℕ → ℕ → ℕ × ℕ × ℕ × ℕ
even_four x set4 t4 t5 t6 =
    if ltb t4 0x20000000
    then (let (u5, u6, set7) = even_five x t5 t6 in
        (sub32 (sub32 (wrap32 (t4 + masked 0x20000000 x)) set4) (x / 2 ^ 18), u5, u6, set7))
    else (sub32 (sub32 t4 set4) (x / 2 ^ 18), t5, t6, 0)

-- `tmp[i+8]` and `tmp[i+9]`; `tmp[i+7]` borrows `set8` of the first.
unfoldable pub even_eight : ℕ → ℕ → ℕ → ℕ → ℕ × ℕ
even_eight x set8 t8 t9 =
    let t = wrap32 (t8 + bit_and (shl32 x 28) bottom_29_bits) in
    if ltb t 0x20000000
    then (
      sub32 (sub32 (wrap32 (t + masked 0x20000000 x)) set8) (x / 2 ^ 4),
      wrap32 (t9 + masked (sub32 (x / 2) 1) x),
    )
    else (sub32 (sub32 t set8) (x / 2 ^ 4), wrap32 (t9 + masked (x / 2) x))

-- `tmp[i+7]`, with `tmp[i+8]` and `tmp[i+9]`.
unfoldable pub even_seven : ℕ → ℕ → ℕ → ℕ → ℕ → ℕ × ℕ × ℕ
even_seven x set7 t7 t8 t9 =
    let d = bit_and (shl32 x 24) bottom_28_bits in
    if ltb t7 0x10000000
    then (let (u8, u9) = even_eight x 1 t8 t9 in
        (sub32 (sub32 (wrap32 (t7 + masked 0x10000000 x)) set7) d, u8, u9))
    else (let (u8, u9) = even_eight x 0 t8 t9 in (sub32 (sub32 t7 set7) d, u8, u9))

unfoldable pub even_round : ℕ → List ℕ → List ℕ
even_round x (t2 ∷ t3 ∷ t4 ∷ t5 ∷ t6 ∷ t7 ∷ t8 ∷ t9 ∷ rest) =
    let (u3, set4) = even_three x t3 in
    let (u4, u5, u6, set7) = even_four x set4 t4 t5 t6 in
    let (u7, u8, u9) = even_seven x set7 t7 t8 t9 in
    wrap32 (t2 + bit_and (shl32 x 7) bottom_29_bits) ∷ u3 ∷ u4 ∷ u5 ∷ u6 ∷ u7 ∷ u8 ∷ u9 ∷ rest
even_round x ts = ts

unfoldable pub even_step : List ℕ → List ℕ
even_step (t0 ∷ t1 ∷ ts) =
    let x = bit_and t0 bottom_29_bits in
    let rest = if ltb 0 x then even_round x ts else ts in wrap32 (t1 + t0 / 2 ^ 29) ∷ rest
even_step ts = ts

-- The same at an odd position, counted from there: `tmp[i+4]` of the source is the third limb
-- behind the one that is made zero.
unfoldable pub odd_three : ℕ → ℕ → ℕ × ℕ
odd_three x t3 =
    let t = wrap32 (t3 + x / 2 ^ 21) in
    let d = bit_and (shl32 x 11) bottom_29_bits in
    if ltb t 0x20000000 then (sub32 (wrap32 (t + masked 0x20000000 x)) d, 1) else (sub32 t d, 0)

unfoldable pub odd_six : ℕ → ℕ → ℕ × ℕ
odd_six x t6 =
    if ltb t6 0x10000000 then (sub32 (wrap32 (t6 + masked 0x10000000 x)) 1, 1) else (sub32 t6 1, 0)

unfoldable pub odd_five : ℕ → ℕ → ℕ → ℕ × ℕ × ℕ
odd_five x t5 t6 =
    if ltb t5 0x20000000
    then (sub32 (wrap32 (t5 + masked 0x20000000 x)) 1, (odd_six x t6).0, (odd_six x t6).1)
    else (sub32 t5 1, t6, 0)

unfoldable pub odd_four : ℕ → ℕ → ℕ → ℕ → ℕ → ℕ × ℕ × ℕ × ℕ
odd_four x set5 t4 t5 t6 =
    if ltb t4 0x10000000
    then (let (u5, u6, set8) = odd_five x t5 t6 in
        (sub32 (sub32 (wrap32 (t4 + masked 0x10000000 x)) set5) (x / 2 ^ 18), u5, u6, set8))
    else (sub32 (sub32 t4 set5) (x / 2 ^ 18), t5, t6, 0)

-- `tmp[i+8]` of the source, with `set9`.
unfoldable pub odd_seven : ℕ → ℕ → ℕ → ℕ × ℕ
odd_seven x set8 t7 =
    let d = bit_and (shl32 x 25) bottom_29_bits in
    if ltb t7 0x20000000
    then (sub32 (sub32 (wrap32 (t7 + masked 0x20000000 x)) set8) d, 1)
    else (sub32 (sub32 t7 set8) d, 0)

-- `tmp[i+9]` and `tmp[i+10]` of the source.
unfoldable pub odd_eight : ℕ → ℕ → ℕ → ℕ → ℕ × ℕ
odd_eight x set9 t8 t9 =
    if ltb t8 0x10000000
    then (
      sub32 (sub32 (wrap32 (t8 + masked 0x10000000 x)) set9) (x / 2 ^ 4),
      wrap32 (t9 + masked (sub32 x 1) x),
    )
    else (sub32 (sub32 t8 set9) (x / 2 ^ 4), wrap32 (t9 + masked x x))

unfoldable pub odd_round : ℕ → List ℕ → List ℕ
odd_round x (t2 ∷ t3 ∷ t4 ∷ t5 ∷ t6 ∷ t7 ∷ t8 ∷ t9 ∷ rest) =
    let (u3, set5) = odd_three x t3 in
    let (u4, u5, u6, set8) = odd_four x set5 t4 t5 t6 in
    let (u7, set9) = odd_seven x set8 t7 in
    let (u8, u9) = odd_eight x set9 t8 t9 in
    wrap32 (t2 + bit_and (shl32 x 7) bottom_28_bits) ∷ u3 ∷ u4 ∷ u5 ∷ u6 ∷ u7 ∷ u8 ∷ u9 ∷ rest
odd_round x ts = ts

unfoldable pub odd_step : List ℕ → List ℕ
odd_step (t0 ∷ t1 ∷ ts) =
    let x = bit_and t0 bottom_28_bits in
    let rest = if ltb 0 x then odd_round x ts else ts in wrap32 (t1 + t0 / 2 ^ 28) ∷ rest
odd_step ts = ts

-- Nine limbs are made zero, the first at an even position.
unfoldable pub eliminate : Bool → ℕ → List ℕ → List ℕ
eliminate wide zero ts = ts
eliminate true (suc n) ts = eliminate false n (even_step ts)
eliminate false (suc n) ts = eliminate true n (odd_step ts)

-- The last loop, over `tmp[9]` and on, whose widths are 28 and 29 bits in turn: the limbs of the
-- result and the carry.
unfoldable pub collect : ℕ → List ℕ → List ℕ × ℕ
collect carry [] = ([], carry)
collect carry (t ∷ []) = let a = wrap32 (t + carry) in (bit_and a bottom_29_bits ∷ [], a / 2 ^ 29)
collect carry (t ∷ u ∷ ts) =
    let a = wrap32 (t + carry + bit_and (shl32 u 28) bottom_29_bits) in
    let b = wrap32 (u / 2 + a / 2 ^ 29) in
    let rest = collect (b / 2 ^ 28) ts in
    (bit_and a bottom_29_bits ∷ bit_and b bottom_28_bits ∷ rest.0, rest.1)

unfoldable pub reduce_degree : List ℕ → List ℕ
reduce_degree b =
    let collected = collect 0 (eliminate true 9 (split b)) in reduce_carry collected.0 collected.1
