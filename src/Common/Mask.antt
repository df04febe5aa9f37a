-- ===== src/Common/Mask.antt =====
-- `&` with a mask of low ones is a remainder.
use Prim.Native.Nat.{
  ℕ, zero, suc, ◌+◌, ◌-◌, ◌*◌, ◌/◌, ◌%◌, ◌^◌, ◌≤◌, ◌<◌, min, bit_and, bit_and-bitwise,
}
use mathlib.Core.Path.{◌≡◌, refl, sym, ap, ◌∙◌}
use native.Mathlib.Nat.{pow-suc, pow-zero, mod-lt}
use native.Mathlib.Omega.{arith}
use gmsm.Common.Xor.{lowest_digit, two_pow_pos, split_fields, higher_field}

and_lowest : (x y : ℕ) → bit_and x y ≡ min (x % 2) (y % 2) + 2 * bit_and (x / 2) (y / 2)
and_lowest zero y = omega (arith, bit_and-bitwise 0 y, bit_and-bitwise 0 (y / 2))
and_lowest (suc x) y = omega (
  arith,
  bit_and-bitwise (suc x) y,
  bit_and-bitwise (suc x / 2) (y / 2),
  lowest_digit (λ t. 0) min (suc x) y (omega arith),
)

and-zero : (most x : ℕ) → x ≤ most → bit_and x 0 ≡ 0
and-zero most zero small = bit_and-bitwise 0 0
and-zero zero (suc x) small = absurd (omega arith)
and-zero (suc most) (suc x) small =
    omega (arith, and_lowest (suc x) 0, and-zero most (suc x / 2) (omega arith))

low_field : (k high low : ℕ) → low < 2 ^ k → bit_and (high * 2 ^ k + low) (2 ^ k - 1) ≡ low
low_field zero high low small = ground (arith, and-zero (high + low) (high + low), pow-zero 2)
low_field (suc k) high low small =
    let rest = low_field k high (low / 2) (omega (arith, pow-suc 2 k, small)) in
    ground (
      arith,
      rest,
      two_pow_pos k,
      higher_field k high,
      pow-suc 2 k,
      and_lowest (high * 2 ^ suc k + low) (2 ^ suc k - 1),
    )

pub and_mask : (k a : ℕ) → bit_and a (2 ^ k - 1) ≡ a % 2 ^ k
and_mask k a =
    ap (λ (t : ℕ). bit_and t (2 ^ k - 1)) (sym (split_fields k a))
    ∙ low_field k (a / 2 ^ k) (a % 2 ^ k) (mod-lt a (two_pow_pos k))

and_comm_fuel : (most a b : ℕ) → a ≤ most → b ≤ most → bit_and a b ≡ bit_and b a
and_comm_fuel most zero zero p q = refl
and_comm_fuel zero (suc a) b p q = absurd (omega arith)
and_comm_fuel zero zero (suc b) p q = absurd (omega arith)
and_comm_fuel (suc most) zero (suc b) p q =
    let rest = and_comm_fuel most (0 / 2) (suc b / 2) (omega arith) (omega arith) in
    omega (arith, and_lowest 0 (suc b), and_lowest (suc b) 0, rest)
and_comm_fuel (suc most) (suc a) b p q =
    let rest = and_comm_fuel most (suc a / 2) (b / 2) (omega arith) (omega arith) in
    omega (arith, and_lowest (suc a) b, and_lowest b (suc a), rest)

pub and_comm : (a b : ℕ) → bit_and a b ≡ bit_and b a
and_comm a b = and_comm_fuel (a + b) a b (omega arith) (omega arith)

pub mask_and : (k a : ℕ) → bit_and (2 ^ k - 1) a ≡ a % 2 ^ k
mask_and k a = and_comm (2 ^ k - 1) a ∙ and_mask k a

pub and_zero : (a : ℕ) → bit_and a 0 ≡ 0
and_zero a = and-zero a a (omega arith)

pub zero_and : (a : ℕ) → bit_and 0 a ≡ 0
zero_and a = and_comm 0 a ∙ and_zero a
