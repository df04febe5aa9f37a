-- ===== src/Sm2/Field/Convert.antt =====
-- sm2/p256.go: `sm2P256FromBig` and `sm2P256ToBig`. A `big.Int` is a natural number.
pub mod Value
use gmsm.Common.{
  ℕ, zero, suc, ◌+◌, ◌-◌, ◌*◌, ◌/◌, ◌%◌, ◌^◌, ◌==◌, bit_and, List, [], ◌∷◌, get_or, Bool, true,
  false, if◌then◌else◌,
}
use gmsm.Sm2.Field.{prime, bottom_28_bits, bottom_29_bits}

-- `RInverse`
abbrev pub r_inverse : ℕ
r_inverse = 0x7ffffffd80000002fffffffe000000017ffffffe800000037ffffffc80000002

-- A limb of a number: bits of its lowest word, where it has one.
unfoldable pub low_limb : ℕ → ℕ → ℕ
low_limb mask x = if x == 0 then 0 else bit_and (x % 2 ^ 64 % 2 ^ 32) mask

-- The limbs that are left to be made.
unfoldable pub from_big_loop : Bool → ℕ → ℕ → List ℕ
from_big_loop wide zero x = []
from_big_loop true (suc n) x = low_limb bottom_29_bits x ∷ from_big_loop false n (x / 2 ^ 29)
from_big_loop false (suc n) x = low_limb bottom_28_bits x ∷ from_big_loop true n (x / 2 ^ 28)

unfoldable pub from_big : ℕ → List ℕ
from_big a = from_big_loop true 9 (a * 2 ^ 257 % prime)

-- The limbs below the given number of them are added, the highest first.
unfoldable pub to_big_loop : ℕ → List ℕ → ℕ → ℕ
to_big_loop zero limbs r = r
to_big_loop (suc i) limbs r =
    let shifted = if i % 2 == 0 then r * 2 ^ 29 else r * 2 ^ 28 in
    to_big_loop i limbs (shifted + get_or limbs i 0)

unfoldable pub to_big : List ℕ → ℕ
to_big limbs = to_big_loop 8 limbs (get_or limbs 8 0) * r_inverse % prime

-- `sm2P256Dup`
abbrev pub dup : List ℕ → List ℕ
dup a = a
