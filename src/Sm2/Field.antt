-- ===== src/Sm2/Field.antt =====
-- sm2/p256.go: elements of the field as nine limbs of 29 and 28 bits in turn, the lowest first, and
-- their sums. A limb is a `uint32`.
pub mod Sum
pub mod Difference
pub mod Degree
pub mod Convert
pub mod Product
pub mod Modulo
pub mod Arrays
pub mod Numbers
use gmsm.Common.{
  ℕ, zero, suc, ◌+◌, ◌-◌, ◌*◌, ◌/◌, ◌%◌, ◌^◌, bit_and, List, [], ◌∷◌, get_or, Bool, true, false,
  not, if◌then◌else◌,
}

-- `P`
abbrev pub prime : ℕ
prime = 0xfffffffeffffffffffffffffffffffffffffffff00000000ffffffffffffffff

abbrev pub bottom_28_bits : ℕ
bottom_28_bits = 0xfffffff

abbrev pub bottom_29_bits : ℕ
bottom_29_bits = 0x1fffffff

unfoldable pub sm2_p256_carry : List ℕ
sm2_p256_carry =
    0x0 ∷ 0x0 ∷ 0x0 ∷ 0x0 ∷ 0x0 ∷ 0x0 ∷ 0x0 ∷ 0x0 ∷ 0x0 ∷ 0x2 ∷ 0x0 ∷ 0x1fffff00 ∷ 0x7ff ∷ 0x0 ∷ 0x0
    ∷ 0x0 ∷ 0x2000000 ∷ 0x0 ∷ 0x4 ∷ 0x0 ∷ 0x1ffffe00 ∷ 0xfff ∷ 0x0 ∷ 0x0 ∷ 0x0 ∷ 0x4000000 ∷ 0x0
    ∷ 0x6 ∷ 0x0 ∷ 0x1ffffd00 ∷ 0x17ff ∷ 0x0 ∷ 0x0 ∷ 0x0 ∷ 0x6000000 ∷ 0x0 ∷ 0x8 ∷ 0x0 ∷ 0x1ffffc00
    ∷ 0x1fff ∷ 0x0 ∷ 0x0 ∷ 0x0 ∷ 0x8000000 ∷ 0x0 ∷ 0xa ∷ 0x0 ∷ 0x1ffffb00 ∷ 0x27ff ∷ 0x0 ∷ 0x0 ∷ 0x0
    ∷ 0xa000000 ∷ 0x0 ∷ 0xc ∷ 0x0 ∷ 0x1ffffa00 ∷ 0x2fff ∷ 0x0 ∷ 0x0 ∷ 0x0 ∷ 0xc000000 ∷ 0x0 ∷ 0xe
    ∷ 0x0 ∷ 0x1ffff900 ∷ 0x37ff ∷ 0x0 ∷ 0x0 ∷ 0x0 ∷ 0xe000000 ∷ 0x0 ∷ []

abbrev pub carry_at : ℕ → ℕ → ℕ
carry_at carry i = get_or sm2_p256_carry (carry * 9 + i) 0

-- The array has nine limbs.
unfoldable pub reduce_carry : List ℕ → ℕ → List ℕ
reduce_carry (a0 ∷ a1 ∷ a2 ∷ a3 ∷ a4 ∷ a5 ∷ a6 ∷ a7 ∷ a8 ∷ []) carry =
    (a0 + carry_at carry 0) % 2 ^ 32
    ∷ a1
    ∷ (a2 + carry_at carry 2) % 2 ^ 32
    ∷ (a3 + carry_at carry 3) % 2 ^ 32
    ∷ a4
    ∷ a5
    ∷ a6
    ∷ (a7 + carry_at carry 7) % 2 ^ 32
    ∷ a8
    ∷ []
reduce_carry a carry = a

-- The loop of `sm2P256Add` over the limbs that are left: those of the sum and the last carry. The
-- next limb has 29 bits, or 28.
unfoldable pub add_loop : Bool → ℕ → List ℕ → List ℕ → List ℕ × ℕ
add_loop wide carry [] b = ([], carry)
add_loop wide carry (x ∷ a) [] = ([], carry)
add_loop true carry (x ∷ a) (y ∷ b) =
    let c = ((x + y) % 2 ^ 32 + carry) % 2 ^ 32 in
    let rest = add_loop false (c / 2 ^ 29) a b in (bit_and c bottom_29_bits ∷ rest.0, rest.1)
add_loop false carry (x ∷ a) (y ∷ b) =
    let c = ((x + y) % 2 ^ 32 + carry) % 2 ^ 32 in
    let rest = add_loop true (c / 2 ^ 28) a b in (bit_and c bottom_28_bits ∷ rest.0, rest.1)

unfoldable pub field_add : List ℕ → List ℕ → List ℕ
field_add a b = let sum = add_loop true 0 a b in reduce_carry sum.0 sum.1

-- A multiple of the prime whose limbs are large.
abbrev pub sm2_p256_zero31 : List ℕ
sm2_p256_zero31 =
    0x7ffffff8 ∷ 0x3ffffffc ∷ 0x800003fc ∷ 0x3fffdffc ∷ 0x7ffffffc ∷ 0x3ffffffc ∷ 0x7ffffffc
    ∷ 0x37fffffc ∷ 0x7ffffffc ∷ []

-- A difference of `uint32`s.
unfoldable pub sub32 : ℕ → ℕ → ℕ
sub32 x y = (x + 2 ^ 32 - y) % 2 ^ 32

-- The loop of `sm2P256Sub`, with the limbs of `sm2P256Zero31` that are left.
unfoldable pub sub_loop : Bool → ℕ → List ℕ → List ℕ → List ℕ → List ℕ × ℕ
sub_loop true carry (x ∷ a) (y ∷ b) (z ∷ zeros) =
    let c = ((sub32 x y + z) % 2 ^ 32 + carry) % 2 ^ 32 in
    let rest = sub_loop false (c / 2 ^ 29) a b zeros in (bit_and c bottom_29_bits ∷ rest.0, rest.1)
sub_loop false carry (x ∷ a) (y ∷ b) (z ∷ zeros) =
    let c = ((sub32 x y + z) % 2 ^ 32 + carry) % 2 ^ 32 in
    let rest = sub_loop true (c / 2 ^ 28) a b zeros in (bit_and c bottom_28_bits ∷ rest.0, rest.1)
sub_loop wide carry _ _ _ = ([], carry)

unfoldable pub field_sub : List ℕ → List ℕ → List ℕ
field_sub a b =
    let difference = sub_loop true 0 a b sm2_p256_zero31 in reduce_carry difference.0 difference.1
