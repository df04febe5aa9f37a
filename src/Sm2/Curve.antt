-- ===== src/Sm2/Curve.antt =====
-- What sm2/sm2.go takes from others: the `elliptic.Curve` that a key carries, the group
-- law at given scalars, and a source of random bytes.
use gmsm.Common.{
  ℕ, ◌+◌, ◌-◌, ◌*◌, ◌/◌, ◌%◌, ◌≡◌, List, length, take, drop, from_bytes, to_bytes, ltb, ◌==◌,
  if◌then◌else◌,
}
use gmsm.Common.{Outcome, ok, err, panic, ◌>>=◌}

-- The errors of the package: an error of the Go library, `errZeroParam`, and those of `ZA` and
-- `Decrypt`.
pub data Sm2Error : Type 0 where
  external zero_parameter uid_too_large failed_to_decrypt : Sm2Error

-- Affine coordinates, which are `big.Int`s that are not negative.
pub record Point : Type 0 where
  pub x : ℕ
  pub y : ℕ

-- `N` and `BitSize` of `Params()`, and the methods that the code calls. A scalar is given by its
-- bytes, highest first.
pub record Curve : Type 0 where
  pub order : ℕ
  pub bit_size : ℕ
  pub add : Point → Point → Point
  pub scalar_mult : Point → List ℕ → Point
  pub scalar_base_mult : List ℕ → Point

-- At `s`, `t` and the key of `d` the methods answer as the group law has it: `s` times the base
-- point and `t` times the key's point add up to `s + t * d` times the base point.
unfoldable pub AddsUp : Curve → ℕ → ℕ → ℕ → Type 0
AddsUp c d s t =
    c.add (c.scalar_base_mult (to_bytes s))
      (c.scalar_mult (c.scalar_base_mult (to_bytes d)) (to_bytes t))
    ≡ c.scalar_base_mult (to_bytes ((s + t * d) % c.order))

-- At `d` and `k` the methods answer as the group law has it: `d` times the point of `k` is `k` times
-- the point of `d`.
unfoldable pub Agrees : Curve → ℕ → ℕ → Type 0
Agrees c d k =
    c.scalar_mult (c.scalar_base_mult (to_bytes k)) (to_bytes d)
    ≡ c.scalar_mult (c.scalar_base_mult (to_bytes d)) (to_bytes k)

-- `io.ReadFull` of `n` bytes from a reader that has the listed bytes and then ends: the bytes read
-- and the bytes left.
unfoldable pub read_full : ℕ → List ℕ → Outcome Sm2Error (List ℕ × List ℕ)
read_full n r = if ltb (length r) n then err external else ok (take n r, drop n r)

-- `k.Mod(k, N - 1)` and `k.Add(k, one)`. A modulus of zero panics, and one of -1 leaves zero.
unfoldable pub field_element : ℕ → ℕ → Outcome Sm2Error ℕ
field_element order v =
    if order == 1 then panic else if order == 0 then ok 1 else ok (v % (order - 1) + 1)

unfoldable pub rand_field_element : Curve → List ℕ → Outcome Sm2Error (ℕ × List ℕ)
rand_field_element c r = do
  (b, r') ← read_full (c.bit_size / 8 + 8) r
  k ← field_element c.order (from_bytes b)
  ok (k, r')
