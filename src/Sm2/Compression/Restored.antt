-- ===== src/Sm2/Compression/Restored.antt =====
-- `Decompress` restores the point that `Compress` was given.
use gmsm.Common.{
  ℕ, ◌+◌, ◌-◌, ◌*◌, ◌%◌, ◌<◌, ◌≡◌, ◌⊎◌, inl, inr, sym, ap, ◌∙◌, List, ◌++◌, length, ◌==◌,
  if◌then◌else◌, Option, none, some, All, arith, from_bytes, to_bytes, from_bytes-to_bytes,
  from_bytes-zeros, take-replicate, dec_lt,
}
use gmsm.Common.{Outcome, ok, panic}
use native.Mathlib.Nat.{mod-eq_of_lt}
use gmsm.Sm2.Curve.{Sm2Error, Point}
use gmsm.Sm2.Buffers.{pad_left, contents, zero_byte_slice, pad_left_short, pad_left_long}
use gmsm.Sm2.Field.{prime}
use gmsm.Sm2.Field.Convert.{from_big, to_big}
use gmsm.Sm2.Field.Numbers.{IsSafe, Means-from_big, to_big-lt}
use gmsm.Sm2.P256.Methods.{curve_side}
use gmsm.Sm2.P256.OnCurve.{a_number, b_number, side_factors, curve_side-Means}
use gmsm.Sm2.Compression.{get_last_bit, compress, decompress}

-- The bytes of the first coordinate behind zeros.
padded_x :
    (x : ℕ)
    → let padded = pad_left zero_byte_slice (to_bytes x) in
      from_bytes (contents padded.0 padded.1) ≡ x
unfolding contents
padded_x x =
    let bytes = to_bytes x in
    elim (dec_lt (length bytes) 32) [
      | yes short ↦
          ap (λ p. from_bytes (contents p.0 p.1)) (pad_left_short zero_byte_slice bytes short)
          ∙ ap (λ (l : List ℕ). from_bytes (l ++ bytes))
              (take-replicate (32 - length bytes) 32 0 (omega arith))
          ∙ from_bytes-zeros (32 - length bytes) bytes
          ∙ from_bytes-to_bytes x
      | no long ↦
          ap (λ p. from_bytes (contents p.0 p.1))
            (pad_left_long zero_byte_slice bytes (omega arith))
          ∙ from_bytes-to_bytes x
    ]

-- The root of the right parity.
right_root :
    (y root : ℕ)
    → 0 < y
    → y < prime
    → (root ≡ y) ⊎ (root ≡ prime - y)
    → (if get_last_bit root == get_last_bit y then root else prime - root) ≡ y
unfolding get_last_bit
right_root y root positive low (inl e) = ground arith
right_root y root positive low (inr e) = ground arith

-- Where `mod_sqrt`, asked for a root of the square of `y` modulo the prime, answers `y` or the prime
-- less `y`, and no reduction at an even position lends what it has not, `Decompress` restores a
-- point of the curve from the bytes that `Compress` makes of it, as long as the array behind
-- `zeroByteSlice` is as the package declares it, and `y` is neither zero nor above the prime.
pub decompress-compress :
    (mod_sqrt : ℕ → ℕ → Option ℕ) (p : Point) (root : ℕ)
    → 0 < p.y
    → p.y < prime
    → (p.x * p.x * p.x + a_number * p.x + b_number) % prime ≡ p.y * p.y % prime
    → All IsSafe (side_factors (from_big p.x))
    → mod_sqrt (p.y * p.y % prime) prime ≡ some root
    → (root ≡ p.y) ⊎ (root ≡ prime - p.y)
    → decompress mod_sqrt (compress zero_byte_slice p).1 ≡ ok p
unfolding decompress compress
decompress-compress mod_sqrt p root positive low on_curve safe answer roots =
    let side : to_big (curve_side (from_big p.x)) ≡ p.y * p.y % prime =
      sym (mod-eq_of_lt (to_big-lt (curve_side (from_big p.x))))
      ∙ (curve_side-Means (from_big p.x) p.x (Means-from_big p.x) safe).0
      ∙ on_curve in
    ap (λ (x : ℕ). finish x (mod_sqrt (to_big (curve_side (from_big x))) prime)) (padded_x p.x)
    ∙ ap (λ (y2 : ℕ). finish p.x (mod_sqrt y2 prime)) side
    ∙ ap (finish p.x) answer
    ∙ ap (λ (y : ℕ). ok (record { x = p.x; y = y })) (right_root p.y root positive low roots)
  where
    finish : ℕ → Option ℕ → Outcome Sm2Error Point
    finish x none = panic
    finish x (some r) =
        ok (record { x = x; y = if get_last_bit r == get_last_bit p.y then r else prime - r })
