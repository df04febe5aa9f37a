-- ===== src/Sm2/Compression.antt =====
-- sm2/sm2.go: `Compress` and `Decompress`, over the elements of sm2/p256.go.
pub mod Restored
use gmsm.Common.{
  ℕ, ◌-◌, ◌%◌, List, [], ◌∷◌, ◌==◌, if◌then◌else◌, Option, none, some, from_bytes, to_bytes,
}
use gmsm.Common.{Outcome, ok, panic}
use gmsm.Sm2.Curve.{Sm2Error, Point}
use gmsm.Sm2.Buffers.{pad_left, contents}
use gmsm.Sm2.Field.{prime}
use gmsm.Sm2.Field.Convert.{from_big, to_big}
use gmsm.Sm2.P256.Methods.{curve_side}

unfoldable pub get_last_bit : ℕ → ℕ
get_last_bit a = a % 2

-- The array behind `zeroByteSlice` and the bytes.
unfoldable pub compress : List ℕ → Point → List ℕ × List ℕ
compress store a =
    let yp = get_last_bit a.y in
    let (store', buf) = pad_left store (to_bytes a.x) in (store', yp ∷ contents store' buf)

-- `ModSqrt` of `big.Int`: a square root modulo the second number, or nil where there is none.
module _ (mod_sqrt : ℕ → ℕ → Option ℕ) where
  -- An empty slice is indexed out of range, and a nil root is dereferenced: both panic.
  unfoldable pub decompress : List ℕ → Outcome Sm2Error Point
  decompress [] = panic
  decompress (a0 ∷ a) =
      let x = from_bytes a in
      let y2 = to_big (curve_side (from_big x)) in
      elim (mod_sqrt y2 prime) [
        | none ↦ panic
        | some root ↦
            ok (record { x = x; y = if get_last_bit root == a0 then root else prime - root })
      ]
