-- ===== src/Common/BigBytes.antt =====
-- `Bytes` and `SetBytes` of `big.Int`: a natural number as bytes, highest first, with no leading
-- zero.
use Prim.Native.Nat.{ℕ, zero, suc, ◌+◌, ◌*◌, ◌/◌, ◌%◌, ◌^◌, ◌≤◌, ◌<◌}
use mathlib.Core.Path.{◌≡◌, refl, ap, ◌∙◌}
use mathlib.Core.List.{List, [], ◌∷◌, ◌++◌, foldl, foldl-append}
use native.Mathlib.Nat.{pow-suc, pow-zero}
use native.Mathlib.Omega.{arith}
use gmsm.Common.Lists.{length, replicate, length-append, All-append}
use gmsm.Common.Bytes.{IsByte, IsBytes}

abbrev push : ℕ → ℕ → ℕ
push acc b = acc * 256 + b

-- `new(big.Int).SetBytes(bytes)`
unfoldable pub from_bytes : List ℕ → ℕ
from_bytes bytes = foldl push 0 bytes

unfoldable pub to_bytes_fuel : ℕ → ℕ → List ℕ
to_bytes_fuel zero n = []
to_bytes_fuel (suc f) zero = []
to_bytes_fuel (suc f) (suc n) = to_bytes_fuel f (suc n / 256) ++ (suc n % 256 ∷ [])

-- `n.Bytes()`; a number has no more bytes than its value, so the fuel is enough.
unfoldable pub to_bytes : ℕ → List ℕ
unfolding to_bytes_fuel
to_bytes n = to_bytes_fuel n n

from_to_fuel : (f n : ℕ) → n ≤ f → from_bytes (to_bytes_fuel f n) ≡ n
unfolding from_bytes to_bytes_fuel
from_to_fuel zero n h = omega arith
from_to_fuel (suc f) zero h = refl
from_to_fuel (suc f) (suc n) h =
    foldl-append push 0 (to_bytes_fuel f (suc n / 256)) (suc n % 256 ∷ [])
    ∙ ap (λ (t : ℕ). t * 256 + suc n % 256) (from_to_fuel f (suc n / 256) (omega arith))
    ∙ omega arith

-- `SetBytes` undoes `Bytes`.
pub from_bytes-to_bytes : (n : ℕ) → from_bytes (to_bytes n) ≡ n
unfolding to_bytes
from_bytes-to_bytes n = from_to_fuel n n (omega arith)

pub from_bytes-zeros : (k : ℕ) (xs : List ℕ) → from_bytes (replicate k 0 ++ xs) ≡ from_bytes xs
unfolding from_bytes
from_bytes-zeros zero xs = refl
from_bytes-zeros (suc k) xs = from_bytes-zeros k xs

length_fuel : (k f n : ℕ) → n < 256 ^ k → length (to_bytes_fuel f n) ≤ k
unfolding to_bytes_fuel
length_fuel k zero n h = omega arith
length_fuel k (suc f) zero h = omega arith
length_fuel zero (suc f) (suc n) h = absurd (omega (arith, pow-zero 256))
length_fuel (suc k) (suc f) (suc n) h = omega (
  arith,
  length-append (to_bytes_fuel f (suc n / 256)) (suc n % 256 ∷ []),
  length_fuel k f (suc n / 256) (omega (arith, pow-suc 256 k)),
)

pub length-to_bytes : (k n : ℕ) → n < 256 ^ k → length (to_bytes n) ≤ k
unfolding to_bytes
length-to_bytes k n h = length_fuel k n n h

IsBytes-fuel : (f n : ℕ) → IsBytes (to_bytes_fuel f n)
unfolding to_bytes_fuel
IsBytes-fuel zero n = tt
IsBytes-fuel (suc f) zero = tt
IsBytes-fuel (suc f) (suc n) =
    All-append IsByte (to_bytes_fuel f (suc n / 256)) (suc n % 256 ∷ [])
      (IsBytes-fuel f (suc n / 256)) (omega arith)

pub to_bytes-IsBytes : (n : ℕ) → IsBytes (to_bytes n)
unfolding to_bytes
to_bytes-IsBytes n = IsBytes-fuel n n
