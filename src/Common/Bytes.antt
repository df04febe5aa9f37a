-- ===== src/Common/Bytes.antt =====
-- Byte slices, and 32-bit words in big-endian order. A byte is a number below 256.
use Prim.Native.Nat.{ℕ, ◌+◌, ◌*◌, ◌/◌, ◌%◌, ◌^◌, ◌<◌, bit_or}
use mathlib.Core.Path.{◌≡◌, ap, ◌∙◌}
use mathlib.Core.List.{List, [], ◌∷◌}
use native.Mathlib.Omega.{arith}
use gmsm.Common.Lists.{All}
use gmsm.Common.Xor.{or_fields}

abbrev pub IsByte : ℕ → Type 0
IsByte b = b < 2 ^ 8

abbrev pub IsWord : ℕ → Type 0
IsWord w = w < 2 ^ 32

abbrev pub IsBytes : List ℕ → Type 0
IsBytes = All IsByte

-- `uint32(b0) << 24 | uint32(b1) << 16 | uint32(b2) << 8 | uint32(b3)`, which loses no bit of
-- four bytes.
unfoldable pub be_word : ℕ → ℕ → ℕ → ℕ → ℕ
be_word b0 b1 b2 b3 = bit_or (bit_or (bit_or (b0 * 2 ^ 24) (b1 * 2 ^ 16)) (b2 * 2 ^ 8)) b3

-- The bytes of a word, highest first.
unfoldable pub be_bytes : ℕ → List ℕ
be_bytes w = (w / 2 ^ 24 % 2 ^ 8) ∷ (w / 2 ^ 16 % 2 ^ 8) ∷ (w / 2 ^ 8 % 2 ^ 8) ∷ (w % 2 ^ 8) ∷ []

pub be_word_sum :
    (b0 b1 b2 b3 : ℕ)
    → IsByte b1
    → IsByte b2
    → IsByte b3
    → be_word b0 b1 b2 b3 ≡ b0 * 2 ^ 24 + b1 * 2 ^ 16 + b2 * 2 ^ 8 + b3
unfolding be_word
be_word_sum b0 b1 b2 b3 h1 h2 h3 =
    ap (λ (t : ℕ). bit_or (bit_or t (b2 * 2 ^ 8)) b3) {y = (b0 * 2 ^ 8 + b1) * 2 ^ 16}
      (or_fields 24 b0 (b1 * 2 ^ 16) (omega arith) ∙ omega arith)
    ∙ ap (λ (t : ℕ). bit_or t b3) {y = ((b0 * 2 ^ 8 + b1) * 2 ^ 8 + b2) * 2 ^ 8}
        (or_fields 16 (b0 * 2 ^ 8 + b1) (b2 * 2 ^ 8) (omega arith) ∙ omega arith)
    ∙ or_fields 8 ((b0 * 2 ^ 8 + b1) * 2 ^ 8 + b2) b3 h3
    ∙ omega arith

pub be_word-IsWord :
    (b0 b1 b2 b3 : ℕ) → IsByte b0 → IsByte b1 → IsByte b2 → IsByte b3 → IsWord (be_word b0 b1 b2 b3)
be_word-IsWord b0 b1 b2 b3 h0 h1 h2 h3 = omega (arith, be_word_sum b0 b1 b2 b3 h1 h2 h3)

pub be_bytes-be_word :
    (b0 b1 b2 b3 : ℕ)
    → IsByte b0
    → IsByte b1
    → IsByte b2
    → IsByte b3
    → be_bytes (be_word b0 b1 b2 b3) ≡ b0 ∷ b1 ∷ b2 ∷ b3 ∷ []
unfolding be_bytes
be_bytes-be_word b0 b1 b2 b3 h0 h1 h2 h3 = ground (arith, be_word_sum b0 b1 b2 b3 h1 h2 h3)

pub be_word-be_bytes :
    (w : ℕ)
    → IsWord w
    → be_word (w / 2 ^ 24 % 2 ^ 8) (w / 2 ^ 16 % 2 ^ 8) (w / 2 ^ 8 % 2 ^ 8) (w % 2 ^ 8) ≡ w
be_word-be_bytes w h =
    omega
      (arith, be_word_sum (w / 2 ^ 24 % 2 ^ 8) (w / 2 ^ 16 % 2 ^ 8) (w / 2 ^ 8 % 2 ^ 8) (w % 2 ^ 8))

pub be_bytes-IsBytes : (w : ℕ) → IsBytes (be_bytes w)
unfolding be_bytes
be_bytes-IsBytes w = omega arith
