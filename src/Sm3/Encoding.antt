-- ===== src/Sm3/Encoding.antt =====
-- The big-endian encodings of sm3/sm3.go read back: the length behind the padding, and the digest.
use gmsm.Common.{ℕ, ◌/◌, ◌^◌, ◌<◌, ◌≡◌, arith, and_mask, from_bytes, be_word-be_bytes, be_bytes}
use gmsm.Sm3.Compress.{Registers, word_at}
use gmsm.Sm3.Digest.{length_bytes, digest_bytes}
use gmsm.Sm3.Invariant.{IsRegisters}

-- The eight bytes that `pad` appends for a length below 2 ^ 64 are that length, highest byte first.
pub from_bytes-length_bytes : (n : ℕ) → n < 2 ^ 64 → from_bytes (length_bytes n) ≡ n
unfolding from_bytes length_bytes
from_bytes-length_bytes n h = omega (
  arith,
  and_mask 8 (n / 2 ^ 56),
  and_mask 8 (n / 2 ^ 48),
  and_mask 8 (n / 2 ^ 40),
  and_mask 8 (n / 2 ^ 32),
  and_mask 8 (n / 2 ^ 24),
  and_mask 8 (n / 2 ^ 16),
  and_mask 8 (n / 2 ^ 8),
  and_mask 8 (n / 2 ^ 0),
)

-- For an object whose registers are words, the digest's bytes, read as big-endian words, are the eight words of the object in order.
pub word_at-digest_bytes :
    (r : Registers)
    → IsRegisters r
    → (word_at (digest_bytes r) 0 ≡ r.a)
      × (word_at (digest_bytes r) 1 ≡ r.b)
      × (word_at (digest_bytes r) 2 ≡ r.c)
      × (word_at (digest_bytes r) 3 ≡ r.d)
      × (word_at (digest_bytes r) 4 ≡ r.e)
      × (word_at (digest_bytes r) 5 ≡ r.f)
      × (word_at (digest_bytes r) 6 ≡ r.g)
      × (word_at (digest_bytes r) 7 ≡ r.h)
unfolding word_at digest_bytes be_bytes
word_at-digest_bytes r (ha, hb, hc, hd, he, hf, hg, hh) = (
  be_word-be_bytes r.a ha,
  be_word-be_bytes r.b hb,
  be_word-be_bytes r.c hc,
  be_word-be_bytes r.d hd,
  be_word-be_bytes r.e he,
  be_word-be_bytes r.f hf,
  be_word-be_bytes r.g hg,
  be_word-be_bytes r.h hh,
)
