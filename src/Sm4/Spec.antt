-- ===== src/Sm4/Spec.antt =====
-- The cipher as the standard GB/T 32907 describes it: a round slides a window of four words, and
-- its word goes through the S-boxes and one linear map.
use gmsm.Common.{ℕ, bit_xor, rotl, List, foldl, IsWord}
use gmsm.Sm4.Cipher.{Block, p}

-- The linear map L.
unfoldable pub linear : ℕ → ℕ
linear b = bit_xor (bit_xor (bit_xor (bit_xor b (rotl b 2)) (rotl b 10)) (rotl b 18)) (rotl b 24)

-- The map T: the S-boxes, then L.
unfoldable pub spread : ℕ → ℕ
spread x = linear (p x)

unfoldable pub round : Block → ℕ → Block
round b key = record {
  w0 = b.w1;
  w1 = b.w2;
  w2 = b.w3;
  w3 = bit_xor b.w0 (spread (bit_xor (bit_xor (bit_xor b.w1 b.w2) b.w3) key));
}

unfoldable pub reversed : Block → Block
reversed b = record { w0 = b.w3; w1 = b.w2; w2 = b.w1; w3 = b.w0 }

-- All rounds, and the reversal of the last window.
unfoldable pub cipher : List ℕ → Block → Block
cipher keys b = reversed (foldl round b keys)

abbrev pub IsBlock : Block → Type 0
IsBlock b = IsWord b.w0 × IsWord b.w1 × IsWord b.w2 × IsWord b.w3
