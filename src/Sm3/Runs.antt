-- ===== src/Sm3/Runs.antt =====
-- Runs of the hash on the standard's example, and the theorems at concrete inputs.
use gmsm.Common.{ℕ, List, [], ◌∷◌, ◌≡◌, refl, ok, be_word, be_bytes}
use gmsm.Sm3.Compress.{
  ff0, ff1, gg0, gg1, left_rotate, p0, p1, add32, word_at, load_words, expanded, expand_words,
  pair_words, compress_step, compress_loop, xor_registers, schedule, compress,
}
use gmsm.Sm3.Digest.{
  pad_loop, length_bytes, checked, pad, update_loop, update, reset, write, digest_bytes, sum,
  sm3_sum,
}

abbrev abc_hash : List ℕ
abc_hash =
    0x66 ∷ 0xc7 ∷ 0xf0 ∷ 0xf4 ∷ 0x62 ∷ 0xee ∷ 0xed ∷ 0xd9 ∷ 0xd1 ∷ 0xf2 ∷ 0xd4 ∷ 0x6b ∷ 0xdc ∷ 0x10
    ∷ 0xe4 ∷ 0xe2 ∷ 0x41 ∷ 0x67 ∷ 0xc4 ∷ 0x87 ∷ 0x5c ∷ 0xf2 ∷ 0xf7 ∷ 0xa2 ∷ 0x29 ∷ 0x7d ∷ 0xa0
    ∷ 0x2b ∷ 0x8f ∷ 0x4b ∷ 0xa8 ∷ 0xe0 ∷ []

abc : sm3_sum {E = ⊥} (b'a' ∷ b'b' ∷ b'c' ∷ []) ≡ ok abc_hash
unfolding ff0 ff1 gg0 gg1 left_rotate p0 p1 add32 word_at load_words expanded expand_words
    pair_words compress_step compress_loop xor_registers schedule compress pad_loop length_bytes
    checked pad update_loop update reset write digest_bytes sum sm3_sum be_word be_bytes
abc = refl
