-- ===== src/Sm4/Runs.antt =====
-- Runs of the cipher on the standard's example, and the theorems at concrete inputs.
use gmsm.Common.{ℕ, List, [], ◌∷◌, ◌≡◌, refl, replicate, ok, be_word}
use gmsm.Sm4.Tables.{fk, ck, sbox, sbox0, sbox1, sbox2, sbox3}
use gmsm.Sm4.Cipher.{
  encrypt_block, crypt_block, generate_sub_keys, sub_keys_loop, encrypt_loop, four_rounds, mix,
  permute_initial_block, read_word, put, write_word, permute_final_block, swap_ends, copy, xor_fk,
  feistel0, l0, p, rl,
}

abbrev pub key : List ℕ
key =
    0x01 ∷ 0x23 ∷ 0x45 ∷ 0x67 ∷ 0x89 ∷ 0xab ∷ 0xcd ∷ 0xef ∷ 0xfe ∷ 0xdc ∷ 0xba ∷ 0x98 ∷ 0x76 ∷ 0x54
    ∷ 0x32 ∷ 0x10 ∷ []

abbrev cipher_text : List ℕ
cipher_text =
    0x68 ∷ 0x1e ∷ 0xdf ∷ 0x34 ∷ 0xd2 ∷ 0x06 ∷ 0x96 ∷ 0x5e ∷ 0x86 ∷ 0xb3 ∷ 0xe9 ∷ 0x4f ∷ 0x53 ∷ 0x6e
    ∷ 0x42 ∷ 0x46 ∷ []

standard_example : encrypt_block key (replicate 16 0) key ≡ ok cipher_text
unfolding encrypt_block crypt_block generate_sub_keys sub_keys_loop encrypt_loop four_rounds mix
    permute_initial_block read_word put write_word permute_final_block swap_ends copy xor_fk
    feistel0 l0 p rl fk ck sbox sbox0 sbox1 sbox2 sbox3 be_word
standard_example = refl
