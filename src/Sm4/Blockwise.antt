-- ===== src/Sm4/Blockwise.antt =====
-- `cryptBlock` against the standard's cipher, and the functions `EncryptBlock` and `DecryptBlock`.
use gmsm.Common.{
  ℕ, ◌≤◌, ◌<◌, ◌≡◌, refl, ap, ◌∙◌, List, ◌++◌, length, replicate, take, take_all, drop, IsBytes,
  IsWord, All, Bool, true, false, arith,
}
use gmsm.Common.{ok, panic}
use mathlib.Core.List.{reverse}
use gmsm.Sm4.Cipher.{
  Block, Crypted, zero_block, permute_initial_block, swap_ends, copy, crypt_block, encrypt_block,
  decrypt_block,
}
use gmsm.Sm4.Spec.{reversed, cipher, IsBlock}
use gmsm.Sm4.Rounds.{encrypt_loop-foldl, decrypt_loop-foldl, foldl-round-IsBlock, cipher-reverse}
use gmsm.Sm4.Blocks.{
  block_bytes, final_lem, final-initial, initial-final, initial_short, copy-final,
}
use gmsm.Sm4.Schedule.{generate_sub_keys_total}

-- The keys in the order in which a call takes them.
abbrev pub key_order : Bool → List ℕ → List ℕ
key_order true ks = reverse ks
key_order false ks = ks

-- What `cryptBlock` leaves behind when its words come out as `b`.
abbrev pub crypted : Block → List ℕ → Crypted
crypted b dst = record { b = b; r = block_bytes b; dst = copy dst (block_bytes b) }

-- `cryptBlock` with 32 round keys, each a word, computes the standard's cipher on the block `b` of
-- four words that it reads from `src`, whatever its scratch slices of four words and sixteen bytes
-- hold, with the keys in order to encrypt and backwards to decrypt, and copies the result to `dst`.
pub crypt_block-cipher :
    (ks : List ℕ) (s : Block) (r dst src : List ℕ) (way : Bool) (b : Block)
    → length ks ≡ 32
    → All IsWord ks
    → length r ≡ 16
    → permute_initial_block s src ≡ ok b
    → IsBlock b
    → crypt_block ks s r dst src way ≡ ok (crypted (cipher (key_order way ks) b) dst)
unfolding crypt_block cipher swap_ends reversed
crypt_block-cipher ks s r dst src true b n hk hr read hb =
    rw
      (
        read,
        decrypt_loop-foldl 8 0 ks b (omega arith) n hk hb,
        take_all 32 ks (omega arith),
        final_lem r _ hr,
      )
      refl
crypt_block-cipher ks s r dst src false b n hk hr read hb =
    rw (read, encrypt_loop-foldl 8 0 ks b (omega arith) hk hb, final_lem r _ hr) refl

-- On a source of less than 16 bytes `cryptBlock` panics, whatever the keys and the destination.
pub crypt_block_short :
    (ks : List ℕ) (s : Block) (r dst src : List ℕ) (way : Bool)
    → length src < 16
    → crypt_block ks s r dst src way ≡ panic
unfolding crypt_block
crypt_block_short ks s r dst src way h = rw (initial_short s src h)

cipher-IsBlock : (ks : List ℕ) (b : Block) → All IsWord ks → IsBlock b → IsBlock (cipher ks b)
unfolding cipher reversed
cipher-IsBlock ks b hk hb = let h = foldl-round-IsBlock ks b hk hb in (h.3, h.2, h.1, h.0)

-- A block written by `cryptBlock` into a slice with room for it, read back and crypted the other
-- way, comes out as it was.
pub crypt_block-crypt_block :
    (ks : List ℕ) (s s' : Block) (r r' dst dst' src : List ℕ)
    → length ks ≡ 32
    → All IsWord ks
    → length r ≡ 16
    → length r' ≡ 16
    → 16 ≤ length src
    → IsBytes src
    → 16 ≤ length dst
    → 16 ≤ length dst'
    → (c d : Crypted) × (crypt_block ks s r dst src false ≡ ok c)
      × (crypt_block ks s' r' dst' c.dst true ≡ ok d)
      × (d.dst ≡ take 16 src ++ drop 16 dst')
crypt_block-crypt_block ks s s' r r' dst dst' src n hk hr hr' hs bytes hd hd' =
    let (b, read, hb, back) = final-initial s src hs bytes in
    let coded = cipher ks b in
    let hc : IsBlock coded = cipher-IsBlock ks b hk hb in
    let reread : permute_initial_block s' (copy dst (block_bytes coded)) ≡ ok coded =
      rw (copy-final coded dst hd) (initial-final s' coded (drop 16 dst) hc) in
    (
      crypted coded dst,
      crypted b dst',
      crypt_block-cipher ks s r dst src false b n hk hr read hb,
      crypt_block-cipher ks s' r' dst' (copy dst (block_bytes coded)) true coded n hk hr' reread hc
          ∙ ap (λ c. ok (crypted c dst')) (cipher-reverse ks b),
      copy-final b dst' hd' ∙ ap (λ t. t ++ drop 16 dst') back,
    )

-- With a key, a source and destinations of 16 bytes or more, `EncryptBlock` succeeds, and
-- `DecryptBlock` with the same key turns what it wrote back into the 16 bytes that it read; the
-- destination's bytes behind the block stay.
pub decrypt_block-encrypt_block :
    (key src dst dst' : List ℕ)
    → 16 ≤ length key
    → IsBytes key
    → 16 ≤ length src
    → IsBytes src
    → 16 ≤ length dst
    → 16 ≤ length dst'
    → (c : List ℕ) × (encrypt_block key dst src ≡ ok c)
      × (decrypt_block key dst' c ≡ ok (take 16 src ++ drop 16 dst'))
unfolding encrypt_block decrypt_block
decrypt_block-encrypt_block key src dst dst' nk hk ns hs nd nd' =
    let (ks, made, n, words) = generate_sub_keys_total key nk hk in
    let scratch = replicate 16 0 in
    let (c, d, there, back, same) =
      crypt_block-crypt_block ks zero_block zero_block scratch scratch dst dst' src n words refl
        refl ns hs nd nd' in
    (c.dst, rw (made, there), rw (made, back, same))
