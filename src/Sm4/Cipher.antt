-- ===== src/Sm4/Cipher.antt =====
-- sm4/sm4.go: the words of a block, the round function, `cryptBlock`, the key schedule, and the
-- functions and methods over them. A `[]byte` is a list of numbers below 256, a `uint32` is a
-- number below 2 ^ 32. A `[]uint32` of the four words of a block, which the code always makes with
-- length 4, is a `Block`.
use gmsm.Common.{
  ℕ, zero, suc, ◌+◌, ◌-◌, ◌*◌, ◌/◌, ◌%◌, ◌^◌, bit_and, bit_or, bit_xor, be_word, length, get_or,
  take, drop, replicate, Bool, true, false, not, List, [], ◌∷◌, ◌++◌, ◌==◌, if◌then◌else◌,
}
use gmsm.Common.{Outcome, ok, err, panic, ◌>>=◌, index}
use gmsm.Sm4.Tables.{fk, ck, sbox, sbox0, sbox1, sbox2, sbox3}

-- The errors of the package. `key_size` is `KeySizeError`; `external` is an error that the
-- standard library gave.
pub data Sm4Error : Type 0 where
  unknown_type need_passwd external : Sm4Error
  key_size : ℕ → Sm4Error

pub record Block : Type 0 where
  pub w0 : ℕ
  pub w1 : ℕ
  pub w2 : ℕ
  pub w3 : ℕ

abbrev pub block_size : ℕ
block_size = 16

unfoldable pub rl : ℕ → ℕ → ℕ
rl x i = bit_or (x * 2 ^ (i % 32) % 2 ^ 32) (x / 2 ^ (32 - i % 32))

unfoldable pub l0 : ℕ → ℕ
l0 b = bit_xor (bit_xor b (rl b 13)) (rl b 23)

-- The index is masked to a byte at each use, so it lies in the table of 256.
abbrev pub table_at : List ℕ → ℕ → ℕ
table_at t i = get_or t i 0

unfoldable pub p : ℕ → ℕ
p a =
    bit_xor
      (bit_xor
        (bit_xor (table_at sbox (a / 2 ^ 24) * 2 ^ 24)
          (table_at sbox (bit_and (a / 2 ^ 16) 0xff) * 2 ^ 16))
        (table_at sbox (bit_and (a / 2 ^ 8) 0xff) * 2 ^ 8))
      (table_at sbox (bit_and a 0xff))

unfoldable pub feistel0 : ℕ → ℕ → ℕ → ℕ → ℕ → ℕ
feistel0 x0 x1 x2 x3 rk = bit_xor x0 (l0 (p (bit_xor (bit_xor (bit_xor x1 x2) x3) rk)))

-- One turn of the loop of `permuteInitialBlock`.
unfoldable pub read_word : List ℕ → ℕ → Outcome Sm4Error ℕ
read_word block i = do
  b0 ← index block (i * 4)
  b1 ← index block (i * 4 + 1)
  b2 ← index block (i * 4 + 2)
  b3 ← index block (i * 4 + 3)
  ok (be_word b0 b1 b2 b3)

-- The words of `b` are written in their order.
unfoldable pub permute_initial_block : Block → List ℕ → Outcome Sm4Error Block
permute_initial_block b block = do
  w0 ← read_word block 0
  let b0 = record b { w0 = w0 }
  w1 ← read_word block 1
  let b1 = record b0 { w1 = w1 }
  w2 ← read_word block 2
  let b2 = record b1 { w2 = w2 }
  w3 ← read_word block 3
  ok (record b2 { w3 = w3 })

-- `b[i] = v`
unfoldable pub put : List ℕ → ℕ → ℕ → Outcome Sm4Error (List ℕ)
put [] i v = panic
put (x ∷ b) zero v = ok (v ∷ b)
put (x ∷ b) (suc i) v = put b i v >>= λ rest. ok (x ∷ rest)

-- One turn of the loop of `permuteFinalBlock`, which writes the bytes of the word `w`.
unfoldable pub write_word : List ℕ → ℕ → ℕ → Outcome Sm4Error (List ℕ)
write_word b i w = do
  b0 ← put b (i * 4) (w / 2 ^ 24 % 2 ^ 8)
  b1 ← put b0 (i * 4 + 1) (w / 2 ^ 16 % 2 ^ 8)
  b2 ← put b1 (i * 4 + 2) (w / 2 ^ 8 % 2 ^ 8)
  put b2 (i * 4 + 3) (w % 2 ^ 8)

-- The bytes of `b` after the loop over the words of `block`.
unfoldable pub permute_final_block : List ℕ → Block → Outcome Sm4Error (List ℕ)
permute_final_block b block = do
  b0 ← write_word b 0 block.w0
  b1 ← write_word b0 1 block.w1
  b2 ← write_word b1 2 block.w2
  write_word b2 3 block.w3

-- `w ^ sbox0[x&0xff] ^ sbox1[(x>>8)&0xff] ^ sbox2[(x>>16)&0xff] ^ sbox3[(x>>24)&0xff]`
unfoldable pub mix : ℕ → ℕ → ℕ
mix w x =
    bit_xor
      (bit_xor
        (bit_xor (bit_xor w (table_at sbox0 (bit_and x 0xff)))
          (table_at sbox1 (bit_and (x / 2 ^ 8) 0xff)))
        (table_at sbox2 (bit_and (x / 2 ^ 16) 0xff)))
      (table_at sbox3 (bit_and (x / 2 ^ 24) 0xff))

-- The body of either loop of `cryptBlock`, with the four keys that it reads.
unfoldable pub four_rounds : ℕ → ℕ → ℕ → ℕ → Block → Block
four_rounds k0 k1 k2 k3 b =
    let b0 = mix b.w0 (bit_xor (bit_xor (bit_xor b.w1 b.w2) b.w3) k0) in
    let b1 = mix b.w1 (bit_xor (bit_xor (bit_xor b0 b.w2) b.w3) k1) in
    let b2 = mix b.w2 (bit_xor (bit_xor (bit_xor b0 b1) b.w3) k2) in
    let b3 = mix b.w3 (bit_xor (bit_xor (bit_xor b1 b2) b0) k3) in
    record { w0 = b0; w1 = b1; w2 = b2; w3 = b3 }

-- The loops at index `i`, with `8 - i` rounds left.
unfoldable pub encrypt_loop : ℕ → ℕ → List ℕ → Block → Outcome Sm4Error Block
encrypt_loop zero i subkeys b = ok b
encrypt_loop (suc left) i subkeys b = do
  k0 ← index subkeys (4 * i)
  k1 ← index subkeys (4 * i + 1)
  k2 ← index subkeys (4 * i + 2)
  k3 ← index subkeys (4 * i + 3)
  encrypt_loop left (i + 1) subkeys (four_rounds k0 k1 k2 k3 b)

unfoldable pub decrypt_loop : ℕ → ℕ → List ℕ → Block → Outcome Sm4Error Block
decrypt_loop zero i subkeys b = ok b
decrypt_loop (suc left) i subkeys b = do
  k0 ← index subkeys (31 - 4 * i)
  k1 ← index subkeys (31 - 4 * i - 1)
  k2 ← index subkeys (31 - 4 * i - 2)
  k3 ← index subkeys (31 - 4 * i - 3)
  decrypt_loop left (i + 1) subkeys (four_rounds k0 k1 k2 k3 b)

-- `b[0], b[1], b[2], b[3] = b[3], b[2], b[1], b[0]`
unfoldable pub swap_ends : Block → Block
swap_ends b = record { w0 = b.w3; w1 = b.w2; w2 = b.w1; w3 = b.w0 }

-- Go's `copy`: as much of `src` as `dst` has room for.
unfoldable pub copy : List ℕ → List ℕ → List ℕ
copy dst src = take (length dst) src ++ drop (length src) dst

-- What `cryptBlock` leaves in the slices that it was given.
pub record Crypted : Type 0 where
  pub b : Block
  pub r : List ℕ
  pub dst : List ℕ

-- The arguments in the order of the source, the scratch slices `b` and `r` among them. `src` is read
-- before `dst` is written, so the two may overlap.
unfoldable pub crypt_block :
    List ℕ → Block → List ℕ → List ℕ → List ℕ → Bool → Outcome Sm4Error Crypted
crypt_block subkeys b r dst src decrypt = do
  b0 ← permute_initial_block b src
  c ← if decrypt then decrypt_loop 8 0 subkeys b0 else encrypt_loop 8 0 subkeys b0
  let swapped = swap_ends c
  r0 ← permute_final_block r swapped
  ok (record { b = swapped; r = r0; dst = copy dst r0 })

-- `make([]uint32, 4)`
abbrev pub zero_block : Block
zero_block = record { w0 = 0; w1 = 0; w2 = 0; w3 = 0 }

-- The loop of `generateSubKeys` over the constants `ck[i]` that are left.
unfoldable pub sub_keys_loop : List ℕ → Block → List ℕ
sub_keys_loop [] b = []
sub_keys_loop (c ∷ cs) b =
    let key = feistel0 b.w0 b.w1 b.w2 b.w3 c in
    key ∷ sub_keys_loop cs (record { w0 = b.w1; w1 = b.w2; w2 = b.w3; w3 = key })

unfoldable pub xor_fk : Block → Block
xor_fk b = record {
  w0 = bit_xor b.w0 (table_at fk 0);
  w1 = bit_xor b.w1 (table_at fk 1);
  w2 = bit_xor b.w2 (table_at fk 2);
  w3 = bit_xor b.w3 (table_at fk 3);
}

unfoldable pub generate_sub_keys : List ℕ → Outcome Sm4Error (List ℕ)
generate_sub_keys key = do
  b ← permute_initial_block zero_block key
  ok (sub_keys_loop ck (xor_fk b))

-- The new contents of `dst`.
unfoldable pub encrypt_block : List ℕ → List ℕ → List ℕ → Outcome Sm4Error (List ℕ)
encrypt_block key dst src = do
  subkeys ← generate_sub_keys key
  c ← crypt_block subkeys zero_block (replicate 16 0) dst src false
  ok c.dst

unfoldable pub decrypt_block : List ℕ → List ℕ → List ℕ → Outcome Sm4Error (List ℕ)
decrypt_block key dst src = do
  subkeys ← generate_sub_keys key
  c ← crypt_block subkeys zero_block (replicate 16 0) dst src true
  ok c.dst

pub record Sm4Cipher : Type 0 where
  pub subkeys : List ℕ
  pub block1 : Block
  pub block2 : List ℕ

unfoldable pub new_cipher : List ℕ → Outcome Sm4Error Sm4Cipher
new_cipher key = if not (length key == block_size) then err (key_size (length key)) else do
  subkeys ← generate_sub_keys key
  ok (record { subkeys = subkeys; block1 = zero_block; block2 = replicate 16 0 })

-- The methods `Encrypt` and `Decrypt`: the cipher with its scratch space overwritten, and the new
-- contents of `dst`.
unfoldable pub encrypt : Sm4Cipher → List ℕ → List ℕ → Outcome Sm4Error (Sm4Cipher × List ℕ)
encrypt c dst src = do
  out ← crypt_block c.subkeys c.block1 c.block2 dst src false
  ok (record c { block1 = out.b; block2 = out.r }, out.dst)

unfoldable pub decrypt : Sm4Cipher → List ℕ → List ℕ → Outcome Sm4Error (Sm4Cipher × List ℕ)
decrypt c dst src = do
  out ← crypt_block c.subkeys c.block1 c.block2 dst src true
  ok (record c { block1 = out.b; block2 = out.r }, out.dst)
