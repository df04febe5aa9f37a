-- ===== src/Sm4/Examples.antt =====
-- The theorems about the package sm4 at concrete inputs.
use gmsm.Common.{
  ℕ, ◌≡◌, ◌≢◌, ◌⊎◌, refl, sym, ap, subst, List, [], ◌∷◌, ◌++◌, length, replicate, arith, All,
  IsWord, be_word, true, Option, none, some,
}
use gmsm.Common.{Outcome, ok, err, panic}
use Prim.Native.String.{String}
use gmsm.Sm4.Cipher.{
  Block, Sm4Error, key_size, Sm4Cipher, zero_block, permute_initial_block, read_word, crypt_block,
  generate_sub_keys, encrypt_block, decrypt_block, new_cipher, encrypt, decrypt,
}
use gmsm.Sm4.Spec.{cipher}
use gmsm.Sm4.Blockwise.{key_order, crypted, crypt_block-cipher, decrypt_block-encrypt_block}
use gmsm.Sm4.Object.{made, written, new_cipher_branches, Used-methods}
use gmsm.Sm4.Keys.{
  PemBlock, PemLibrary, Files, is_encrypted_pem_block, has_header, read_key_from_mem,
  write_key_to_mem, key_block, read_key_from_pem, write_key_to_pem, finish_write,
}
use gmsm.Sm4.KeyFiles.{read-write_mem, read-write_pem}
use gmsm.Sm4.Runs.{key}

abbrev room : List ℕ
room = replicate 20 0

decrypt_block-encrypt_block_example :
    (c : List ℕ) × (encrypt_block key room key ≡ ok c)
    × (decrypt_block key room c ≡ ok (key ++ replicate 4 0))
decrypt_block-encrypt_block_example =
    decrypt_block-encrypt_block key key room room (omega arith) (omega arith) (omega arith)
      (omega arith) (omega arith) (omega arith)

abbrev words : List ℕ
words = replicate 32 0x01234567

-- Scratch slices that an earlier block has left.
abbrev used_block : Block
used_block = record { w0 = 1; w1 = 2; w2 = 3; w3 = 4 }

abbrev used_bytes : List ℕ
used_bytes = replicate 16 0xee

abbrev first_block : Block
first_block = record { w0 = 0x01234567; w1 = 0x89abcdef; w2 = 0xfedcba98; w3 = 0x76543210 }

first_block_read : permute_initial_block used_block key ≡ ok first_block
unfolding permute_initial_block read_word be_word
first_block_read = refl

crypt_block-cipher_example :
    crypt_block words used_block used_bytes room key true
    ≡ ok (crypted (cipher (key_order true words) first_block) room)
crypt_block-cipher_example =
    crypt_block-cipher words used_block used_bytes room key true first_block refl (omega arith) refl
      first_block_read (omega arith)

new_cipher_branches_example :
    ((length key ≢ 16) × (new_cipher key ≡ err (key_size (length key))))
    ⊎ ((length key ≡ 16)
        × ((c : Sm4Cipher) × (new_cipher key ≡ ok c)
            × (generate_sub_keys key ≡ ok c.subkeys)
            × (length c.subkeys ≡ 32)
            × All IsWord c.subkeys))
new_cipher_branches_example = new_cipher_branches key (omega arith)

round_keys : Outcome Sm4Error (List ℕ) → List ℕ
round_keys (ok ks) = ks
round_keys (err e) = []
round_keys panic = []

abbrev object : Sm4Cipher
object = record {
  subkeys = round_keys (generate_sub_keys key);
  block1 = zero_block;
  block2 = replicate 16 0;
}

object_made : new_cipher key ≡ ok object
unfolding new_cipher generate_sub_keys permute_initial_block read_word be_word round_keys
object_made = refl

Used-methods_example :
    (written (encrypt object room key) ≡ encrypt_block key room key)
    × (written (decrypt object room key) ≡ decrypt_block key room key)
Used-methods_example = Used-methods key object room key (made object_made)

-- A library that keeps the key in the block that it calls encrypted.
toy_encrypt : String → List ℕ → List ℕ → Outcome Sm4Error PemBlock
toy_encrypt kind bytes pwd =
    ok (record { kind = kind; headers = ("DEK-Info", "toy") ∷ []; bytes = bytes })

toy_block :
    (kind : String) (bytes pwd : List ℕ) (b : PemBlock)
    → toy_encrypt kind bytes pwd ≡ ok b
    → record { kind = kind; headers = ("DEK-Info", "toy") ∷ []; bytes = bytes } ≡ b
unfolding toy_encrypt
toy_block kind bytes pwd b e = cc

toy_marked :
    (kind : String) (bytes : List ℕ)
    → is_encrypted_pem_block
        (record { kind = kind; headers = ("DEK-Info", "toy") ∷ []; bytes = bytes })
      ≡ true
unfolding is_encrypted_pem_block has_header
toy_marked kind bytes = refl

abbrev toy_library : PemLibrary
toy_library = record {
  Text = PemBlock;
  decode = λ b. some b;
  encode = λ b. b;
  encrypt_pem_block = toy_encrypt;
  decrypt_pem_block = λ b pwd. ok b.bytes;
  decode-encode = λ b h. refl;
  encrypt-kind = λ kind bytes pwd b e. ap (λ c. c.kind) (sym (toy_block kind bytes pwd b e));
  encrypt-marked = λ kind bytes pwd b e.
      subst (λ c. is_encrypted_pem_block c ≡ true) (toy_block kind bytes pwd b e)
        (toy_marked kind bytes);
  decode-encrypt = λ kind bytes pwd b e. refl;
  decrypt-encrypt = λ kind bytes pwd b e. ap (λ c. ok c.bytes) (sym (toy_block kind bytes pwd b e));
}

-- A file system of one file.
abbrev found : {Text : Type 0} → Option Text → Outcome Sm4Error Text
found none = err Sm4Error.external
found (some text) = ok text

abbrev toy_files : Files PemBlock
toy_files = record {
  State = Option PemBlock;
  read_file = λ s name. found s;
  create = λ s name. ok none;
  write = λ s name text. ok (some text);
  read-write = λ s t u name x opened put.
      let same : some x ≡ u = cc in subst (λ v. found v ≡ ok x) same refl;
}

abbrev locked : PemBlock
locked = record { kind = "SM4 ENCRYPTED KEY"; headers = ("DEK-Info", "toy") ∷ []; bytes = key }

written_run : write_key_to_mem toy_library key (some (1 ∷ [])) ≡ ok locked
unfolding write_key_to_mem key_block toy_encrypt
written_run = refl

read-write_mem_example : read_key_from_mem toy_library locked (some (1 ∷ [])) ≡ ok key
read-write_mem_example = read-write_mem toy_library key (some (1 ∷ [])) locked written_run

written_file_run :
    write_key_to_pem toy_library toy_files none "key.pem" key (some (1 ∷ []))
    ≡ ok (true, some locked)
unfolding write_key_to_pem key_block finish_write toy_encrypt
written_file_run = refl

read-write_pem_example :
    read_key_from_pem toy_library toy_files (some locked) "key.pem" (some (1 ∷ [])) ≡ ok key
read-write_pem_example =
    read-write_pem toy_library toy_files none (some locked) "key.pem" key (some (1 ∷ []))
      written_file_run
