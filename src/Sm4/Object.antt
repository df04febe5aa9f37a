-- ===== src/Sm4/Object.antt =====
-- The `cipher.Block` of the package: `NewCipher`, and the methods on an object that has been used
-- any number of times.
use gmsm.Common.{
  ℕ, ◌≡◌, ◌≢◌, refl, sym, ap, ◌∙◌, List, length, IsBytes, IsWord, All, replicate, Bool,
  if◌then◌else◌, true, false, arith, ◌==◌, ==_iff, Bool-cases, ◌⊎◌, inl, inr,
}
use gmsm.Common.{Outcome, ok, err, panic, ◌>>=◌, >>=-eq-ok}
use gmsm.Sm4.Cipher.{
  Block, permute_initial_block, permute_final_block, swap_ends, copy, encrypt_loop, decrypt_loop,
  Crypted, Sm4Cipher, Sm4Error, key_size, crypt_block, generate_sub_keys, encrypt_block,
  decrypt_block, new_cipher, encrypt, decrypt, zero_block,
}
use gmsm.Sm4.Blocks.{block_bytes, final_lem, length-final}
use gmsm.Sm4.Schedule.{generate_sub_keys_total}

-- Either the key has not 16 bytes and `NewCipher` fails with its length as the error, or it has and
-- `NewCipher` makes an object that holds the key's 32 round keys, each of them a word.
pub new_cipher_branches :
    (key : List ℕ)
    → IsBytes key
    → ((length key ≢ 16) × (new_cipher key ≡ err (key_size (length key))))
      ⊎ ((length key ≡ 16)
          × ((c : Sm4Cipher) × (new_cipher key ≡ ok c)
              × (generate_sub_keys key ≡ ok c.subkeys)
              × (length c.subkeys ≡ 32)
              × All IsWord c.subkeys))
unfolding new_cipher
new_cipher_branches key h = elim (Bool-cases (length key == 16)) [
  | inl e ↦
      let n : length key ≡ 16 = (==_iff (length key) 16).0 e in
      let (ks, made, size, words) = generate_sub_keys_total key (omega arith) h in
      inr (
        n,
        (
          record { subkeys = ks; block1 = zero_block; block2 = replicate 16 0 },
          rw (e, made) refl,
          made,
          size,
          words,
        ),
      )
  | inr e ↦ inl (λ n. let clash = (==_iff (length key) 16).1 n in cc, rw e refl)
]

-- The objects that calls of the methods make out of `NewCipher(key)`.
pub data Used (key : List ℕ) : Sm4Cipher → Type 0 where
  made : {c : Sm4Cipher} → new_cipher key ≡ ok c → Used key c
  encrypted :
      {c c' : Sm4Cipher} (dst src out : List ℕ)
      → Used key c
      → encrypt c dst src ≡ ok (c', out)
      → Used key c'
  decrypted :
      {c c' : Sm4Cipher} (dst src out : List ℕ)
      → Used key c
      → decrypt c dst src ≡ ok (c', out)
      → Used key c'

new_cipher-subkeys :
    (key : List ℕ) (c : Sm4Cipher) → new_cipher key ≡ ok c → generate_sub_keys key ≡ ok c.subkeys
unfolding new_cipher
new_cipher-subkeys key c e = ground arith

encrypt-subkeys :
    (c c' : Sm4Cipher) (dst src out : List ℕ)
    → encrypt c dst src ≡ ok (c', out)
    → c'.subkeys ≡ c.subkeys
unfolding encrypt
encrypt-subkeys c c' dst src out e = ground arith

decrypt-subkeys :
    (c c' : Sm4Cipher) (dst src out : List ℕ)
    → decrypt c dst src ≡ ok (c', out)
    → c'.subkeys ≡ c.subkeys
unfolding decrypt
decrypt-subkeys c c' dst src out e = ground arith

final-length :
    (r out : List ℕ) (b : Block)
    → length r ≡ 16
    → permute_final_block r b ≡ ok out
    → length out ≡ 16
final-length r out b size e =
    let same : block_bytes b ≡ out = let found = final_lem r b size in cc in
    ap length (sym same) ∙ length-final b

-- `cryptBlock` leaves as many bytes in its scratch slice as were there.
crypt_block-length :
    (ks : List ℕ) (s : Block) (r dst src : List ℕ) (way : Bool) (c : Crypted)
    → length r ≡ 16
    → crypt_block ks s r dst src way ≡ ok c
    → length c.r ≡ 16
unfolding crypt_block
crypt_block-length ks s r dst src way c size e =
    let (b0, _, e0) = >>=-eq-ok (permute_initial_block s src) _ e in
    let (b1, _, e1) =
      >>=-eq-ok (if way then decrypt_loop 8 0 ks b0 else encrypt_loop 8 0 ks b0) _ e0 in
    let (r0, put_there, e2) = >>=-eq-ok (permute_final_block r (swap_ends b1)) _ e1 in
    let left : Crypted = record { b = swap_ends b1; r = r0; dst = copy dst r0 } in
    let whole : left ≡ c = cc in
    let same : r0 ≡ c.r = ap (λ (x : Crypted). x.r) {x = left} {y = c} whole in
    ap length (sym same) ∙ final-length r r0 (swap_ends b1) size put_there

-- The scratch slice of an object always has sixteen bytes.
new_cipher-length : (key : List ℕ) (c : Sm4Cipher) → new_cipher key ≡ ok c → length c.block2 ≡ 16
unfolding new_cipher
new_cipher-length key c e = ground arith

encrypt-length :
    (c c' : Sm4Cipher) (dst src out : List ℕ)
    → length c.block2 ≡ 16
    → encrypt c dst src ≡ ok (c', out)
    → length c'.block2 ≡ 16
unfolding encrypt
encrypt-length c c' dst src out size e =
    let (x, done, e') = >>=-eq-ok (crypt_block c.subkeys c.block1 c.block2 dst src false) _ e in
    let left = crypt_block-length c.subkeys c.block1 c.block2 dst src false x size done in
    ground arith

decrypt-length :
    (c c' : Sm4Cipher) (dst src out : List ℕ)
    → length c.block2 ≡ 16
    → decrypt c dst src ≡ ok (c', out)
    → length c'.block2 ≡ 16
unfolding decrypt
decrypt-length c c' dst src out size e =
    let (x, done, e') = >>=-eq-ok (crypt_block c.subkeys c.block1 c.block2 dst src true) _ e in
    let left = crypt_block-length c.subkeys c.block1 c.block2 dst src true x size done in
    ground arith

Used-length : (key : List ℕ) {c : Sm4Cipher} → Used key c → length c.block2 ≡ 16
Used-length key (made e) = new_cipher-length key _ e
Used-length key (encrypted dst src out u e) = encrypt-length _ _ dst src out (Used-length key u) e
Used-length key (decrypted dst src out u e) = decrypt-length _ _ dst src out (Used-length key u) e

initial_same :
    (s t : Block) (src : List ℕ) → permute_initial_block s src ≡ permute_initial_block t src
unfolding permute_initial_block
initial_same s t src = refl

-- What the scratch slices hold before does not matter to `cryptBlock`.
crypt_block_scratch :
    (ks : List ℕ) (s t : Block) (r q dst src : List ℕ) (way : Bool)
    → length r ≡ 16
    → length q ≡ 16
    → crypt_block ks s r dst src way ≡ crypt_block ks t q dst src way
unfolding crypt_block
crypt_block_scratch ks s t r q dst src way hr hq =
    let final : (b : Block) → permute_final_block r b ≡ permute_final_block q b =
      λ b. final_lem r b hr ∙ sym (final_lem q b hq) in
    rw (initial_same s t src) (λ i. permute_initial_block t src >>= λ b0.
    (if way then decrypt_loop 8 0 ks b0 else encrypt_loop 8 0 ks b0) >>= λ c.
    final (swap_ends c) i >>= λ r0. ok (record { b = swap_ends c; r = r0; dst = copy dst r0 }))

-- Use does not change the round keys.
Used-subkeys : (key : List ℕ) {c : Sm4Cipher} → Used key c → generate_sub_keys key ≡ ok c.subkeys
Used-subkeys key (made e) = new_cipher-subkeys key _ e
Used-subkeys key (encrypted dst src out u e) =
    Used-subkeys key u ∙ ap ok (sym (encrypt-subkeys _ _ dst src out e))
Used-subkeys key (decrypted dst src out u e) =
    Used-subkeys key u ∙ ap ok (sym (decrypt-subkeys _ _ dst src out e))

-- What a call writes to its destination.
abbrev only : Outcome Sm4Error Crypted → Outcome Sm4Error (List ℕ)
only m = m >>= λ x. ok x.dst

abbrev pub written : Outcome Sm4Error (Sm4Cipher × List ℕ) → Outcome Sm4Error (List ℕ)
written m = m >>= λ r. ok r.1

-- However often an object has been used, whatever earlier blocks have left in its scratch slices, its
-- methods write what `EncryptBlock` and `DecryptBlock`, which make new ones, write for the object's
-- key, and panic where these do.
pub Used-methods :
    (key : List ℕ) (c : Sm4Cipher) (dst src : List ℕ)
    → Used key c
    → (written (encrypt c dst src) ≡ encrypt_block key dst src)
      × (written (decrypt c dst src) ≡ decrypt_block key dst src)
unfolding encrypt decrypt encrypt_block decrypt_block
Used-methods key c dst src u = (
  rw (Used-subkeys key u) (same _ ∙ ap only (fresh false)),
  rw (Used-subkeys key u) (same _ ∙ ap only (fresh true)),
)
  where
    fresh :
        (way : Bool)
        → crypt_block c.subkeys c.block1 c.block2 dst src way
          ≡ crypt_block c.subkeys zero_block (replicate 16 0) dst src way
    fresh way =
        crypt_block_scratch c.subkeys c.block1 zero_block c.block2 (replicate 16 0) dst src way
          (Used-length key u) refl

    same :
        (m : Outcome Sm4Error Crypted)
        → written (m >>= λ x. ok (record c { block1 = x.b; block2 = x.r }, x.dst)) ≡ only m
    same (ok x) = refl
    same (err e) = refl
    same panic = refl
