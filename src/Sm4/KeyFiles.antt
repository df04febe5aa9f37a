-- ===== src/Sm4/KeyFiles.antt =====
-- What is written by the key writers is read by the key readers.
use gmsm.Common.{ℕ, ◌≡◌, refl, subst, List, true, Option, none, some, arith}
use gmsm.Common.{Outcome, ok, err, panic, >>=-eq-ok}
use Prim.Native.String.{String}
use gmsm.Sm4.Cipher.{Sm4Error}
use gmsm.Sm4.Keys.{
  PemBlock, PemLibrary, plain_block, Files, is_encrypted_pem_block, read_block, read_key_from_mem,
  key_block, write_key_to_mem, read_key_from_pem, finish_write, write_key_to_pem,
}

module _ (lib : PemLibrary) where
  open lib use {Text, decode, encode}

  read-key_block :
      (key : List ℕ) (pwd : Option (List ℕ)) (b : PemBlock)
      → key_block lib key pwd ≡ ok b
      → read_key_from_mem lib (encode b) pwd ≡ ok key
  unfolding key_block read_key_from_mem read_block
  read-key_block key (some pwd) b e = simp (
    lib.decode-encrypt _ key pwd b e,
    lib.encrypt-marked _ key pwd b e,
    lib.encrypt-kind _ key pwd b e,
    lib.decrypt-encrypt _ key pwd b e,
  )
  read-key_block key none b e =
      subst (λ c. read_key_from_mem lib (encode c) none ≡ ok key) (plain_eq b e)
        (rw (lib.decode-encode (plain_block key) refl) plain_read)
    where
      plain_eq : (c : PemBlock) → key_block lib key none ≡ ok c → plain_block key ≡ c
      plain_eq c q = cc

      plain_read : read_block lib (some (plain_block key)) none ≡ ok key
      plain_read = unfold is_encrypted_pem_block in refl

  -- A key that `WriteKeytoMem` has written, with or without a password, is read back by
  -- `ReadKeyFromMem` with the same password.
  pub read-write_mem :
      (key : List ℕ) (pwd : Option (List ℕ)) (text : Text)
      → write_key_to_mem lib key pwd ≡ ok text
      → read_key_from_mem lib text pwd ≡ ok key
  unfolding write_key_to_mem
  read-write_mem key pwd text e =
      let (b, made, out) = >>=-eq-ok (key_block lib key pwd) _ e in
      subst (λ t. read_key_from_mem lib t pwd ≡ ok key) (cc) (read-key_block key pwd b made)

  module _ (files : Files Text) where
    open files use {State}

    -- If `WriteKeyToPem` answers true, `ReadKeyFromPem` with the same password reads the key back
    -- from that file.
    pub read-write_pem :
        (s t : State) (name : String) (key : List ℕ) (pwd : Option (List ℕ))
        → write_key_to_pem lib files s name key pwd ≡ ok (true, t)
        → read_key_from_pem lib files t name pwd ≡ ok key
    unfolding write_key_to_pem read_key_from_pem
    read-write_pem s t name key pwd e =
        let (b, made, e1) = >>=-eq-ok (key_block lib key pwd) _ e in
        let (u, opened, e2) = >>=-eq-ok (files.create s name) _ e1 in
        rw
          (files.read-write s u t name (encode b) opened
            (wrote u (files.write u name (encode b)) e2))
          (read-key_block key pwd b made)
      where
        wrote :
            (u : State) (m : Outcome Sm4Error State)
            → finish_write lib files u m ≡ ok (true, t)
            → m ≡ ok t
        wrote u (ok v) q = cc
        wrote u (err x) q = ground arith
        wrote u panic q = cc
