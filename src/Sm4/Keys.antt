-- ===== src/Sm4/Keys.antt =====
-- The key files of sm4/sm4.go: `ReadKeyFromMem`, `ReadKeyFromPem`, `WriteKeytoMem` and
-- `WriteKeyToPem`. PEM texts, their encryption and the file system belong to the Go library and are
-- parameters; the code hands a PEM text on and never looks into it.
use gmsm.Common.{ℕ, ◌≡◌, List, [], ◌∷◌, Bool, true, false, not, Option, none, some, if◌then◌else◌}
use gmsm.Common.{Outcome, ok, err, panic, ◌>>=◌}
use Prim.Native.String.{String}
use text.Mathlib.Text.{◌==◌ as str_eq}
use gmsm.Sm4.Cipher.{Sm4Error, unknown_type, need_passwd}

-- `pem.Block`
pub record PemBlock : Type 0 where
  pub kind : String
  pub headers : List (String × String)
  pub bytes : List ℕ

unfoldable pub has_header : String → List (String × String) → Bool
has_header name [] = false
has_header name ((key, value) ∷ rest) = if str_eq key name then true else has_header name rest

-- `x509.IsEncryptedPEMBlock`, which reads a field of its argument and so panics on nil.
unfoldable pub is_encrypted_pem_block : PemBlock → Bool
unfolding has_header
is_encrypted_pem_block b = has_header "DEK-Info" b.headers

-- `encoding/pem` and the PEM encryption of `crypto/x509`.
pub record PemLibrary : Type 1 where
  pub Text : Type 0
  pub decode : Text → Option PemBlock
  pub encode : PemBlock → Text
  pub encrypt_pem_block : String → List ℕ → List ℕ → Outcome Sm4Error PemBlock
  pub decrypt_pem_block : PemBlock → List ℕ → Outcome Sm4Error (List ℕ)
  -- A block without headers is decoded as it was encoded.
  pub decode-encode : (b : PemBlock) → b.headers ≡ [] → decode (encode b) ≡ some b
  -- An encrypted block has the type that it was given, carries the encryption's header, is
  -- decoded as it was encoded, and is decrypted by the password that encrypted it.
  pub encrypt-kind :
      (kind : String) (key pwd : List ℕ) (b : PemBlock)
      → encrypt_pem_block kind key pwd ≡ ok b
      → b.kind ≡ kind
  pub encrypt-marked :
      (kind : String) (key pwd : List ℕ) (b : PemBlock)
      → encrypt_pem_block kind key pwd ≡ ok b
      → is_encrypted_pem_block b ≡ true
  pub decode-encrypt :
      (kind : String) (key pwd : List ℕ) (b : PemBlock)
      → encrypt_pem_block kind key pwd ≡ ok b
      → decode (encode b) ≡ some b
  pub decrypt-encrypt :
      (kind : String) (key pwd : List ℕ) (b : PemBlock)
      → encrypt_pem_block kind key pwd ≡ ok b
      → decrypt_pem_block b pwd ≡ ok key

-- The files, in a state that the calls change. Opening a file for writing empties it.
pub record Files (Text : Type 0) : Type 1 where
  pub State : Type 0
  pub read_file : State → String → Outcome Sm4Error Text
  pub create : State → String → Outcome Sm4Error State
  pub write : State → String → Text → Outcome Sm4Error State
  pub read-write :
      (s t u : State) (name : String) (x : Text)
      → create s name ≡ ok t
      → write t name x ≡ ok u
      → read_file u name ≡ ok x

abbrev pub plain_block : List ℕ → PemBlock
plain_block key = record { kind = "SM4 KEY"; headers = []; bytes = key }

module _ (lib : PemLibrary) where
  open lib use {Text, decode, encode, encrypt_pem_block, decrypt_pem_block}

  unfoldable pub read_block : Option PemBlock → Option (List ℕ) → Outcome Sm4Error (List ℕ)
  read_block none pwd = panic
  read_block (some block) (some pwd) =
      if is_encrypted_pem_block block
      then (if not (str_eq block.kind "SM4 ENCRYPTED KEY")
          then err unknown_type
          else decrypt_pem_block block pwd)
      else (if not (str_eq block.kind "SM4 KEY") then err unknown_type else ok block.bytes)
  read_block (some block) none =
      if is_encrypted_pem_block block
      then (if not (str_eq block.kind "SM4 ENCRYPTED KEY")
          then err unknown_type
          else err need_passwd)
      else (if not (str_eq block.kind "SM4 KEY") then err unknown_type else ok block.bytes)

  unfoldable pub read_key_from_mem : Text → Option (List ℕ) → Outcome Sm4Error (List ℕ)
  unfolding read_block
  read_key_from_mem text pwd = read_block (decode text) pwd

  -- The block that both writers make; a nil password is `none`.
  unfoldable pub key_block : List ℕ → Option (List ℕ) → Outcome Sm4Error PemBlock
  key_block key (some pwd) = encrypt_pem_block "SM4 ENCRYPTED KEY" key pwd
  key_block key none = ok (plain_block key)

  unfoldable pub write_key_to_mem : List ℕ → Option (List ℕ) → Outcome Sm4Error Text
  unfolding key_block
  write_key_to_mem key pwd = key_block key pwd >>= λ block. ok (encode block)

  module _ (files : Files Text) where
    open files use {State, read_file, create, write}

    unfoldable pub read_key_from_pem : State → String → Option (List ℕ) → Outcome Sm4Error (List ℕ)
    read_key_from_pem s name pwd = read_file s name >>= λ text. read_key_from_mem text pwd

    -- The last step of `WriteKeyToPem`: an error of `pem.Encode` gives `false, nil`.
    unfoldable pub finish_write : State → Outcome Sm4Error State → Outcome Sm4Error (Bool × State)
    finish_write opened (ok t) = ok (true, t)
    finish_write opened (err e) = ok (false, opened)
    finish_write opened panic = panic

    unfoldable pub write_key_to_pem :
        State → String → List ℕ → Option (List ℕ) → Outcome Sm4Error (Bool × State)
    unfolding key_block finish_write
    write_key_to_pem s name key pwd = do
      block ← key_block key pwd
      opened ← create s name
      finish_write opened (write opened name (encode block))
