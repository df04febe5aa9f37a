-- ===== src/Sm2/CertPool/Pem.antt =====
-- sm2/cert_pool.go: `AppendCertsFromPEM`. `pem.Decode` and `ParseCertificate` are parameters.
pub mod Added
pub mod Held
use gmsm.Common.{
  ℕ, zero, suc, List, [], ◌∷◌, length, ◌==◌, if◌then◌else◌, Bool, true, false, ◌&&◌, Option, none,
  some,
}
use gmsm.Common.{Outcome, ok, err, panic, ◌>>=◌}
use gmsm.Sm2.Encryption.{equal_bytes}
use gmsm.Sm2.CertPool.{Certificate, CertPool, add_cert}

-- The fields of a `pem.Block` that the code reads: its type, the number of its headers, its bytes.
pub record Block : Type 0 where
  pub block_type : List ℕ
  pub headers : ℕ
  pub bytes : List ℕ

-- "CERTIFICATE"
abbrev pub certificate_type : List ℕ
certificate_type = 67 ∷ 69 ∷ 82 ∷ 84 ∷ 73 ∷ 70 ∷ 73 ∷ 67 ∷ 65 ∷ 84 ∷ 69 ∷ []

-- The certificate of a block, where the code does not go on with the next block.
unfoldable pub certificate_of : (List ℕ → Option Certificate) → Block → Option Certificate
certificate_of parse_certificate block =
    if equal_bytes block.block_type certificate_type && (block.headers == 0)
    then parse_certificate block.bytes
    else none

module _ (decode : List ℕ → Option (Block × List ℕ))
    (parse_certificate : List ℕ → Option Certificate) where
  -- The loop over the text that is left; each turn takes a byte of fuel or more.
  unfoldable pub append_loop :
      {E : Type 0} → ℕ → CertPool → List ℕ → Bool → Outcome E (CertPool × Bool)
  append_loop fuel s [] found = ok (s, found)
  append_loop zero s (c ∷ pem_certs) found = ok (s, found)
  append_loop (suc fuel) s (c ∷ pem_certs) found = elim (decode (c ∷ pem_certs)) [
    | none ↦ ok (s, found)
    | some (block, rest) ↦ elim (certificate_of parse_certificate block) [
      | none ↦ append_loop fuel s rest found
      | some cert ↦ add_cert s (some cert) >>= λ t. append_loop fuel t rest true
    ]
  ]

  -- The pool and whether a certificate was found.
  unfoldable pub append_certs_from_pem :
      {E : Type 0} → CertPool → List ℕ → Outcome E (CertPool × Bool)
  append_certs_from_pem s pem_certs = append_loop (length pem_certs) s pem_certs false
