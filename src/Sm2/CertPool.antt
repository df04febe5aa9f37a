-- ===== src/Sm2/CertPool.antt =====
-- sm2/cert_pool.go: the pool of certificates with its two indices. A Go map of slices is a function
-- to lists that is empty at a missing key, and the nil pool is `none`.
pub mod Positions
pub mod Indexed
pub mod Members
pub mod Parents
pub mod Pem
use gmsm.Common.{
  ℕ, zero, suc, ◌+◌, List, [], ◌∷◌, ◌++◌, length, ltb, ◌==◌, if◌then◌else◌, Bool, true, false,
  Option, none, some, index, map,
}
use gmsm.Common.{Outcome, ok, err, panic, ◌>>=◌}
use gmsm.Sm2.Encryption.{equal_bytes}

-- The fields of a parsed certificate that the pool reads.
pub record Certificate : Type 0 where
  pub raw : List ℕ
  pub raw_subject : List ℕ
  pub raw_issuer : List ℕ
  pub subject_key_id : List ℕ
  pub authority_key_id : List ℕ

-- `Equal` compares the raw bytes.
unfoldable pub equal : Certificate → Certificate → Bool
equal c other = equal_bytes c.raw other.raw

pub record CertPool : Type 0 where
  pub by_subject_key_id : List ℕ → List ℕ
  pub by_name : List ℕ → List ℕ
  pub certs : List Certificate

unfoldable pub new_cert_pool : CertPool
new_cert_pool = record { by_subject_key_id = λ key. []; by_name = λ key. []; certs = [] }

-- `m[key] = append(m[key], n)`
unfoldable pub append_at : (List ℕ → List ℕ) → List ℕ → ℕ → List ℕ → List ℕ
append_at m key n other = if equal_bytes other key then m other ++ (n ∷ []) else m other

-- What `AddCert` does with a certificate that is not in the pool.
unfoldable pub add_new : CertPool → Certificate → CertPool
add_new s cert =
    let n = length s.certs in
    let keyed = append_at s.by_subject_key_id cert.subject_key_id n in
    record {
      by_subject_key_id = if ltb 0 (length cert.subject_key_id) then keyed else s.by_subject_key_id;
      by_name = append_at s.by_name cert.raw_subject n;
      certs = s.certs ++ (cert ∷ []);
    }

module _ {E : Type 0} where
  -- The loop over the candidates.
  unfoldable pub contains_loop : List Certificate → List ℕ → Certificate → Outcome E Bool
  contains_loop certs [] cert = ok false
  contains_loop certs (c ∷ candidates) cert = index certs c >>= λ found.
      if equal found cert then ok true else contains_loop certs candidates cert

  unfoldable pub contains : Option CertPool → Certificate → Outcome E Bool
  contains none cert = ok false
  contains (some s) cert = contains_loop s.certs (s.by_name cert.raw_subject) cert

  -- `AddCert`; a nil certificate is `none`, and panics.
  unfoldable pub add_cert : CertPool → Option Certificate → Outcome E CertPool
  add_cert s none = panic
  add_cert s (some cert) =
      contains (some s) cert >>= λ there. if there then ok s else ok (add_new s cert)

-- `Subjects`
unfoldable pub subjects : CertPool → List (List ℕ)
subjects s = map (λ c. c.raw_subject) s.certs

-- The certificates that have been found to sign, the last one that has not, and the error that the
-- last test has left.
pub record Found (E : Type 0) : Type 0 where
  pub parents : List ℕ
  pub err_cert : Option Certificate
  pub error : Option E

module _ {E : Type 0} (check_signature_from : Certificate → Certificate → Option E) where
  unfoldable pub parents_loop :
      List Certificate → List ℕ → Certificate → Found E → Outcome E (Found E)
  parents_loop certs [] cert found = ok found
  parents_loop certs (c ∷ candidates) cert found = index certs c >>= λ candidate.
      elim (check_signature_from cert candidate) [
        | none ↦ parents_loop certs candidates cert (record {
          parents = found.parents ++ (c ∷ []);
          err_cert = found.err_cert;
          error = none;
        })
        | some e ↦
            parents_loop certs candidates cert
              (record { parents = found.parents; err_cert = some candidate; error = some e })
      ]

  -- The indices of the certificates to try: those with the issuer's key, or with its name.
  unfoldable pub candidates_of : CertPool → Certificate → List ℕ
  candidates_of s cert =
      let keyed = s.by_subject_key_id cert.authority_key_id in
      let by_key = if ltb 0 (length cert.authority_key_id) then keyed else [] in
      if length by_key == 0 then s.by_name cert.raw_issuer else by_key

  unfoldable pub find_verified_parents : Option CertPool → Certificate → Outcome E (Found E)
  find_verified_parents none cert = ok (record { parents = []; err_cert = none; error = none })
  find_verified_parents (some s) cert =
      parents_loop s.certs (candidates_of s cert) cert
        (record { parents = []; err_cert = none; error = none })
