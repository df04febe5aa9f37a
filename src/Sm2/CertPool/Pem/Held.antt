-- ===== src/Sm2/CertPool/Pem/Held.antt =====
-- What `AppendCertsFromPEM` adds to a pool, by the blocks that the text holds.
use gmsm.Common.{
  ℕ, zero, suc, ◌≤◌, ◌<◌, ◌≡◌, refl, List, [], ◌∷◌, length, All, Bool, true, ◌==◌, ==_iff, Option,
  none, some, Option-cases, Bool-cases, inl, inr, arith,
}
use gmsm.Common.{ok}
use gmsm.Sm2.Encryption.{equal_bytes}
use gmsm.Sm2.Sealed.{equal_refl, equal_sound}
use gmsm.Sm2.CertPool.{Certificate, CertPool, contains}
use gmsm.Sm2.CertPool.Indexed.{IsIndexed}
use gmsm.Sm2.CertPool.Pem.{Block, certificate_type, certificate_of, append_certs_from_pem}
use gmsm.Sm2.CertPool.Pem.Added.{pem_certificates, some_found, append_certs_from_pem-contains}

-- What `certificate_of` has tested where it answers a certificate, and what it answers then.
certificate_of_iff :
    (parse_certificate : List ℕ → Option Certificate) (block : Block) (cert : Certificate)
    → (certificate_of parse_certificate block ≡ some cert
        → (block.block_type ≡ certificate_type)
          × (block.headers ≡ 0)
          × (parse_certificate block.bytes ≡ some cert))
      × (block.block_type ≡ certificate_type
          → block.headers ≡ 0
          → parse_certificate block.bytes ≡ some cert
          → certificate_of parse_certificate block ≡ some cert)
unfolding certificate_of
certificate_of_iff parse_certificate block cert = (forward, backward)
  where
    forward :
        certificate_of parse_certificate block ≡ some cert
        → (block.block_type ≡ certificate_type)
          × (block.headers ≡ 0)
          × (parse_certificate block.bytes ≡ some cert)
    forward h = elim (Bool-cases (equal_bytes block.block_type certificate_type)) [
      | inl kind ↦ elim (Bool-cases (block.headers == 0)) [
        | inl bare ↦ (
          equal_sound block.block_type certificate_type kind,
          (==_iff block.headers 0).0 bare,
          rw (kind, bare) at h,
        )
        | inr headed ↦ let h' = rw (kind, headed) at h in absurd (cc)
      ]
      | inr other ↦ let h' = rw other at h in absurd (cc)
    ]

    backward :
        block.block_type ≡ certificate_type
        → block.headers ≡ 0
        → parse_certificate block.bytes ≡ some cert
        → certificate_of parse_certificate block ≡ some cert
    backward kind bare parsed =
        let same : equal_bytes block.block_type certificate_type ≡ true =
          rw kind (equal_refl certificate_type) in
        rw (same, bare) parsed

module _ (decode : List ℕ → Option (Block × List ℕ))
    (parse_certificate : List ℕ → Option Certificate) where
  -- The blocks that `pem.Decode` finds one behind the other in a text.
  pub data Holds : List ℕ → Block → Type 0 where
    first :
        {c : ℕ} {text : List ℕ} {block : Block} (rest : List ℕ)
        → decode (c ∷ text) ≡ some (block, rest)
        → Holds (c ∷ text) block
    behind :
        {c : ℕ} {text : List ℕ} {block : Block} (before : Block) (rest : List ℕ)
        → decode (c ∷ text) ≡ some (before, rest)
        → Holds rest block
        → Holds (c ∷ text) block

  -- A block of the text that has the type "CERTIFICATE" and no headers and parses as the certificate.
  pub record HoldsCertificate (text : List ℕ) (cert : Certificate) : Type 0 where
    pub block : Block
    pub held : Holds text block
    pub kind :
        block.block_type
        ≡ b'C' ∷ b'E' ∷ b'R' ∷ b'T' ∷ b'I' ∷ b'F' ∷ b'I' ∷ b'C' ∷ b'A' ∷ b'T' ∷ b'E' ∷ []
    pub bare : block.headers ≡ 0
    pub parsed : parse_certificate block.bytes ≡ some cert

  found_behind :
      (found : Option Certificate) (certs : List Certificate)
      → some_found decode parse_certificate certs ≡ true
      → some_found decode parse_certificate (elim found [ none ↦ certs | some cert ↦ cert ∷ certs ])
        ≡ true
  found_behind none certs h = h
  found_behind (some cert) certs h = refl

  rest_holds :
      (P : Certificate → Type 0) (found : Option Certificate) (certs : List Certificate)
      → All P (elim found [ none ↦ certs | some cert ↦ cert ∷ certs ])
      → All P certs
  rest_holds P none certs all = all
  rest_holds P (some cert) certs all = all.1

  hold_behind :
      (c : ℕ) (text : List ℕ) (before : Block) (rest : List ℕ)
      → decode (c ∷ text) ≡ some (before, rest)
      → (cert : Certificate) × HoldsCertificate rest cert
      → (cert : Certificate) × HoldsCertificate (c ∷ text) cert
  hold_behind c text before rest e (cert, h) = (
    cert,
    record {
      block = h.block;
      held = behind before rest e h.held;
      kind = h.kind;
      bare = h.bare;
      parsed = h.parsed;
    },
  )

  -- Where the loop's list is not empty the text holds a certificate.
  listed-Holds :
      (fuel : ℕ) (text : List ℕ)
      → some_found decode parse_certificate (pem_certificates decode parse_certificate fuel text)
        ≡ true
      → (cert : Certificate) × HoldsCertificate text cert
  unfolding pem_certificates
  listed-Holds fuel [] h = absurd (cc)
  listed-Holds zero (c ∷ text) h = absurd (cc)
  listed-Holds (suc fuel) (c ∷ text) h = elim (Option-cases (decode (c ∷ text))) [
    | inl e ↦ let h' = rw (pem_certificates, e) at h in absurd (cc)
    | inr ((block, rest), e) ↦ elim (Option-cases (certificate_of parse_certificate block)) [
      | inl none_of ↦
          let h' = rw (pem_certificates, e, none_of) at h in
          hold_behind c text block rest e (listed-Holds fuel rest h')
      | inr (cert, of) ↦
          let (kind, bare, parsed) = (certificate_of_iff parse_certificate block cert).0 of in
          (
            cert,
            record {
              block = block;
              held = first rest e;
              kind = kind;
              bare = bare;
              parsed = parsed;
            },
          )
    ]
  ]

  module _
      (shorter : (text : List ℕ) (block : Block) (rest : List ℕ)
        → decode text ≡ some (block, rest)
        → length rest < length text) where
    -- A certificate that the text holds is in the list of the loop's, so that the list is not empty and
    -- what holds of all the list has of this one.
    Holds-listed :
        (P : Certificate → Type 0) (fuel : ℕ) (text : List ℕ) (block : Block) (cert : Certificate)
        → Holds text block
        → certificate_of parse_certificate block ≡ some cert
        → length text ≤ fuel
        → All P (pem_certificates decode parse_certificate fuel text)
        → P cert
          × (some_found decode parse_certificate
                (pem_certificates decode parse_certificate fuel text)
              ≡ true)
    unfolding pem_certificates
    Holds-listed P zero _ block cert (first {c = c} {text = text} rest e) of enough all =
        absurd (omega arith)
    Holds-listed P zero _ block cert (behind {c = c} {text = text} before rest e later) of enough
          all =
        absurd (omega arith)
    Holds-listed P (suc fuel) _ block cert (first {c = c} {text = text} rest e) of enough all =
        let all' = rw (pem_certificates, e, of) at all in
        (all'.0, rw (pem_certificates, e, of) refl)
    Holds-listed P (suc fuel) _ block cert (behind {c = c} {text = text} before rest e later) of
          enough all =
        let less : length rest ≤ fuel = omega (arith, shorter (c ∷ text) before rest e) in
        let found = certificate_of parse_certificate before in
        let certs = pem_certificates decode parse_certificate fuel rest in
        let all' = rw (pem_certificates, e) at all in
        let (holds, some_more) =
          Holds-listed P fuel rest block cert later of less (rest_holds P found certs all') in
        (holds, rw (pem_certificates, e) (found_behind found certs some_more))

    -- On a pool whose indices are right, where `pem.Decode` leaves less text than it was given,
    -- `AppendCertsFromPEM` does not panic: it leaves a pool whose indices are right and that contains
    -- every certificate that parses out of a block of the text of the type "CERTIFICATE" without
    -- headers, and it answers true if and only if there is one.
    pub append_certs_from_pem_iff :
        {E : Type 0} (s : CertPool) (text : List ℕ)
        → IsIndexed s
        → (t : CertPool) × (found : Bool) × (append_certs_from_pem decode parse_certificate {E = E}
              s text
            ≡ ok (t, found))
          × IsIndexed t
          × ((cert : Certificate)
              → HoldsCertificate text cert
              → (contains {E = E} (some t) cert ≡ ok true) × (found ≡ true))
          × (found ≡ true → (cert : Certificate) × HoldsCertificate text cert)
    append_certs_from_pem_iff {E} s text h =
        let certs = pem_certificates decode parse_certificate (length text) text in
        let (t, appends, indexed, inside) =
          append_certs_from_pem-contains decode parse_certificate {E = E} s text h in
        (
          t,
          some_found decode parse_certificate certs,
          appends,
          indexed,
          λ cert held.
              Holds-listed (λ c. contains {E = E} (some t) c ≡ ok true) (length text) text
                held.block cert held.held
                ((certificate_of_iff parse_certificate held.block cert).1 held.kind held.bare
                  held.parsed)
                (omega arith) inside,
          listed-Holds (length text) text,
        )
