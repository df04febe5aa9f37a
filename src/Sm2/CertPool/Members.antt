-- ===== src/Sm2/CertPool/Members.antt =====
-- What `contains` answers on a pool whose indices are right, and adding a certificate twice.
use gmsm.Common.{
  ℕ, ◌+◌, ◌≡◌, refl, subst, ap, ◌∙◌, List, [], ◌∷◌, ◌++◌, length, length-append, arith, get_elem?,
  Bool, true, false, ◌&&◌, ◌||◌, Bool-cases, inl, inr, some,
}
use gmsm.Common.{ok}
use mathlib.Core.List.{append_assoc}
use gmsm.Sm2.Encryption.{equal_bytes}
use gmsm.Sm2.Sealed.{equal_refl}
use gmsm.Sm2.CertPool.Positions.{positions}
use gmsm.Sm2.CertPool.{Certificate, CertPool, equal, contains_loop, contains, add_new, add_cert}
use gmsm.Sm2.CertPool.Indexed.{IsIndexed, has_name, add_new-IsIndexed}

-- Whether a certificate of the list has the same subject and the same bytes.
unfoldable pub member : List Certificate → Certificate → Bool
member [] cert = false
member (c ∷ cs) cert =
    (equal_bytes cert.raw_subject c.raw_subject && equal c cert) || member cs cert

-- A certificate behind a prefix of the list.
get_behind :
    (front : List Certificate) (c : Certificate) (cs : List Certificate)
    → get_elem? (front ++ (c ∷ cs)) (length front) ≡ some c
get_behind [] c cs = refl
get_behind (x ∷ front) c cs = get_behind front c cs

contains_loop-member :
    {E : Type 0} (front cs : List Certificate) (cert : Certificate) (n : ℕ)
    → n ≡ length front
    → contains_loop {E = E} (front ++ cs) (positions (has_name cert.raw_subject) n cs) cert
      ≡ ok (member cs cert)
unfolding contains_loop positions member
contains_loop-member {E} front [] cert n h = refl
contains_loop-member {E} front (c ∷ cs) cert n h =
    let next =
      contains_loop-member {E = E} (front ++ (c ∷ [])) cs cert (n + 1)
        (omega (arith, length-append front (c ∷ []))) in
    let rest =
      subst
        (λ t.
          contains_loop {E = E} t (positions (has_name cert.raw_subject) (n + 1) cs) cert
          ≡ ok (member cs cert))
        (append_assoc front (c ∷ []) cs) next in
    let there : get_elem? (front ++ (c ∷ cs)) n ≡ some c =
      ap (get_elem? (front ++ (c ∷ cs))) h ∙ get_behind front c cs in
    elim (Bool-cases (equal_bytes cert.raw_subject c.raw_subject)) [
      | inl named ↦ elim (Bool-cases (equal c cert)) [
        | inl same ↦ rw (named, there, same) refl
        | inr other ↦ rw (named, there, other) rest
      ]
      | inr differ ↦ rw differ rest
    ]

-- On a pool whose indices are right `contains` does not panic, and answers whether a certificate of
-- the pool has the subject and the bytes of the one asked for.
pub contains-member :
    {E : Type 0} (s : CertPool) (cert : Certificate)
    → IsIndexed s
    → contains {E = E} (some s) cert ≡ ok (member s.certs cert)
unfolding contains
contains-member s cert h =
    rw (h.named cert.raw_subject) (contains_loop-member [] s.certs cert 0 refl)

or-true : (b : Bool) → (b || true) ≡ true
or-true true = refl
or-true false = refl

member-append :
    (cs : List Certificate) (cert : Certificate) → member (cs ++ (cert ∷ [])) cert ≡ true
unfolding member equal
member-append [] cert = rw (equal_refl cert.raw_subject, equal_refl cert.raw) refl
member-append (c ∷ cs) cert =
    rw (member-append cs cert)
      (or-true (equal_bytes cert.raw_subject c.raw_subject && equal c cert))

pub add_again :
    {E : Type 0} (s : CertPool) (cert : Certificate)
    → IsIndexed s
    → member s.certs cert ≡ true
    → (contains {E = E} (some s) cert ≡ ok true) × (add_cert {E = E} s (some cert) ≡ ok s)
unfolding add_cert
add_again {E} s cert h inside =
    let found : contains {E = E} (some s) cert ≡ ok true =
      contains-member s cert h ∙ ap ok inside in
    (found, rw found refl)

pub member-add_new : (s : CertPool) (cert : Certificate) → member (add_new s cert).certs cert ≡ true
unfolding add_new
member-add_new s cert = member-append s.certs cert

-- On a pool whose indices are right `AddCert` does not panic; afterwards the pool contains the
-- certificate, its indices are right, and adding the certificate once more changes nothing.
pub add_cert_twice :
    {E : Type 0} (s : CertPool) (cert : Certificate)
    → IsIndexed s
    → (t : CertPool) × (add_cert {E = E} s (some cert) ≡ ok t)
      × IsIndexed t
      × (contains {E = E} (some t) cert ≡ ok true)
      × (add_cert {E = E} t (some cert) ≡ ok t)
unfolding add_cert
add_cert_twice {E} s cert h = elim (Bool-cases (member s.certs cert)) [
  | inl inside ↦ let (found, kept) = add_again {E = E} s cert h inside in (s, kept, h, found, kept)
  | inr outside ↦
      let t = add_new s cert in
      let ht = add_new-IsIndexed s cert h in
      let (found, kept) = add_again {E = E} t cert ht (member-add_new s cert) in
      (t, rw (contains-member {E = E} s cert h, outside) refl, ht, found, kept)
]
