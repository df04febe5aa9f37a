-- ===== src/Sm2/CertPool/Indexed.antt =====
-- The pool's invariant: its indices hold the positions of the certificates, in order.
use gmsm.Common.{
  ℕ, ◌+◌, ◌≡◌, refl, sym, subst, ap, List, [], ◌∷◌, ◌++◌, length, arith, ltb, Bool, true, false,
  ◌&&◌, if◌then◌else◌, Bool-cases, inl, inr, Option, none, some,
}
use gmsm.Common.{Outcome, ok, >>=-eq-ok}
use mathlib.Core.List.{append-nil}
use gmsm.Sm2.Encryption.{equal_bytes}
use gmsm.Sm2.CertPool.Positions.{positions, positions-append}
use gmsm.Sm2.CertPool.{Certificate, CertPool, new_cert_pool, append_at, contains, add_new, add_cert}

abbrev pub has_name : List ℕ → Certificate → Bool
has_name key c = equal_bytes key c.raw_subject

abbrev pub has_key : List ℕ → Certificate → Bool
has_key key c = ltb 0 (length c.subject_key_id) && equal_bytes key c.subject_key_id

pub record IsIndexed (s : CertPool) : Type 0 where
  pub named : (key : List ℕ) → s.by_name key ≡ positions (has_name key) 0 s.certs
  pub keyed : (key : List ℕ) → s.by_subject_key_id key ≡ positions (has_key key) 0 s.certs

-- The pools that calls of `AddCert` make out of `NewCertPool()`.
pub data Reach : CertPool → Type 0 where
  fresh : Reach new_cert_pool
  added :
      {s t : CertPool} (cert : Option Certificate)
      → Reach s
      → add_cert {E = ⊥} s cert ≡ ok t
      → Reach t

-- A position appended under a test, inside or outside.
append_if :
    (test : Bool) (found : List ℕ) (n : ℕ)
    → (if test then found ++ (n ∷ []) else found) ≡ found ++ (if test then (0 + n) ∷ [] else [])
append_if true found n = ap (λ (k : ℕ). found ++ (k ∷ [])) {y = 0 + n} (omega arith)
append_if false found n = sym (append-nil found)

add_new-keyed :
    (s : CertPool) (cert : Certificate) (key : List ℕ)
    → IsIndexed s
    → (add_new s cert).by_subject_key_id key ≡ positions (has_key key) 0 (s.certs ++ (cert ∷ []))
unfolding add_new append_at
add_new-keyed s cert key h =
    let split = positions-append (has_key key) 0 s.certs cert in
    elim (Bool-cases (ltb 0 (length cert.subject_key_id))) [
      | inl e ↦
          rw (split, e, h.keyed key)
            (append_if (equal_bytes key cert.subject_key_id) (positions (has_key key) 0 s.certs)
              (length s.certs))
      | inr e ↦ rw (split, e, h.keyed key) (sym (append-nil (positions (has_key key) 0 s.certs)))
    ]

add_new-named :
    (s : CertPool) (cert : Certificate) (key : List ℕ)
    → IsIndexed s
    → (add_new s cert).by_name key ≡ positions (has_name key) 0 (s.certs ++ (cert ∷ []))
unfolding add_new append_at
add_new-named s cert key h =
    rw (positions-append (has_name key) 0 s.certs cert, h.named key)
      (append_if (equal_bytes key cert.raw_subject) (positions (has_name key) 0 s.certs)
        (length s.certs))

pub add_new-IsIndexed :
    (s : CertPool) (cert : Certificate) → IsIndexed s → IsIndexed (add_new s cert)
unfolding add_new
add_new-IsIndexed s cert h = record {
  named = λ key. add_new-named s cert key h;
  keyed = λ key. add_new-keyed s cert key h;
}

add_cert-IsIndexed :
    (s t : CertPool) (cert : Option Certificate)
    → IsIndexed s
    → add_cert {E = ⊥} s cert ≡ ok t
    → IsIndexed t
unfolding add_cert
add_cert-IsIndexed s t none h e = cc
add_cert-IsIndexed s t (some cert) h e =
    let (there, found, e1) = >>=-eq-ok (contains (some s) cert) _ e in ends there e1
  where
    ends :
        (there : Bool)
        → ◌≡◌ {A = Outcome ⊥ CertPool} (if there then ok s else ok (add_new s cert)) (ok t)
        → IsIndexed t
    ends true q = let same : s ≡ t = cc in subst IsIndexed same h
    ends false q =
        let same : add_new s cert ≡ t = cc in subst IsIndexed same (add_new-IsIndexed s cert h)

new_cert_pool-IsIndexed : IsIndexed new_cert_pool
unfolding new_cert_pool positions
new_cert_pool-IsIndexed = record { named = λ key. refl; keyed = λ key. refl }

-- Whatever calls of `AddCert` made a pool out of `NewCertPool()`, its two indices hold, at every
-- name and at every key, the positions of the pool's certificates with that subject and with that
-- key, in order and each once; certificates without a key are in the second index nowhere.
pub Reach-IsIndexed : {s : CertPool} → Reach s → IsIndexed s
Reach-IsIndexed fresh = new_cert_pool-IsIndexed
Reach-IsIndexed (added cert r e) = add_cert-IsIndexed _ _ cert (Reach-IsIndexed r) e
