-- ===== src/Sm2/CertPool/Parents.antt =====
-- What `findVerifiedParents` returns on a pool whose indices are right.
use gmsm.Common.{
  ℕ, ◌+◌, ◌≤◌, ◌<◌, ◌≡◌, refl, sym, subst, List, [], ◌∷◌, ◌++◌, length, arith, get_elem?, get_or,
  get_elem?-get_or, All, All-append, Bool, true, false, if◌then◌else◌, Bool-cases, Option-cases,
  inl, inr, Option, none, some,
}
use gmsm.Common.{ok}
use gmsm.Sm2.CertPool.Positions.{positions}
use gmsm.Sm2.CertPool.{
  Certificate, CertPool, Found, parents_loop, candidates_of, find_verified_parents,
}
use gmsm.Sm2.CertPool.Indexed.{IsIndexed}

-- A position of the pool whose certificate has signed the given one.
abbrev pub Signs :
    {E : Type 0}
    → (Certificate → Certificate → Option E)
    → List Certificate
    → Certificate
    → ℕ
    → Type 0
Signs check certs cert c = (x : Certificate) × (get_elem? certs c ≡ some x) × (check cert x ≡ none)

InRange : List Certificate → List ℕ → Type 0
InRange certs positions = All (λ c. c < length certs) positions

later :
    {A : Type 0} (test : A → Bool) (start bound : ℕ) (xs : List A)
    → start + length xs ≤ bound
    → All (λ c. c < bound) (positions test start xs)
unfolding positions
later test start bound [] h = tt
later test start bound (x ∷ xs) h =
    let rest = later test (start + 1) bound xs (omega arith) in
    elim (Bool-cases (test x)) [ inl e ↦ rw e (omega arith, rest) | inr e ↦ rw e rest ]

positions-InRange :
    (test : Certificate → Bool) (certs : List Certificate) → InRange certs (positions test 0 certs)
unfolding InRange
positions-InRange test certs = later test 0 (length certs) certs (omega arith)

either-InRange :
    (certs : List Certificate) (test : Bool) (xs ys : List ℕ)
    → InRange certs xs
    → InRange certs ys
    → InRange certs (if test then xs else ys)
either-InRange certs true xs ys hx hy = hx
either-InRange certs false xs ys hx hy = hy

module _ {E : Type 0} (check : Certificate → Certificate → Option E) where
  parents_loop-Signs :
      (certs : List Certificate) (candidates : List ℕ) (cert : Certificate) (start : Found E)
      → InRange certs candidates
      → All (Signs check certs cert) start.parents
      → (found : Found E) × (parents_loop check certs candidates cert start ≡ ok found)
        × All (Signs check certs cert) found.parents
  unfolding parents_loop InRange
  parents_loop-Signs certs [] cert start within good = (start, refl, good)
  parents_loop-Signs certs (c ∷ candidates) cert start (low, within) good =
      let x = get_or certs c cert in
      let there : get_elem? certs c ≡ some x = get_elem?-get_or certs c cert low in
      elim (Option-cases (check cert x)) [
        | inl signs ↦
            let next =
              parents_loop-Signs certs candidates cert
                (record {
                  parents = start.parents ++ (c ∷ []);
                  err_cert = start.err_cert;
                  error = none;
                })
                within
                (All-append (Signs check certs cert) start.parents (c ∷ []) good
                  ((x, there, signs), tt)) in
            (next.0, rw (there, signs) next.1, next.2)
        | inr (e, fails) ↦
            let next =
              parents_loop-Signs certs candidates cert
                (record { parents = start.parents; err_cert = some x; error = some e }) within
                good in
            (next.0, rw (there, fails) next.1, next.2)
      ]

  candidates_of-InRange :
      (s : CertPool) (cert : Certificate)
      → IsIndexed s
      → InRange s.certs (candidates_of check s cert)
  unfolding candidates_of
  candidates_of-InRange s cert h =
      let named =
        subst (InRange s.certs) (sym (h.named cert.raw_issuer)) (positions-InRange _ s.certs) in
      let keyed =
        subst (InRange s.certs) (sym (h.keyed cert.authority_key_id))
          (positions-InRange _ s.certs) in
      let none_found : InRange s.certs [] = unfold InRange in tt in
      either-InRange s.certs _ _ _ named (either-InRange s.certs _ _ _ keyed none_found)

  -- On a pool whose indices are right `findVerifiedParents` does not panic, and each position that
  -- it returns is that of a certificate of the pool which the given one's signature checks against.
  pub find_verified_parents-Signs :
      (s : CertPool) (cert : Certificate)
      → IsIndexed s
      → (found : Found E) × (find_verified_parents check (some s) cert ≡ ok found)
        × All (Signs check s.certs cert) found.parents
  unfolding find_verified_parents
  find_verified_parents-Signs s cert h =
      parents_loop-Signs s.certs (candidates_of check s cert) cert _
        (candidates_of-InRange s cert h) tt
