-- ===== src/Sm2/CertPool/Pem/Added.antt =====
-- What `AppendCertsFromPEM` adds to a pool.
use gmsm.Common.{
  ℕ, zero, suc, ◌<◌, ◌≤◌, ◌≡◌, refl, ap, ◌∙◌, List, [], ◌∷◌, length, All, Bool, true, false, ◌&&◌,
  ◌||◌, Option, none, some, Option-cases, Bool-cases, ◌++◌, inl, inr, arith,
}
use gmsm.Common.{Outcome, ok, ◌>>=◌}
use gmsm.Sm2.Encryption.{equal_bytes}
use gmsm.Sm2.CertPool.{Certificate, CertPool, equal, add_cert, add_new, contains}
use gmsm.Sm2.CertPool.Indexed.{IsIndexed, add_new-IsIndexed}
use gmsm.Sm2.CertPool.Members.{member, contains-member, add_again, member-add_new}
use gmsm.Sm2.CertPool.Pem.{Block, certificate_of, append_loop, append_certs_from_pem}

or_kept : (a b c : Bool) → (b ≡ true → c ≡ true) → (a || b) ≡ true → (a || c) ≡ true
or_kept true b c next h = refl
or_kept false b c next h = next h

member-kept :
    (cs : List Certificate) (d c : Certificate)
    → member cs c ≡ true
    → member (cs ++ (d ∷ [])) c ≡ true
unfolding member
member-kept [] d c h = absurd (ground arith)
member-kept (x ∷ cs) d c h =
    or_kept (equal_bytes c.raw_subject x.raw_subject && equal x c) (member cs c)
      (member (cs ++ (d ∷ [])) c) (member-kept cs d c) h

member-add_new_kept :
    (s : CertPool) (d c : Certificate)
    → member s.certs c ≡ true
    → member (add_new s d).certs c ≡ true
unfolding add_new
member-add_new_kept s d c h = member-kept s.certs d c h

-- A call of `AddCert`: the certificate is in the pool then, and those that were in it still are.
record IsAdded (E : Type 0) (s : CertPool) (cert : Certificate) : Type 0 where
  pool : CertPool
  adds : add_cert {E = E} s (some cert) ≡ ok pool
  indexed : IsIndexed pool
  inside : member pool.certs cert ≡ true
  kept : (c : Certificate) → member s.certs c ≡ true → member pool.certs c ≡ true

add_cert_lem : {E : Type 0} (s : CertPool) (cert : Certificate) → IsIndexed s → IsAdded E s cert
unfolding add_cert
add_cert_lem {E} s cert h = elim (Bool-cases (member s.certs cert)) [
  | inl there ↦ record {
    pool = s;
    adds = (add_again {E = E} s cert h there).1;
    indexed = h;
    inside = there;
    kept = λ c m. m;
  }
  | inr missing ↦ record {
    pool = add_new s cert;
    adds = rw (contains-member {E = E} s cert h, missing) refl;
    indexed = add_new-IsIndexed s cert h;
    inside = member-add_new s cert;
    kept = λ c m. member-add_new_kept s cert c m;
  }
]

module _ (decode : List ℕ → Option (Block × List ℕ))
    (parse_certificate : List ℕ → Option Certificate) where
  -- The certificates that the blocks of a text hold, in their order.
  unfoldable pub pem_certificates : ℕ → List ℕ → List Certificate
  pem_certificates fuel [] = []
  pem_certificates zero (c ∷ text) = []
  pem_certificates (suc fuel) (c ∷ text) = elim (decode (c ∷ text)) [
    | none ↦ []
    | some (block, rest) ↦ elim (certificate_of parse_certificate block) [
      | none ↦ pem_certificates fuel rest
      | some cert ↦ cert ∷ pem_certificates fuel rest
    ]
  ]

  abbrev pub some_found : List Certificate → Bool
  some_found [] = false
  some_found (cert ∷ certs) = true

  -- The pool and the answer that the loop leaves.
  record IsAppended (E : Type 0) (fuel : ℕ) (s : CertPool) (text : List ℕ) (found : Bool)
      : Type 0 where
    pool : CertPool
    appends :
        append_loop decode parse_certificate {E = E} fuel s text found
        ≡ ok (pool, found || some_found (pem_certificates fuel text))
    indexed : IsIndexed pool
    inside : All (λ c. member pool.certs c ≡ true) (pem_certificates fuel text)
    kept : (c : Certificate) → member s.certs c ≡ true → member pool.certs c ≡ true

  or_false : (b : Bool) → b ≡ (b || false)
  or_false true = refl
  or_false false = refl

  or_true : (b : Bool) → true ≡ (b || true)
  or_true true = refl
  or_true false = refl

  nothing_found :
      {E : Type 0} (s : CertPool) (found : Bool)
      → Path (Outcome E (CertPool × Bool)) (ok (s, found)) (ok (s, found || false))
  nothing_found s found = ap (λ (b : Bool). ok (s, b)) (or_false found)

  append_loop_lem :
      {E : Type 0} (fuel : ℕ) (s : CertPool) (text : List ℕ) (found : Bool)
      → IsIndexed s
      → IsAppended E fuel s text found
  unfolding append_loop pem_certificates
  append_loop_lem {E} fuel s [] found h = record {
    pool = s;
    appends = nothing_found s found;
    indexed = h;
    inside = tt;
    kept = λ c m. m;
  }
  append_loop_lem {E} zero s (c ∷ text) found h = record {
    pool = s;
    appends = nothing_found s found;
    indexed = h;
    inside = tt;
    kept = λ c m. m;
  }
  append_loop_lem {E} (suc fuel) s (c ∷ text) found h = elim (Option-cases (decode (c ∷ text))) [
    | inl e ↦ record {
      pool = s;
      appends = rw (append_loop, pem_certificates, e) (nothing_found s found);
      indexed = h;
      inside = rw (pem_certificates, e) tt;
      kept = λ c m. m;
    }
    | inr ((block, rest), e) ↦ elim (Option-cases (certificate_of parse_certificate block)) [
      | inl none_of ↦
          let more = append_loop_lem {E = E} fuel s rest found h in
          record {
            pool = more.pool;
            appends = rw (append_loop, pem_certificates, e, none_of) more.appends;
            indexed = more.indexed;
            inside = rw (pem_certificates, e, none_of) more.inside;
            kept = more.kept;
          }
      | inr (cert, some_of) ↦
          let once = add_cert_lem {E = E} s cert h in
          let more = append_loop_lem {E = E} fuel once.pool rest true once.indexed in
          record {
            pool = more.pool;
            appends =
                rw (append_loop, pem_certificates, e, some_of, once.adds)
                  (more.appends ∙ ap (λ (b : Bool). ok (more.pool, b)) (or_true found));
            indexed = more.indexed;
            inside = rw (pem_certificates, e, some_of) (more.kept cert once.inside, more.inside);
            kept = λ c m. more.kept c (once.kept c m);
          }
    ]
  ]

  members_contained :
      (E : Type 0) (t : CertPool) (certs : List Certificate)
      → IsIndexed t
      → All (λ c. member t.certs c ≡ true) certs
      → All (λ c. contains {E = E} (some t) c ≡ ok true) certs
  members_contained E t [] h all = tt
  members_contained E t (c ∷ certs) h (now, later) =
      (contains-member {E = E} t c h ∙ ap ok now, members_contained E t certs h later)

  -- On a pool whose indices are right `AppendCertsFromPEM` does not panic: it leaves a pool whose
  -- indices are right and that contains every certificate of the loop's list, and it answers true
  -- just where the list is not empty.
  pub append_certs_from_pem-contains :
      {E : Type 0} (s : CertPool) (text : List ℕ)
      → IsIndexed s
      → let certs = pem_certificates (length text) text in
        (t : CertPool) × (append_certs_from_pem decode parse_certificate {E = E} s text
          ≡ ok (t, some_found certs))
        × IsIndexed t
        × All (λ c. contains {E = E} (some t) c ≡ ok true) certs
  unfolding append_certs_from_pem
  append_certs_from_pem-contains {E} s text h =
      let done = append_loop_lem {E = E} (length text) s text false h in
      let certs = pem_certificates (length text) text in
      (
        done.pool,
        done.appends,
        done.indexed,
        members_contained E done.pool certs done.indexed done.inside,
      )

  -- The text behind a block is shorter than the text.
  module _
      (shorter : (text : List ℕ) (block : Block) (rest : List ℕ)
        → decode text ≡ some (block, rest)
        → length rest < length text) where
    -- Where `pem.Decode` leaves less text than it was given, the loop of `AppendCertsFromPEM` ends
    -- within as many turns as the text has bytes: more fuel changes nothing.
    pub append_loop_enough :
        {E : Type 0} (fuel more : ℕ) (s : CertPool) (text : List ℕ) (found : Bool)
        → length text ≤ fuel
        → length text ≤ more
        → append_loop decode parse_certificate {E = E} fuel s text found
          ≡ append_loop decode parse_certificate more s text found
    unfolding append_loop
    append_loop_enough {E} fuel more s [] found h g = refl
    append_loop_enough {E} zero more s (c ∷ text) found h g = absurd (omega arith)
    append_loop_enough {E} (suc fuel) zero s (c ∷ text) found h g = absurd (omega arith)
    append_loop_enough {E} (suc fuel) (suc more) s (c ∷ text) found h g =
        elim (Option-cases (decode (c ∷ text))) [
          | inl e ↦ rw (append_loop, e) refl
          | inr ((block, rest), e) ↦
              let less : length rest ≤ length text =
                omega (arith, shorter (c ∷ text) block rest e) in
              elim (Option-cases (certificate_of parse_certificate block)) [
                | inl none_of ↦
                    rw (append_loop, e, none_of)
                      (append_loop_enough {E = E} fuel more s rest found (omega arith)
                        (omega arith))
                | inr (cert, some_of) ↦
                    rw (append_loop, e, some_of)
                      (ap
                        (λ (next : CertPool → Outcome E (CertPool × Bool)).
                          add_cert s (some cert) >>= next)
                        (λ i t.
                          append_loop_enough {E = E} fuel more t rest true (omega arith)
                            (omega arith) i))
              ]
        ]
