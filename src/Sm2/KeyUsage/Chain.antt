-- ===== src/Sm2/KeyUsage/Chain.antt =====
-- `checkChainForKeyUsage` against what it is for: some requested usage that every certificate of the
-- chain permits.
use gmsm.Common.{
  ℕ, suc, ◌+◌, ◌-◌, ◌≤◌, ◌≡◌, ◌≢◌, refl, sym, ap, ◌∙◌, List, [], ◌∷◌, length, arith, ◌==◌,
  if◌then◌else◌, true, false, ◌||◌, Bool-cases, ==_iff, inl, inr, Option, none, some, map,
}
use mathlib.Core.List.{reverse}
use gmsm.Sm2.Correctness.{nonzero_false}
use gmsm.Sm2.KeyUsage.{
  UsageCertificate, unrestricted, supports, behind, cross_out, walk, check_chain_for_key_usage,
}
use gmsm.Sm2.KeyUsage.Permits.{all_accept, any_accepted, any_permitted, any_accepted-any_permitted}

-- How many usages are left.
unfoldable pub live : List (Option ℕ) → ℕ
live [] = 0
live (none ∷ usages) = live usages
live (some usage ∷ usages) = suc (live usages)

-- The usages with those crossed out that a certificate does not support.
unfoldable keep : List ℕ → List (Option ℕ) → List (Option ℕ)
keep cert [] = []
keep cert (none ∷ usages) = none ∷ keep cert usages
keep cert (some usage ∷ usages) =
    (if supports cert usage then some usage else none) ∷ keep cert usages

live-keep : (cert : List ℕ) (usages : List (Option ℕ)) → live (keep cert usages) ≤ live usages
unfolding live keep
live-keep cert [] = omega arith
live-keep cert (none ∷ usages) = live-keep cert usages
live-keep cert (some usage ∷ usages) = elim (Bool-cases (supports cert usage)) [
  | inl e ↦ rw e (omega (arith, live-keep cert usages))
  | inr e ↦ rw e (omega (arith, live-keep cert usages))
]

one_less : (extra n : ℕ) → extra + suc n - 1 ≡ extra + n
one_less extra n = omega arith

add_suc : (extra n : ℕ) → extra + suc n ≡ suc extra + n
add_suc extra n = omega arith

-- The loop returns early where it crosses the last usage out, `extra` of them being left in front.
cross_out-none :
    (cert : List ℕ) (usages : List (Option ℕ)) (extra : ℕ)
    → extra + live usages ≢ 0
    → extra + live (keep cert usages) ≡ 0
    → cross_out cert usages (extra + live usages) ≡ none
unfolding cross_out live keep behind
cross_out-none cert [] extra h e = absurd (h e)
cross_out-none cert (none ∷ usages) extra h e = rw (cross_out-none cert usages extra h e) refl
cross_out-none cert (some usage ∷ usages) extra h e = elim (Bool-cases (supports cert usage)) [
  | inl yes_e ↦ let e' = rw yes_e at e in absurd (omega (arith, e'))
  | inr no_e ↦
      let e' = rw no_e at e in
      elim (Bool-cases (extra + live usages == 0)) [
        | inl done ↦ rw (no_e, one_less extra (live usages), done) refl
        | inr more ↦
            let rest =
              cross_out-none cert usages extra
                (λ z. let q = (==_iff (extra + live usages) 0).1 z in cc) e' in
            rw (no_e, one_less extra (live usages), more, rest) refl
      ]
]

-- Otherwise it crosses out what the certificate does not support.
cross_out-some :
    (cert : List ℕ) (usages : List (Option ℕ)) (extra : ℕ)
    → extra + live (keep cert usages) ≢ 0
    → cross_out cert usages (extra + live usages)
      ≡ some (keep cert usages, extra + live (keep cert usages))
unfolding cross_out live keep behind
cross_out-some cert [] extra h = refl
cross_out-some cert (none ∷ usages) extra h = rw (cross_out-some cert usages extra h) refl
cross_out-some cert (some usage ∷ usages) extra h = elim (Bool-cases (supports cert usage)) [
  | inl yes_e ↦
      let rest = cross_out-some cert usages (suc extra) (λ z. absurd (omega (arith, z))) in
      rw (yes_e, add_suc extra (live usages), rest, add_suc extra (live (keep cert usages))) refl
  | inr no_e ↦
      let h' : extra + live (keep cert usages) ≢ 0 = rw no_e at h in
      let more : (extra + live usages == 0) ≡ false =
        nonzero_false (extra + live usages) (λ z. h' (omega (arith, z, live-keep cert usages))) in
      rw (no_e, one_less extra (live usages), more, cross_out-some cert usages extra h') refl
]

cross_out_dead :
    (cert : List ℕ) (usages : List (Option ℕ))
    → live usages ≡ 0
    → cross_out cert usages 0 ≡ some (usages, 0)
unfolding cross_out live behind
cross_out_dead cert [] e = refl
cross_out_dead cert (none ∷ usages) e = rw (cross_out_dead cert usages e) refl
cross_out_dead cert (some usage ∷ usages) e = absurd (omega (arith, e))

any_dead :
    (certs : List UsageCertificate) (usages : List (Option ℕ))
    → live usages ≡ 0
    → any_accepted certs usages ≡ false
unfolding any_accepted live
any_dead certs [] e = refl
any_dead certs (none ∷ usages) e = any_dead certs usages e
any_dead certs (some usage ∷ usages) e = absurd (omega (arith, e))

any_end : (usages : List (Option ℕ)) → live usages ≢ 0 → any_accepted [] usages ≡ true
unfolding any_accepted all_accept live
any_end [] h = absurd (h refl)
any_end (none ∷ usages) h = any_end usages h
any_end (some usage ∷ usages) h = refl

any_skip :
    (cert : UsageCertificate) (certs : List UsageCertificate) (usages : List (Option ℕ))
    → unrestricted cert ≡ true
    → any_accepted (cert ∷ certs) usages ≡ any_accepted certs usages
unfolding any_accepted all_accept
any_skip cert certs [] e = refl
any_skip cert certs (none ∷ usages) e = any_skip cert certs usages e
any_skip cert certs (some usage ∷ usages) e = rw (e, any_skip cert certs usages e) refl

any_keep :
    (cert : UsageCertificate) (certs : List UsageCertificate) (usages : List (Option ℕ))
    → unrestricted cert ≡ false
    → any_accepted (cert ∷ certs) usages ≡ any_accepted certs (keep cert.ext_key_usage usages)
unfolding any_accepted all_accept keep
any_keep cert certs [] e = refl
any_keep cert certs (none ∷ usages) e = any_keep cert certs usages e
any_keep cert certs (some usage ∷ usages) e =
    elim (Bool-cases (supports cert.ext_key_usage usage)) [
      | inl yes_e ↦ rw (e, yes_e, any_keep cert certs usages e) refl
      | inr no_e ↦ rw (e, no_e, any_keep cert certs usages e) refl
    ]

walk_dead :
    (certs : List UsageCertificate) (usages : List (Option ℕ))
    → live usages ≡ 0
    → walk certs usages 0 ≡ true
unfolding walk
walk_dead [] usages e = refl
walk_dead (cert ∷ certs) usages e = elim (Bool-cases (unrestricted cert)) [
  | inl free ↦ rw free (walk_dead certs usages e)
  | inr bound ↦ rw (bound, cross_out_dead cert.ext_key_usage usages e) (walk_dead certs usages e)
]

start_none :
    (cert : List ℕ) (usages : List (Option ℕ))
    → live usages ≢ 0
    → live (keep cert usages) ≡ 0
    → cross_out cert usages (live usages) ≡ none
start_none cert usages h e =
    ap (cross_out cert usages) {x = live usages} {y = 0 + live usages} (omega arith)
    ∙ cross_out-none cert usages 0 (λ z. h (omega (arith, z))) (omega (arith, e))

start_some :
    (cert : List ℕ) (usages : List (Option ℕ))
    → live (keep cert usages) ≢ 0
    → cross_out cert usages (live usages) ≡ some (keep cert usages, live (keep cert usages))
start_some cert usages h =
    ap (cross_out cert usages) {x = live usages} {y = 0 + live usages} (omega arith)
    ∙ cross_out-some cert usages 0 (λ z. h (omega (arith, z)))
    ∙ ap (λ (n : ℕ). some (keep cert usages, n)) {y = live (keep cert usages)} (omega arith)

walk-any_accepted :
    (certs : List UsageCertificate) (usages : List (Option ℕ))
    → live usages ≢ 0
    → walk certs usages (live usages) ≡ any_accepted certs usages
unfolding walk
walk-any_accepted [] usages h = sym (any_end usages h)
walk-any_accepted (cert ∷ certs) usages h = elim (Bool-cases (unrestricted cert)) [
  | inl free ↦ rw free (walk-any_accepted certs usages h ∙ sym (any_skip cert certs usages free))
  | inr bound ↦
      let kept = keep cert.ext_key_usage usages in
      let kept_any = any_keep cert certs usages bound in
      elim (Bool-cases (live kept == 0)) [
        | inl gone ↦
            let zero_left = (==_iff (live kept) 0).0 gone in
            rw (bound, start_none cert.ext_key_usage usages h zero_left)
              (sym (kept_any ∙ any_dead certs kept zero_left))
        | inr more ↦
            let some_left : live kept ≢ 0 = λ z. let q = (==_iff (live kept) 0).1 z in cc in
            rw (bound, start_some cert.ext_key_usage usages some_left)
              (walk-any_accepted certs kept some_left ∙ sym kept_any)
      ]
]

live-map : (usages : List ℕ) → live (map (λ u. some u) usages) ≡ length usages
unfolding live
live-map [] = refl
live-map (u ∷ usages) = ap suc (live-map usages)

-- A chain is accepted if it is not empty and either no usage is requested or some requested usage is
-- permitted by every certificate of the chain. A certificate permits a usage if it states no usages,
-- neither known nor unknown ones, if it lists any usage or this one, or if the usage is that of a
-- TLS server and it lists one of the two server gated cryptographies.
pub check_chain_for_key_usage-any_permitted :
    (chain : List UsageCertificate) (usages : List ℕ)
    → check_chain_for_key_usage chain usages ≡ (
        if length chain == 0
        then false
        else (length usages == 0) || any_permitted (reverse chain) usages)
unfolding check_chain_for_key_usage
check_chain_for_key_usage-any_permitted chain usages =
    let slots = map (λ u. some u) usages in
    let size : live slots ≡ length usages = live-map usages in
    elim (Bool-cases (length usages == 0)) [
      | inl none_asked ↦
          let zero_size : length usages ≡ 0 = (==_iff (length usages) 0).0 none_asked in
          rw (none_asked, zero_size, walk_dead (reverse chain) slots (size ∙ zero_size)) refl
      | inr asked ↦
          let some_size : live slots ≢ 0 =
            λ z. let q = (==_iff (length usages) 0).1 (sym size ∙ z) in cc in
          let walked : walk (reverse chain) slots (length usages)
              ≡ any_permitted (reverse chain) usages =
            ap (walk (reverse chain) slots) (sym size)
            ∙ walk-any_accepted (reverse chain) slots some_size
            ∙ any_accepted-any_permitted (reverse chain) usages in
          rw (asked, walked) refl
    ]
