-- ===== src/Sm2/Correctness.antt =====
-- What `Sign` makes `Verify` accepts, but for the draws that the signing loop fails to reject.
use gmsm.Common.{
  ℕ, zero, suc, ◌+◌, ◌*◌, ◌/◌, ◌%◌, ◌≤◌, ◌<◌, ◌≡◌, ◌≢◌, refl, sym, ap, subst, ◌∙◌, List, length,
  arith, true, false, not, if◌then◌else◌, ◌⊎◌, ◌==◌, ==_iff, inl, inr, leb-false, Cong, from_bytes,
  to_bytes, euclid_mod-lt,
}
use gmsm.Common.{Outcome, ok, >>=-eq-ok}
use native.Mathlib.Nat.{mod-lt, mod-eq_of_lt}
use gmsm.Sm2.Curve.{Sm2Error, Curve, AddsUp, read_full, field_element, rand_field_element}
use gmsm.Sm2.Signature.{
  Draw, Signature, drawn_r, draw_loop, signed_s, sign_loop, sign_number, check_sum, verify_number,
}
use gmsm.Sm2.Congruence.{signed_s-Cong}

field_element-range : (n v k : ℕ) → 1 < n → field_element n v ≡ ok k → (1 ≤ k) × (k < n)
unfolding field_element
field_element-range n v k h e = ground arith

pub rand-range :
    (c : Curve) (bytes left : List ℕ) (k : ℕ)
    → 1 < c.order
    → rand_field_element c bytes ≡ ok (k, left)
    → (1 ≤ k) × (k < c.order)
unfolding rand_field_element
rand-range c bytes left k h e =
    let ((b, rest), _, e1) = >>=-eq-ok (read_full (c.bit_size / 8 + 8) bytes) _ e in
    let (v, made, e2) = >>=-eq-ok (field_element c.order (from_bytes b)) _ e1 in
    let same : v ≡ k = cc in
    subst (λ (t : ℕ). (1 ≤ t) × (t < c.order)) same
      (field_element-range c.order (from_bytes b) v h made)

-- What a draw that is taken fulfils.
pub record IsDraw (c : Curve) (e : ℕ) (k r : ℕ) : Type 0 where
  pub positive : 1 ≤ k
  pub below : k < c.order
  pub formed : r ≡ drawn_r c e k
  pub r_positive : r ≢ 0

-- The end of a round: the draw is taken, or the loop goes on.
pub round_ends :
    (r k n : ℕ) (done drawn : Draw) (again : Outcome Sm2Error Draw)
    → k < n
    → (if not (r == 0) then ok done else if r + k == n then ok done else again) ≡ ok drawn
    → ((r ≢ 0) × (done ≡ drawn)) ⊎ (again ≡ ok drawn)
round_ends zero k n done drawn again h q =
    let differ : (0 + k == n) ≡ false = ground arith in inr (rw differ at q)
round_ends (suc r) k n done drawn again h q =
    let taken : (suc r == 0) ≡ false = ground arith in
    let q' = rw taken at q in inl (λ e. absurd (omega arith), cc)

draw_loop-IsDraw :
    (fuel : ℕ) (c : Curve) (e : ℕ) (bytes : List ℕ) (drawn : Draw)
    → 1 < c.order
    → draw_loop fuel c e bytes ≡ ok drawn
    → IsDraw c e drawn.k drawn.r
unfolding draw_loop
draw_loop-IsDraw zero c e bytes drawn h q = cc
draw_loop-IsDraw (suc fuel) c e bytes drawn h q =
    let ((k, left), made, e1) = >>=-eq-ok (rand_field_element c bytes) _ q in
    let (lo, hi) = rand-range c bytes left k h made in
    elim (round_ends (drawn_r c e k) k c.order _ drawn (draw_loop fuel c e left) hi e1) [
      | inl (nonzero, same) ↦
          subst (λ w. IsDraw c e w.k w.r) same
            (record { positive = lo; below = hi; formed = refl; r_positive = nonzero })
      | inr again ↦ draw_loop-IsDraw fuel c e left drawn h again
    ]

-- What the signing loop returns: a draw, and the `s` that belongs to it, which is not zero.
pub record IsSigned (mod_inverse : ℕ → ℕ → ℕ) (c : Curve) (d e k : ℕ) (sig : Signature)
    : Type 0 where
  pub drawn : IsDraw c e k sig.r
  pub solved : sig.s ≡ signed_s mod_inverse c d k sig.r
  pub s_positive : sig.s ≢ 0

module _ (mod_inverse : ℕ → ℕ → ℕ) (c : Curve) (d e : ℕ) (h : 1 < c.order) where
  sign_ends :
      (s : ℕ) (left rest : List ℕ) (done sig : Signature)
      (again : Outcome Sm2Error (Signature × List ℕ))
      → (if not (s == 0) then ok (done, left) else again) ≡ ok (sig, rest)
      → ((s ≢ 0) × (done ≡ sig)) ⊎ (again ≡ ok (sig, rest))
  sign_ends zero left rest done sig again q = inr q
  sign_ends (suc s) left rest done sig again q =
      let taken : (suc s == 0) ≡ false = ground arith in
      let q' = rw taken at q in inl (λ p. absurd (omega arith), cc)

  -- A signature that the signing loop returns belongs to a draw `k` from 1 to the order less one:
  -- its `r` is the one of `k` and not zero, its `s` is the one of `k` and `r` and not zero. The
  -- order is greater than one.
  pub sign_loop-IsSigned :
      (fuel : ℕ) (bytes rest : List ℕ) (sig : Signature)
      → sign_loop mod_inverse fuel c d e bytes ≡ ok (sig, rest)
      → (k : ℕ) × IsSigned mod_inverse c d e k sig
  unfolding sign_loop
  sign_loop-IsSigned zero bytes rest sig q = cc
  sign_loop-IsSigned (suc fuel) bytes rest sig q =
      let (drawn, made, e1) = >>=-eq-ok (draw_loop (length bytes) c e bytes) _ q in
      let s = signed_s mod_inverse c d drawn.k drawn.r in
      let good = draw_loop-IsDraw (length bytes) c e bytes drawn h made in
      elim (sign_ends s drawn.left rest _ sig (sign_loop mod_inverse fuel c d e drawn.left) e1) [
        | inl (nonzero, same) ↦ (
          drawn.k,
          subst (λ w. IsSigned mod_inverse c d e drawn.k w) same
              (record { drawn = good; solved = refl; s_positive = nonzero }),
        )
        | inr again ↦ sign_loop-IsSigned fuel drawn.left rest sig again
      ]

-- Where the methods answer by the group law, the point that `Verify` adds up for a signature of `k`
-- is `k` times the base point.
point_sum :
    (mod_inverse : ℕ → ℕ → ℕ) (c : Curve) (d k : ℕ) (sig : Signature)
    → AddsUp c d sig.s ((sig.r + sig.s) % c.order)
    → k < c.order
    → Cong c.order ((d + 1) * mod_inverse (d + 1) c.order) 1
    → sig.s ≡ signed_s mod_inverse c d k sig.r
    → c.add
        (c.scalar_base_mult (to_bytes sig.s))
        (c.scalar_mult (c.scalar_base_mult (to_bytes d)) (to_bytes ((sig.r + sig.s) % c.order)))
      ≡ c.scalar_base_mult (to_bytes k)
unfolding AddsUp
point_sum mod_inverse c d k sig adds low unit solved =
    let same : Cong c.order (sig.s + (sig.r + sig.s) % c.order * d) k =
      subst (λ (s : ℕ). Cong c.order (s + (sig.r + s) % c.order * d) k) (sym solved)
        (signed_s-Cong mod_inverse c d k sig.r (omega arith) unit) in
    adds ∙ ap (λ (n : ℕ). c.scalar_base_mult (to_bytes n)) (same ∙ mod-eq_of_lt low)

pub signed_s-lt :
    (mod_inverse : ℕ → ℕ → ℕ) (c : Curve) (d k r : ℕ)
    → 0 < c.order
    → signed_s mod_inverse c d k r < c.order
unfolding signed_s
signed_s-lt mod_inverse c d k r h = euclid_mod-lt _ c.order h

pub nonzero_false : (n : ℕ) → n ≢ 0 → (n == 0) ≡ false
nonzero_false n h = ground arith

-- A signature that the signing loop returns passes `Verify` with the signer's public key, whatever
-- the hash and the random bytes, unless its two numbers add up to a multiple of the order. The
-- curve's methods answer by the group law at the scalars that `Verify` takes from the signature, and
-- `D + 1` has the inverse that `ModInverse` answers.
pub verify-sign :
    (mod_inverse : ℕ → ℕ → ℕ) (c : Curve) (d e : ℕ) (bytes rest : List ℕ) (sig : Signature)
    → 1 < c.order
    → Cong c.order ((d + 1) * mod_inverse (d + 1) c.order) 1
    → sign_number mod_inverse c d e bytes ≡ ok (sig, rest)
    → (sig.r + sig.s) % c.order ≢ 0
    → AddsUp c d sig.s ((sig.r + sig.s) % c.order)
    → verify_number c (c.scalar_base_mult (to_bytes d)) e sig ≡ true
unfolding sign_number verify_number check_sum drawn_r
verify-sign mod_inverse c d e bytes rest sig h unit q apart adds =
    let ordered : (c.order == 0) ≡ false = ground arith in
    let (k, signed) =
      sign_loop-IsSigned mod_inverse c d e h (length bytes) bytes rest sig (rw ordered at q) in
    let r_below : sig.r < c.order = rw signed.drawn.formed (mod-lt _ (omega arith)) in
    let s_below : sig.s < c.order =
      rw signed.solved (signed_s-lt mod_inverse c d k sig.r (omega arith)) in
    rw
      (
        nonzero_false sig.r signed.drawn.r_positive,
        nonzero_false sig.s signed.s_positive,
        leb-false c.order sig.r r_below,
        leb-false c.order sig.s s_below,
        nonzero_false ((sig.r + sig.s) % c.order) apart,
        point_sum mod_inverse c d k sig adds signed.drawn.below unit signed.solved,
      )
      ((==_iff (drawn_r c e k) sig.r).1 (sym signed.drawn.formed))
