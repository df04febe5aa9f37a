-- ===== src/Sm2/BadDraw.antt =====
-- The signing loop of sm2/sm2.go takes a draw whose `r` and `k` add up to the order, which the
-- standard rejects; its test for that stands behind the break that it should prevent.
use gmsm.Common.{
  ℕ, suc, ◌+◌, ◌*◌, ◌%◌, ◌<◌, ◌≡◌, ◌≢◌, refl, ap, ◌∙◌, List, [], ◌∷◌, length, arith, false, Cong,
}
use gmsm.Common.{ok, err}
use native.Mathlib.Nat.{mod-eq_of_lt}
use gmsm.Sm2.Curve.{Point, Curve, external, rand_field_element, read_full}
use gmsm.Sm2.Signature.{
  Signature, drawn_r, draw_loop, signed_s, sign_loop, sign_number, check_sum, verify_number,
}
use gmsm.Sm2.Congruence.{signed_s-opposite}
use gmsm.Sm2.Correctness.{nonzero_false, rand-range}

pub rand_empty : (c : Curve) → rand_field_element c [] ≡ err external
unfolding rand_field_element read_full
rand_empty c = ground arith

reads_some :
    (c : Curve) (bytes left : List ℕ) (k : ℕ)
    → rand_field_element c bytes ≡ ok (k, left)
    → (n : ℕ) × (length bytes ≡ suc n)
reads_some c [] left k e = let clash : ⊥ = cc (rand_empty c) in absurd clash
reads_some c (b ∷ bytes) left k e = (length bytes, refl)

check_zero :
    (c : Curve) (p : Point) (e : ℕ) (sig : Signature)
    → (sig.r + sig.s) % c.order ≡ 0
    → verify_number c p e sig ≡ false
unfolding verify_number check_sum
check_zero c p e sig h = ground arith

draw_first :
    (c : Curve) (e n k : ℕ) (bytes left : List ℕ)
    → rand_field_element c bytes ≡ ok (k, left)
    → drawn_r c e k ≢ 0
    → draw_loop (suc n) c e bytes ≡ ok (record { k = k; r = drawn_r c e k; left = left })
unfolding draw_loop
draw_first c e n k bytes left drawn h = rw (drawn, nonzero_false (drawn_r c e k) h) refl

sign_first :
    (mod_inverse : ℕ → ℕ → ℕ) (c : Curve) (d e n k r : ℕ) (bytes left : List ℕ)
    → draw_loop (length bytes) c e bytes ≡ ok (record { k = k; r = r; left = left })
    → signed_s mod_inverse c d k r ≢ 0
    → sign_loop mod_inverse (suc n) c d e bytes
      ≡ ok (record { r = r; s = signed_s mod_inverse c d k r }, left)
unfolding sign_loop
sign_first mod_inverse c d e n k r bytes left drawn h =
    rw (drawn, nonzero_false (signed_s mod_inverse c d k r) h) refl

-- If the first number drawn adds up to the order with its `r`, signing returns with it at once, and
-- no public key verifies the signature that comes out. The order is greater than one, and `D + 1`
-- has the inverse that `ModInverse` answers.
pub sign_bad_draw :
    (mod_inverse : ℕ → ℕ → ℕ) (c : Curve) (d e k : ℕ) (bytes left : List ℕ)
    → 1 < c.order
    → Cong c.order ((d + 1) * mod_inverse (d + 1) c.order) 1
    → rand_field_element c bytes ≡ ok (k, left)
    → drawn_r c e k + k ≡ c.order
    → (sig : Signature) × (sign_number mod_inverse c d e bytes ≡ ok (sig, left))
      × ((p : Point) → verify_number c p e sig ≡ false)
unfolding sign_number
sign_bad_draw mod_inverse c d e k bytes left h unit drawn opposite =
    let r = drawn_r c e k in
    let s = signed_s mod_inverse c d k r in
    let (lo, hi) = rand-range c bytes left k h drawn in
    let (n, size) = reads_some c bytes left k drawn in
    let zero_sum = signed_s-opposite mod_inverse c d k r (omega arith) unit opposite in
    let small : r % c.order ≡ r = mod-eq_of_lt (omega arith) in
    let r_positive : r ≢ 0 = λ q. absurd (omega (arith, q)) in
    let s_positive : s ≢ 0 = λ q.
      let alone : (r + s) % c.order ≡ r % c.order =
        ap (λ (t : ℕ). t % c.order) {y = r} (omega (arith, q)) in
      absurd (omega (arith, alone, zero_sum, small)) in
    let first : draw_loop (length bytes) c e bytes ≡ ok (record { k = k; r = r; left = left }) =
      ap (λ (t : ℕ). draw_loop t c e bytes) size
      ∙ draw_first c e n k bytes left drawn (λ q. r_positive q) in
    let made : sign_number mod_inverse c d e bytes ≡ ok (record { r = r; s = s }, left) =
      rw (nonzero_false c.order (omega arith)) (
        ap (λ (t : ℕ). sign_loop mod_inverse t c d e bytes) size
        ∙ sign_first mod_inverse c d e n k r bytes left first s_positive) in
    (record { r = r; s = s }, made, λ p. check_zero c p e _ zero_sum)
