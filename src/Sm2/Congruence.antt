-- ===== src/Sm2/Congruence.antt =====
-- The arithmetic of a signature: what `Verify` multiplies the base point by is the number that
-- `Sign` drew.
use gmsm.Common.{
  ℕ, ◌+◌, ◌*◌, ◌%◌, ◌<◌, ◌≡◌, refl, sym, ap, ◌∙◌, arith, Cong, Cong-mod, Cong-add, Cong-mul_right,
  Cong-mul_left, euclid_mod-scale,
}
use native.Mathlib.Nat.{mod_self, mod-eq_of_lt}
use gmsm.Sm2.Curve.{Curve}
use gmsm.Sm2.Signature.{signed_s}

-- With `inv` the inverse of `d + 1`, the sum `s * (d + 1) + r * d` is `k`.
unscaled :
    (n d inv k r s : ℕ)
    → Cong n ((d + 1) * inv) 1
    → Cong n (s + d * r * inv) (k * inv)
    → Cong n (s * (d + 1) + d * r) k
unscaled n d inv k r s unit e =
    let one_way : Cong n (d * r * ((d + 1) * inv)) (d * r * 1) =
      Cong-mul_left n ((d + 1) * inv) 1 (d * r) unit in
    let other : Cong n (k * ((d + 1) * inv)) (k * 1) = Cong-mul_left n ((d + 1) * inv) 1 k unit in
    ap (λ (t : ℕ). t % n) {y = s * (d + 1) + d * r * 1} (omega arith)
    ∙ Cong-add n (s * (d + 1)) (s * (d + 1)) (d * r * 1) (d * r * ((d + 1) * inv)) refl
        (sym one_way)
    ∙ ap (λ (t : ℕ). t % n) {y = (s + d * r * inv) * (d + 1)} (omega arith)
    ∙ Cong-mul_right n (s + d * r * inv) (k * inv) (d + 1) e
    ∙ ap (λ (t : ℕ). t % n) {y = k * ((d + 1) * inv)} (omega arith)
    ∙ other
    ∙ ap (λ (t : ℕ). t % n) {y = k} (omega arith)

pub signed_s-Cong :
    (mod_inverse : ℕ → ℕ → ℕ) (c : Curve) (d k r : ℕ)
    → 0 < c.order
    → Cong c.order ((d + 1) * mod_inverse (d + 1) c.order) 1
    → let s = signed_s mod_inverse c d k r in Cong c.order (s + (r + s) % c.order * d) k
unfolding signed_s
signed_s-Cong mod_inverse c d k r h unit =
    let n = c.order in
    let inv = mod_inverse (d + 1) n in
    let s = signed_s mod_inverse c d k r in
    Cong-add n s s ((r + s) % n * d) ((r + s) * d) refl
      (Cong-mul_right n ((r + s) % n) (r + s) d (Cong-mod n (r + s)))
    ∙ ap (λ (t : ℕ). t % n) {y = s * (d + 1) + d * r} (omega arith)
    ∙ unscaled n d inv k r s unit (euclid_mod-scale k (d * r) inv n h)

-- A draw with `r + k = N` makes an `s` that adds up to zero with `r`.
pub signed_s-opposite :
    (mod_inverse : ℕ → ℕ → ℕ) (c : Curve) (d k r : ℕ)
    → 0 < c.order
    → Cong c.order ((d + 1) * mod_inverse (d + 1) c.order) 1
    → r + k ≡ c.order
    → (r + signed_s mod_inverse c d k r) % c.order ≡ 0
unfolding signed_s
signed_s-opposite mod_inverse c d k r h unit opposite =
    let n = c.order in
    let inv = mod_inverse (d + 1) n in
    let s = signed_s mod_inverse c d k r in
    let scaled : Cong n (s * (d + 1) + d * r) k =
      unscaled n d inv k r s unit (euclid_mod-scale k (d * r) inv n h) in
    let vanishes : Cong n ((s + r) * (d + 1)) 0 =
      ap (λ (t : ℕ). t % n) {y = s * (d + 1) + d * r + r} (omega arith)
      ∙ Cong-add n (s * (d + 1) + d * r) k r r scaled refl
      ∙ ap (λ (t : ℕ). t % n) {y = n} (omega arith)
      ∙ mod_self n
      ∙ sym (mod-eq_of_lt h) in
    ap (λ (t : ℕ). t % n) {y = (s + r) * 1} (omega arith)
    ∙ sym (Cong-mul_left n ((d + 1) * inv) 1 (s + r) unit)
    ∙ ap (λ (t : ℕ). t % n) {y = (s + r) * (d + 1) * inv} (omega arith)
    ∙ Cong-mul_right n ((s + r) * (d + 1)) 0 inv vanishes
    ∙ ap (λ (t : ℕ). t % n) {y = 0} (omega arith)
    ∙ mod-eq_of_lt h
