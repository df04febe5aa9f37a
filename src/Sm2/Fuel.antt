-- ===== src/Sm2/Fuel.antt =====
-- The fuel of the two signing loops is enough: each round reads eight bytes at least, so with more
-- fuel than bytes the loops give what they give with as much.
use gmsm.Common.{
  ℕ, zero, suc, ◌+◌, ◌/◌, ◌≤◌, ◌<◌, ◌≡◌, refl, List, [], ◌∷◌, length, drop, length-drop, arith,
  ltb-true, ltb-false, dec_lt, from_bytes, subst, inl, inr,
}
use gmsm.Common.{Outcome, ok, err, panic, ◌>>=◌, >>=-eq-ok}
use gmsm.Sm2.Curve.{Sm2Error, external, Curve, rand_field_element, read_full, field_element}
use gmsm.Sm2.Correctness.{rand-range, round_ends}
use gmsm.Sm2.BadDraw.{rand_empty}
use gmsm.Sm2.Signature.{Draw, drawn_r, draw_loop, sign_loop}

read_shorter :
    (n : ℕ) (bytes b left : List ℕ)
    → 0 < n
    → read_full n bytes ≡ ok (b, left)
    → length left < length bytes
unfolding read_full
read_shorter n bytes b left h e = elim (dec_lt (length bytes) n) [
  | yes short ↦ let clash = rw (ltb-true (length bytes) n short) at e in cc
  | no enough ↦
      let e' = rw (ltb-false (length bytes) n (omega arith)) at e in
      let same : drop n bytes ≡ left = cc in
      subst (λ t. length t < length bytes) same (omega (arith, length-drop n bytes))
]

-- A draw that succeeds uses bytes up.
pub rand_shorter :
    (c : Curve) (bytes left : List ℕ) (k : ℕ)
    → rand_field_element c bytes ≡ ok (k, left)
    → length left < length bytes
unfolding rand_field_element
rand_shorter c bytes left k h =
    let ((b, rest), took, e1) = >>=-eq-ok (read_full (c.bit_size / 8 + 8) bytes) _ h in
    let (v, made, e2) = >>=-eq-ok (field_element c.order (from_bytes b)) _ e1 in
    let same : rest ≡ left = cc in
    subst (λ t. length t < length bytes) same
      (read_shorter (c.bit_size / 8 + 8) bytes b rest (omega arith) took)

-- A computation that does not succeed is not changed by what would follow it.
bind_same :
    {A B : Type 0} (m : Outcome Sm2Error A) (f g : A → Outcome Sm2Error B)
    → ((a : A) → m ≡ ok a → f a ≡ g a)
    → (m >>= f) ≡ (m >>= g)
bind_same (ok a) f g h = h a refl
bind_same (err x) f g h = refl
bind_same panic f g h = refl

-- With as much fuel as there are bytes, and with any more, the inner loop gives the same.
pub draw_loop_enough :
    (m n : ℕ) (c : Curve) (e : ℕ) (bytes : List ℕ)
    → length bytes ≤ m
    → length bytes ≤ n
    → draw_loop m c e bytes ≡ draw_loop n c e bytes
unfolding draw_loop
draw_loop_enough zero zero c e bytes hm hn = refl
draw_loop_enough zero (suc n) c e [] hm hn = rw (rand_empty c) refl
draw_loop_enough (suc m) zero c e [] hm hn = rw (rand_empty c) refl
draw_loop_enough zero (suc n) c e (b ∷ bytes) hm hn = absurd (omega arith)
draw_loop_enough (suc m) zero c e (b ∷ bytes) hm hn = absurd (omega arith)
draw_loop_enough (suc m) (suc n) c e bytes hm hn =
    bind_same (rand_field_element c bytes) _ _ (λ (k, left) drawn.
      let shorter = rand_shorter c bytes left k drawn in
      rw (draw_loop_enough m n c e left (omega arith) (omega arith)) refl)

draw_loop_shorter :
    (fuel : ℕ) (c : Curve) (e : ℕ) (bytes : List ℕ) (drawn : Draw)
    → 1 < c.order
    → draw_loop fuel c e bytes ≡ ok drawn
    → length drawn.left < length bytes
unfolding draw_loop
draw_loop_shorter zero c e bytes drawn h q = cc
draw_loop_shorter (suc fuel) c e bytes drawn h q =
    let ((k, left), took, e1) = >>=-eq-ok (rand_field_element c bytes) _ q in
    let shorter = rand_shorter c bytes left k took in
    let (lo, hi) = rand-range c bytes left k h took in
    elim (round_ends (drawn_r c e k) k c.order _ drawn (draw_loop fuel c e left) hi e1) [
      | inl (nonzero, same) ↦ subst (λ w. length w.left < length bytes) same shorter
      | inr again ↦
          let further = draw_loop_shorter fuel c e left drawn h again in
          omega (arith, further, shorter)
    ]

draw_empty : (fuel : ℕ) (c : Curve) (e : ℕ) → draw_loop fuel c e [] ≡ err external
unfolding draw_loop
draw_empty zero c e = refl
draw_empty (suc fuel) c e = rw (rand_empty c) refl

-- With as much fuel as there are random bytes, and with any more, the signing loop gives the same,
-- for an order greater than one.
pub sign_loop_enough :
    (mod_inverse : ℕ → ℕ → ℕ) (m n : ℕ) (c : Curve) (d e : ℕ) (bytes : List ℕ)
    → 1 < c.order
    → length bytes ≤ m
    → length bytes ≤ n
    → sign_loop mod_inverse m c d e bytes ≡ sign_loop mod_inverse n c d e bytes
unfolding sign_loop
sign_loop_enough mod_inverse zero zero c d e bytes h hm hn = refl
sign_loop_enough mod_inverse zero (suc n) c d e [] h hm hn = rw (draw_empty 0 c e) refl
sign_loop_enough mod_inverse (suc m) zero c d e [] h hm hn = rw (draw_empty 0 c e) refl
sign_loop_enough mod_inverse zero (suc n) c d e (b ∷ bytes) h hm hn = absurd (omega arith)
sign_loop_enough mod_inverse (suc m) zero c d e (b ∷ bytes) h hm hn = absurd (omega arith)
sign_loop_enough mod_inverse (suc m) (suc n) c d e bytes h hm hn =
    bind_same (draw_loop (length bytes) c e bytes) _ _ (λ drawn made.
      let shorter = draw_loop_shorter (length bytes) c e bytes drawn h made in
      rw (sign_loop_enough mod_inverse m n c d e drawn.left h (omega arith) (omega arith)) refl)
