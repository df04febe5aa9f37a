-- ===== src/Sm2/Acceptance.antt =====
-- `Sm2Verify` of sm2/sm2.go accepts what `Sm2Sign` makes.
use gmsm.Common.{
  ℕ, ◌+◌, ◌*◌, ◌%◌, ◌≤◌, ◌<◌, ◌≡◌, ◌≢◌, refl, ap, List, length, arith, to_bytes, leb-false,
  ltb-false, dec_lt, true, Cong,
}
use gmsm.Common.{ok, >>=-eq-ok}
use gmsm.Sm2.Curve.{Point, Curve, AddsUp}
use gmsm.Sm2.Buffers.{pad_left, pad_left_again}
use gmsm.Sm2.Signature.{PrivateKey, Signature, check_sum, verify_number}
use gmsm.Sm2.Hash.{za, msg_hash, sm2_sign, verify_hashed, sm2_verify}
use gmsm.Sm2.Correctness.{verify-sign}
use gmsm.Sm2.Identity.{za_short, za_long}

-- A second `ZA` of the same key and identity answers the same bytes, whatever the array holds.
za_again :
    (store : List ℕ) (p : Point) (uid : List ℕ)
    → length store ≡ 32
    → za (za store p uid).0 p uid ≡ za store p uid
za_again store p uid h = elim (dec_lt (length uid) 8192) [
  | yes short ↦
      let padded = pad_left store (to_bytes p.x) in
      let first = za_short store p uid short in
      rw (first, za_short padded.0 p uid short, pad_left_again store (to_bytes p.x) h) refl
  | no long ↦ let refused = za_long store p uid (omega arith) in ap (λ w. za w.0 p uid) refused
]

-- What `verify_number` has tested where it accepts.
accepted :
    (c : Curve) (p : Point) (e : ℕ) (sig : Signature)
    → verify_number c p e sig ≡ true
    → (1 ≤ sig.r)
      × (1 ≤ sig.s)
      × (sig.r < c.order)
      × (sig.s < c.order)
      × (check_sum c p e sig ≡ true)
unfolding verify_number
accepted c p e sig h = ground arith

-- A signature that `Sm2Sign` makes of a message and an identity `Sm2Verify` accepts under the
-- signer's key, the same message and identity, whatever the array behind `zeroByteSlice` held
-- before, unless the signature's two numbers add up to a multiple of the order. The curve's methods
-- answer by the group law at the scalars that `Sm2Verify` takes from the signature, the public key is the private one times the base point, and `D + 1` has the
-- inverse that `ModInverse` answers.
pub sm2_verify-sm2_sign :
    (mod_inverse : ℕ → ℕ → ℕ) (store : List ℕ) (c : Curve) (priv : PrivateKey)
    (msg uid rand rest : List ℕ) (sig : Signature)
    → length store ≡ 32
    → 1 < c.order
    → Cong c.order ((priv.d + 1) * mod_inverse (priv.d + 1) c.order) 1
    → priv.public_key ≡ c.scalar_base_mult (to_bytes priv.d)
    → (sm2_sign mod_inverse store c priv msg uid rand).1 ≡ ok (sig, rest)
    → (sig.r + sig.s) % c.order ≢ 0
    → AddsUp c priv.d sig.s ((sig.r + sig.s) % c.order)
    → (sm2_verify
        (sm2_sign mod_inverse store c priv msg uid rand).0
        c
        priv.public_key
        msg
        uid
        sig).1
      ≡ ok true
unfolding sm2_sign sm2_verify verify_hashed
sm2_verify-sm2_sign mod_inverse store c priv msg uid rand rest sig size h unit key made apart adds =
    let (z, hashed, e1) = >>=-eq-ok (za store priv.public_key uid).1 _ made in
    let (e, digest, e2) = >>=-eq-ok (msg_hash z msg) _ e1 in
    let good = verify-sign mod_inverse c priv.d e rand rest sig h unit e2 apart adds in
    let (r_low, s_low, r_high, s_high, sum_good) = accepted c priv.public_key e sig (rw key good) in
    rw
      (
        ltb-false sig.r 1 r_low,
        ltb-false sig.s 1 s_low,
        leb-false c.order sig.r r_high,
        leb-false c.order sig.s s_high,
        za_again store priv.public_key uid size,
        hashed,
        digest,
        sum_good,
      )
      refl
