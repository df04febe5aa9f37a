-- ===== src/Sm2/Signature.antt =====
-- sm2/sm2.go: `GenerateKey`, `Sign` and `Verify`, and the loop that `Sign` and `Sm2Sign` share in
-- their texts. Randomness is a list of bytes that a call uses from the front; a reader that has run
-- out gives the error of `io.ReadFull`.
use gmsm.Common.{
  ℕ, zero, suc, ◌+◌, ◌*◌, ◌/◌, ◌%◌, List, ◌++◌, length, from_bytes, to_bytes, ltb, leb, ◌==◌,
  if◌then◌else◌, not, Bool, false, ◌||◌, sub_ℕ, scale, euclid_mod,
}
use gmsm.Common.{Outcome, ok, err, ◌>>=◌}
use gmsm.Sm2.Curve.{Sm2Error, external, zero_parameter, Point, Curve, read_full, rand_field_element}

pub record PrivateKey : Type 0 where
  pub public_key : Point
  pub d : ℕ

unfoldable pub generate_key : Curve → List ℕ → Outcome Sm2Error (PrivateKey × List ℕ)
generate_key c r = do
  (k, r') ← rand_field_element c r
  ok (record { public_key = c.scalar_base_mult (to_bytes k); d = k }, r')

pub record Draw : Type 0 where
  pub k : ℕ
  pub r : ℕ
  pub left : List ℕ

-- `r`, the sum of the x coordinate of `k` times the base point and of `e`, modulo `N`.
unfoldable pub drawn_r : Curve → ℕ → ℕ → ℕ
drawn_r c e k = ((c.scalar_base_mult (to_bytes k)).x + e) % c.order

-- The inner loop. Each round uses eight bytes at least, so as many rounds as there are bytes are
-- enough: where the fuel is used up nothing is left to read.
unfoldable pub draw_loop : ℕ → Curve → ℕ → List ℕ → Outcome Sm2Error Draw
draw_loop zero c e bytes = err external
draw_loop (suc fuel) c e bytes = do
  (k, left) ← rand_field_element c bytes
  let r = drawn_r c e k
  let again = draw_loop fuel c e left
  let done = ok (record { k = k; r = r; left = left })
  if not (r == 0) then done else if r + k == c.order then done else again

pub record Signature : Type 0 where
  pub r : ℕ
  pub s : ℕ

module _ (mod_inverse : ℕ → ℕ → ℕ) where
  -- `((k - D * r) * ModInverse(D + 1, N)) mod N`
  unfoldable pub signed_s : Curve → ℕ → ℕ → ℕ → ℕ
  signed_s c d k r = euclid_mod (scale (sub_ℕ k (d * r)) (mod_inverse (d + 1) c.order)) c.order

  -- The outer loop; the same fuel serves.
  unfoldable pub sign_loop : ℕ → Curve → ℕ → ℕ → List ℕ → Outcome Sm2Error (Signature × List ℕ)
  sign_loop zero c d e bytes = err external
  sign_loop (suc fuel) c d e bytes = do
    drawn ← draw_loop (length bytes) c e bytes
    let s = signed_s c d drawn.k drawn.r
    let again = sign_loop fuel c d e drawn.left
    if not (s == 0) then ok (record { r = drawn.r; s = s }, drawn.left) else again

  unfoldable pub sign_number : Curve → ℕ → ℕ → List ℕ → Outcome Sm2Error (Signature × List ℕ)
  sign_number c d e bytes =
      if c.order == 0 then err zero_parameter else sign_loop (length bytes) c d e bytes

  abbrev pub entropy_length : Curve → ℕ
  entropy_length c = let n = (c.bit_size + 7) / 16 in if ltb 32 n then 32 else n

  -- `Sign`. The stream of AES-CTR under the digest of the private key, the entropy and the hash is
  -- `csprng` of those bytes.
  unfoldable pub sign :
      (List ℕ → List ℕ) → Curve → PrivateKey → List ℕ → List ℕ → Outcome Sm2Error Signature
  sign csprng c priv hash rand = do
    (entropy, left) ← read_full (entropy_length c) rand
    (sig, rest) ←
        sign_number c priv.d (from_bytes hash) (csprng (to_bytes priv.d ++ (entropy ++ hash)))
    ok sig

-- The part of `Verify` behind its tests of `r` and `s`.
unfoldable pub check_sum : Curve → Point → ℕ → Signature → Bool
check_sum c pub_key e sig =
    let t = (sig.r + sig.s) % c.order in
    let p1 = c.scalar_base_mult (to_bytes sig.s) in
    let p2 = c.scalar_mult pub_key (to_bytes t) in
    if t == 0 then false else ((c.add p1 p2).x + e) % c.order == sig.r

unfoldable pub verify_number : Curve → Point → ℕ → Signature → Bool
verify_number c pub_key e sig =
    if sig.r == 0 || sig.s == 0
    then false
    else if leb c.order sig.r || leb c.order sig.s
    then false
    else check_sum c pub_key e sig

unfoldable pub verify : Curve → Point → List ℕ → Signature → Bool
verify c pub_key hash sig = verify_number c pub_key (from_bytes hash) sig
