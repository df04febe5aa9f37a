-- ===== src/Sm2/RoundTrip.antt =====
-- `Decrypt` of sm2/sm2.go undoes a round of `Encrypt`.
use gmsm.Common.{
  ℕ, ◌-◌, ◌≤◌, ◌≡◌, refl, sym, ap, subst, ◌∙◌, List, ◌++◌, length, take, take-append_length, drop,
  drop-append_length, length-append, from_bytes, from_bytes-to_bytes, to_bytes, arith, ltb-false,
  if◌then◌else◌, Bool, true, false, Option, none, some,
}
use gmsm.Common.{Outcome, ok}
use mathlib.Core.List.{append_assoc}
use gmsm.Sm3.Spec.{hash}
use gmsm.Sm3.Refinement.{sm3_sum-hash}
use gmsm.Sm2.Curve.{Sm2Error, Point, Curve, Agrees}
use gmsm.Sm2.Buffers.{contents, pad_left_long}
use gmsm.Sm2.Identity.{hash-length}
use gmsm.Sm2.Signature.{PrivateKey}
use gmsm.Sm2.Encryption.{Padded, pad_points, encrypt_round, open_stream, open_bytes, decrypt}
use gmsm.Sm2.KeyStream.{stream, nonzero, kdf-stream, length-stream}
use gmsm.Sm2.Sealed.{
  mask, mask_again, length-mask, xor_bytes-mask, equal_refl, sealed, encrypt_round-sealed,
}

-- Where the key stream is not all zeros the ciphertext of a round opens to the data.
open_bytes-sealed :
    (p : Padded) (data_bytes : List ℕ)
    → length p.x1 ≡ 32
    → length p.y1 ≡ 32
    → nonzero (stream (length data_bytes) (p.x2 ++ p.y2)) ≡ true
    → open_bytes p.x2 p.y2 (sealed p data_bytes) ≡ ok (data_bytes, none)
unfolding open_bytes open_stream sealed
open_bytes-sealed p data_bytes hx hy good =
    let h = hash (p.x2 ++ (data_bytes ++ p.y2)) in
    let front = p.x1 ++ (p.y1 ++ h) in
    let ct = stream (length data_bytes) (p.x2 ++ p.y2) in
    let m = mask ct data_bytes in
    let ct_size : length ct ≡ length data_bytes =
      length-stream (length data_bytes) (p.x2 ++ p.y2) in
    let m_size : length m ≡ length data_bytes = length-mask ct data_bytes ct_size in
    let h_size : length h ≡ 32 = hash-length (p.x2 ++ (data_bytes ++ p.y2)) in
    let front_size : 96 ≡ length front =
      omega (arith, length-append p.x1 (p.y1 ++ h), length-append p.y1 h, h_size) in
    let size : length (front ++ m) - 96 ≡ length data_bytes =
      omega (arith, length-append front m, front_size, m_size) in
    let hash_part : take 32 (drop 64 (front ++ m)) ≡ h =
      ap (λ t. take 32 (drop 64 t))
        (append_assoc p.x1 (p.y1 ++ h) m
          ∙ ap (λ t. p.x1 ++ t) (append_assoc p.y1 h m)
          ∙ sym (append_assoc p.x1 p.y1 (h ++ m)))
      ∙ ap (take 32)
          (drop-append_length 64 (p.x1 ++ p.y1) (h ++ m) (omega (arith, length-append p.x1 p.y1)))
      ∙ take-append_length 32 h m (sym h_size) in
    rw
      (
        size,
        kdf-stream p.x2 p.y2 (length data_bytes),
        good,
        drop-append_length 96 front m front_size,
        xor_bytes-mask ct m (ct_size ∙ sym m_size),
        mask_again ct data_bytes ct_size,
        sm3_sum-hash {E = Sm2Error} (p.x2 ++ (data_bytes ++ p.y2)),
        hash_part,
        equal_refl h,
      )
      refl

-- A key's two points and their coordinates, which take 32 bytes each.
pub record IsFull (p : Point) : Type 0 where
  pub x_size : length (to_bytes p.x) ≡ 32
  pub y_size : length (to_bytes p.y) ≡ 32

abbrev pub point_bytes : List ℕ → Point → Point → Padded
point_bytes store p1 p2 = record {
  store = store;
  x1 = to_bytes p1.x;
  y1 = to_bytes p1.y;
  x2 = to_bytes p2.x;
  y2 = to_bytes p2.y;
}

unpadded :
    (store : List ℕ) (p1 p2 : Point)
    → IsFull p1
    → IsFull p2
    → pad_points store p1 p2 ≡ point_bytes store p1 p2
unfolding pad_points contents
unpadded store p1 p2 f1 f2 = simp (
  pad_left_long store (to_bytes p1.x) (omega (arith, f1.x_size)),
  pad_left_long store (to_bytes p1.y) (omega (arith, f1.y_size)),
  pad_left_long store (to_bytes p2.x) (omega (arith, f2.x_size)),
  pad_left_long store (to_bytes p2.y) (omega (arith, f2.y_size)),
)

-- Where the first point stands in the ciphertext.
sealed_parts :
    (p : Padded) (data_bytes : List ℕ)
    → length p.x1 ≡ 32
    → length p.y1 ≡ 32
    → (take 32 (sealed p data_bytes) ≡ p.x1)
      × (take 32 (drop 32 (sealed p data_bytes)) ≡ p.y1)
      × (64 ≤ length (sealed p data_bytes))
unfolding sealed
sealed_parts p data_bytes hx hy =
    let h = hash (p.x2 ++ (data_bytes ++ p.y2)) in
    let m = mask (stream (length data_bytes) (p.x2 ++ p.y2)) data_bytes in
    let whole : (p.x1 ++ (p.y1 ++ h)) ++ m ≡ p.x1 ++ (p.y1 ++ (h ++ m)) =
      append_assoc p.x1 (p.y1 ++ h) m ∙ ap (λ t. p.x1 ++ t) (append_assoc p.y1 h m) in
    (
      ap (take 32) whole ∙ take-append_length 32 p.x1 _ (sym hx),
      ap (λ t. take 32 (drop 32 t)) whole
          ∙ ap (take 32) (drop-append_length 32 p.x1 (p.y1 ++ (h ++ m)) (sym hx))
          ∙ take-append_length 32 p.y1 (h ++ m) (sym hy),
      omega (
        arith,
        ap length whole,
        length-append p.x1 (p.y1 ++ (h ++ m)),
        length-append p.y1 (h ++ m),
      ),
    )

decrypt-sealed :
    (store0 store : List ℕ) (c : Curve) (priv : PrivateKey) (p1 p2 : Point) (data_bytes : List ℕ)
    → c.scalar_mult p1 (to_bytes priv.d) ≡ p2
    → IsFull p1
    → IsFull p2
    → nonzero (stream (length data_bytes) (to_bytes p2.x ++ to_bytes p2.y)) ≡ true
    → decrypt store c priv (sealed (point_bytes store0 p1 p2) data_bytes)
      ≡ (store, ok (data_bytes, none))
unfolding decrypt contents
decrypt-sealed store0 store c priv p1 p2 data_bytes joint f1 f2 good =
    let p = point_bytes store0 p1 p2 in
    let (first, second, size) = sealed_parts p data_bytes f1.x_size f1.y_size in
    let x_read : from_bytes (take 32 (sealed p data_bytes)) ≡ p1.x =
      ap from_bytes first ∙ from_bytes-to_bytes p1.x in
    let y_read : from_bytes (take 32 (drop 32 (sealed p data_bytes))) ≡ p1.y =
      ap from_bytes second ∙ from_bytes-to_bytes p1.y in
    rw
      (
        ltb-false (length (sealed p data_bytes)) 64 size,
        x_read,
        y_read,
        joint,
        pad_left_long store (to_bytes p2.x) (omega (arith, f2.x_size)),
        pad_left_long store (to_bytes p2.y) (omega (arith, f2.y_size)),
        open_bytes-sealed p data_bytes f1.x_size f1.y_size good,
      )
      refl

round_good :
    (good : Bool) (all out : List ℕ)
    → ◌≡◌ {A = Outcome Sm2Error (Option (List ℕ))}
        (ok (if good then some all else none))
        (ok (some out))
    → (good ≡ true) × (all ≡ out)
round_good true all out h = (refl, cc)
round_good false all out h = absurd (cc)

-- What a round of `Encrypt` makes `Decrypt` opens to the data without an error, whatever the array
-- behind `zeroByteSlice` holds at either call, where the coordinates of the round's two points take
-- 32 bytes each. The curve's methods answer by the group law at the private key and the number drawn,
-- and the public key is the private one times the base point.
pub decrypt-encrypt_round :
    (store0 store : List ℕ) (c : Curve) (priv : PrivateKey) (k : ℕ) (data_bytes out : List ℕ)
    → Agrees c priv.d k
    → priv.public_key ≡ c.scalar_base_mult (to_bytes priv.d)
    → IsFull (c.scalar_base_mult (to_bytes k))
    → IsFull (c.scalar_mult priv.public_key (to_bytes k))
    → encrypt_round
        (pad_points store0
          (c.scalar_base_mult (to_bytes k))
          (c.scalar_mult priv.public_key (to_bytes k)))
        data_bytes
      ≡ ok (some out)
    → decrypt store c priv out ≡ (store, ok (data_bytes, none))
unfolding Agrees
decrypt-encrypt_round store0 store c priv k data_bytes out agrees key f1 f2 made =
    let p1 = c.scalar_base_mult (to_bytes k) in
    let p2 = c.scalar_mult priv.public_key (to_bytes k) in
    let p = point_bytes store0 p1 p2 in
    let good = nonzero (stream (length data_bytes) (to_bytes p2.x ++ to_bytes p2.y)) in
    let run : encrypt_round p data_bytes ≡ ok (some out) =
      subst (λ t. encrypt_round t data_bytes ≡ ok (some out)) (unpadded store0 p1 p2 f1 f2) made in
    let (some_set, same) =
      round_good good (sealed p data_bytes) out
        (sym (encrypt_round-sealed p data_bytes f1.x_size f1.y_size) ∙ run) in
    let joint : c.scalar_mult p1 (to_bytes priv.d) ≡ p2 =
      agrees ∙ ap (λ t. c.scalar_mult t (to_bytes k)) (sym key) in
    subst (λ t. decrypt store c priv t ≡ (store, ok (data_bytes, none))) same
      (decrypt-sealed store0 store c priv p1 p2 data_bytes joint f1 f2 some_set)
