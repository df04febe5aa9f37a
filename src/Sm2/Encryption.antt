-- ===== src/Sm2/Encryption.antt =====
-- sm2/sm2.go: `kdf`, `Encrypt` and `Decrypt`. A slice is given by its bytes and has no room behind
-- them, so what is sliced beyond its length panics.
use gmsm.Common.{
  ℕ, zero, suc, ◌+◌, ◌-◌, ◌/◌, ◌%◌, ◌^◌, bit_xor, List, [], ◌∷◌, ◌++◌, length, take, drop,
  from_bytes, to_bytes, be_bytes, ltb, ◌==◌, if◌then◌else◌, Bool, true, false, not, ◌&&◌, Option,
  none, some,
}
use gmsm.Common.{Outcome, ok, err, panic, ◌>>=◌}
use gmsm.Sm3.Digest.{Sm3, new, reset, sum, sm3_sum}
use gmsm.Sm2.Curve.{Sm2Error, external, failed_to_decrypt, Point, Curve, rand_field_element}
use gmsm.Sm2.Buffers.{pad_left, contents}
use gmsm.Sm2.Signature.{PrivateKey}
use gmsm.Sm2.Hash.{written}

unfoldable pub int_to_bytes : ℕ → List ℕ
int_to_bytes x = be_bytes (x % 2 ^ 32)

-- The first loop of `kdf`, with the number of rounds that are left.
unfoldable pub kdf_loop : ℕ → ℕ → ℕ → Sm3 → List ℕ → List ℕ → Outcome Sm2Error (List ℕ)
kdf_loop zero len ct h x c = ok c
kdf_loop (suc rounds) len ct h x c =
    sum (written (written (reset h) x) (int_to_bytes ct)) [] >>= λ r.
    kdf_loop rounds len (ct + 1) r.0 x
      (c ++ (if rounds == 0 && not (len % 32 == 0) then take (len % 32) r.1 else r.1))

-- The second loop: whether one of the first bytes is not zero.
unfoldable pub any_set : ℕ → List ℕ → Outcome Sm2Error Bool
any_set zero c = ok false
any_set (suc n) [] = panic
any_set (suc n) (x ∷ c) = if not (x == 0) then ok true else any_set n c

unfoldable pub kdf : List ℕ → List ℕ → ℕ → Outcome Sm2Error (List ℕ × Bool)
kdf x y len = do
  c ← kdf_loop ((len + 31) / 32) len 1 new (x ++ y) []
  set ← any_set len c
  ok (c, set)

-- `for i := 0; i < len(data); i++ { c[i] ^= data[i] }`
unfoldable pub xor_bytes : List ℕ → List ℕ → Outcome Sm2Error (List ℕ)
xor_bytes c [] = ok c
xor_bytes [] (x ∷ mask) = panic
xor_bytes (y ∷ c) (x ∷ mask) = xor_bytes c mask >>= λ rest. ok (bit_xor y x ∷ rest)

-- The four buffers of a point and of the point that is shared with the receiver, padded in turn.
pub record Padded : Type 0 where
  pub store : List ℕ
  pub x1 : List ℕ
  pub y1 : List ℕ
  pub x2 : List ℕ
  pub y2 : List ℕ

unfoldable pub pad_points : List ℕ → Point → Point → Padded
pad_points store p1 p2 =
    let x1_buf = pad_left store (to_bytes p1.x) in
    let y1_buf = pad_left x1_buf.0 (to_bytes p1.y) in
    let x2_buf = pad_left y1_buf.0 (to_bytes p2.x) in
    let y2_buf = pad_left x2_buf.0 (to_bytes p2.y) in
    let final = y2_buf.0 in
    record {
      store = final;
      x1 = contents final x1_buf.1;
      y1 = contents final y1_buf.1;
      x2 = contents final x2_buf.1;
      y2 = contents final y2_buf.1;
    }

-- A round of `Encrypt` behind its draw of `k`; no result where the code goes on with the next one.
unfoldable pub encrypt_round : Padded → List ℕ → Outcome Sm2Error (Option (List ℕ))
encrypt_round p data_bytes = do
  h ← sm3_sum (p.x2 ++ (data_bytes ++ p.y2))
  (ct, good) ← kdf p.x2 p.y2 (length data_bytes)
  let c = p.x1 ++ (p.y1 ++ (h ++ ct))
  let sealed = xor_bytes (drop 96 c) data_bytes >>= λ rest. ok (some (take 96 c ++ rest))
  if not good then ok none else sealed

-- The loop of `Encrypt`: what `zeroByteSlice` holds then, and the result with the random bytes left.
-- Where the fuel is used up nothing is left to read.
unfoldable pub encrypt_loop :
    ℕ → List ℕ → Curve → Point → List ℕ → List ℕ → List ℕ × Outcome Sm2Error (List ℕ × List ℕ)
encrypt_loop zero store c pub_key data_bytes rand = (store, err external)
encrypt_loop (suc fuel) store c pub_key data_bytes rand = elim (rand_field_element c rand) [
  | ok (k, left) ↦
      let p =
        pad_points store (c.scalar_base_mult (to_bytes k)) (c.scalar_mult pub_key (to_bytes k)) in
      elim (encrypt_round p data_bytes) [
        | ok (some out) ↦ (p.store, ok (out, left))
        | ok none ↦ encrypt_loop fuel p.store c pub_key data_bytes left
        | err x ↦ (p.store, err x)
        | panic ↦ (p.store, panic)
      ]
  | err x ↦ (store, err x)
  | panic ↦ (store, panic)
]

unfoldable pub encrypt :
    List ℕ → Curve → Point → List ℕ → List ℕ → List ℕ × Outcome Sm2Error (List ℕ × List ℕ)
encrypt store c pub_key data_bytes rand = encrypt_loop (length rand) store c pub_key data_bytes rand

-- `bytes.Compare(h, d) == 0`
unfoldable pub equal_bytes : List ℕ → List ℕ → Bool
equal_bytes [] [] = true
equal_bytes [] (y ∷ ys) = false
equal_bytes (x ∷ xs) [] = false
equal_bytes (x ∷ xs) (y ∷ ys) = x == y && equal_bytes xs ys

-- `Decrypt` behind its test of the key stream.
unfoldable pub open_stream :
    List ℕ → List ℕ → List ℕ → List ℕ → Outcome Sm2Error (List ℕ × Option Sm2Error)
open_stream x2_buf y2_buf data_bytes stream = do
  c ← xor_bytes stream (drop 96 data_bytes)
  h ← sm3_sum (x2_buf ++ (c ++ y2_buf))
  if equal_bytes h (take 32 (drop 64 data_bytes))
      then ok (c, none)
      else ok (c, some failed_to_decrypt)

-- The part of `Decrypt` behind the padding: the bytes returned and the error beside them.
unfoldable pub open_bytes : List ℕ → List ℕ → List ℕ → Outcome Sm2Error (List ℕ × Option Sm2Error)
open_bytes x2_buf y2_buf data_bytes = do
  (stream, good) ← kdf x2_buf y2_buf (length data_bytes - 96)
  let opened = open_stream x2_buf y2_buf data_bytes stream
  if good then opened else ok ([], some failed_to_decrypt)

unfoldable pub decrypt :
    List ℕ → Curve → PrivateKey → List ℕ → List ℕ × Outcome Sm2Error (List ℕ × Option Sm2Error)
decrypt store c priv data_bytes =
    let x = from_bytes (take 32 data_bytes) in
    let y = from_bytes (take 32 (drop 32 data_bytes)) in
    let p2 = c.scalar_mult (record { x = x; y = y }) (to_bytes priv.d) in
    let x2_buf = pad_left store (to_bytes p2.x) in
    let y2_buf = pad_left x2_buf.0 (to_bytes p2.y) in
    let final = y2_buf.0 in
    if ltb (length data_bytes) 64
    then (store, panic)
    else (final, open_bytes (contents final x2_buf.1) (contents final y2_buf.1) data_bytes)
