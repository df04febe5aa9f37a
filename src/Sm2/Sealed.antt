-- ===== src/Sm2/Sealed.antt =====
-- A round of `Encrypt` in sm2/sm2.go as a function of the buffers and the data.
use gmsm.Common.{
  ℕ, ◌≡◌, refl, sym, ap, ap₂, ◌∙◌, bit_xor, xor_assoc, xor_self, zero-xor, List, [], ◌∷◌, ◌++◌,
  length, take-append_length, drop-append_length, length-append, arith, ◌==◌, and_true, ==_iff,
  if◌then◌else◌, Bool, true, false, not, Option, none, some,
}
use gmsm.Common.{Outcome, ok}
use mathlib.Core.List.{append_assoc}
use gmsm.Sm3.Spec.{hash}
use gmsm.Sm3.Refinement.{sm3_sum-hash}
use gmsm.Sm2.Curve.{Sm2Error}
use gmsm.Sm2.Identity.{hash-length}
use gmsm.Sm2.Encryption.{xor_bytes, Padded, encrypt_round, equal_bytes}
use gmsm.Sm2.KeyStream.{stream, nonzero, kdf-stream, length-stream}

-- The bytes of two lists, one with the other.
unfoldable pub mask : List ℕ → List ℕ → List ℕ
mask (y ∷ c) (x ∷ m) = bit_xor y x ∷ mask c m
mask _ _ = []

pub xor_bytes-mask : (c m : List ℕ) → length c ≡ length m → xor_bytes c m ≡ ok (mask c m)
unfolding xor_bytes mask
xor_bytes-mask [] [] h = refl
xor_bytes-mask (y ∷ c) [] h = absurd (omega arith)
xor_bytes-mask [] (x ∷ m) h = absurd (omega arith)
xor_bytes-mask (y ∷ c) (x ∷ m) h = rw (xor_bytes-mask c m (omega arith)) refl

pub length-mask : (c m : List ℕ) → length c ≡ length m → length (mask c m) ≡ length m
unfolding mask
length-mask [] [] h = refl
length-mask (y ∷ c) [] h = absurd (omega arith)
length-mask [] (x ∷ m) h = absurd (omega arith)
length-mask (y ∷ c) (x ∷ m) h = omega (arith, length-mask c m (omega arith))

pub mask_again : (c m : List ℕ) → length c ≡ length m → mask c (mask c m) ≡ m
unfolding mask
mask_again [] [] h = refl
mask_again (y ∷ c) [] h = absurd (omega arith)
mask_again [] (x ∷ m) h = absurd (omega arith)
mask_again (y ∷ c) (x ∷ m) h =
    ap₂ (λ (u : ℕ) v. u ∷ v)
      (sym (xor_assoc y y x) ∙ ap (λ (t : ℕ). bit_xor t x) (xor_self y) ∙ zero-xor x)
      (mask_again c m (omega arith))

pub equal_refl : (xs : List ℕ) → equal_bytes xs xs ≡ true
unfolding equal_bytes
equal_refl [] = refl
equal_refl (x ∷ xs) = rw ((==_iff x x).1 refl, equal_refl xs) refl

pub equal_sound : (xs ys : List ℕ) → equal_bytes xs ys ≡ true → xs ≡ ys
unfolding equal_bytes
equal_sound [] [] h = refl
equal_sound [] (y ∷ ys) h = absurd (ground arith)
equal_sound (x ∷ xs) [] h = absurd (ground arith)
equal_sound (x ∷ xs) (y ∷ ys) h =
    let (first, rest) = and_true (x == y) (equal_bytes xs ys) h in
    ap₂ (λ (z : ℕ) (zs : List ℕ). z ∷ zs) ((==_iff x y).0 first) (equal_sound xs ys rest)

-- The ciphertext of a round: the first point, the hash of the data between the coordinates of the
-- shared point, and the data under the key stream of that point.
unfoldable pub sealed : Padded → List ℕ → List ℕ
sealed p data_bytes =
    (p.x1 ++ (p.y1 ++ hash (p.x2 ++ (data_bytes ++ p.y2))))
    ++ mask (stream (length data_bytes) (p.x2 ++ p.y2)) data_bytes

round_result :
    (good : Bool) (out : List ℕ)
    → if◌then◌else◌ {A = Outcome Sm2Error (Option (List ℕ))} (not good) (ok none) (ok (some out))
      ≡ ok (if good then some out else none)
round_result true out = refl
round_result false out = refl

-- A round of `Encrypt` whose first point has buffers of 32 bytes gives the point, the hash of the
-- data between the coordinates of the shared point, and the data under the key stream of that point;
-- where the key stream is all zeros it goes on with the next draw.
pub encrypt_round-sealed :
    (p : Padded) (data_bytes : List ℕ)
    → length p.x1 ≡ 32
    → length p.y1 ≡ 32
    → encrypt_round p data_bytes
      ≡ ok (
          if nonzero (stream (length data_bytes) (p.x2 ++ p.y2))
          then some (sealed p data_bytes)
          else none)
unfolding encrypt_round sealed
encrypt_round-sealed p data_bytes hx hy =
    let h = hash (p.x2 ++ (data_bytes ++ p.y2)) in
    let front = p.x1 ++ (p.y1 ++ h) in
    let ct = stream (length data_bytes) (p.x2 ++ p.y2) in
    let size : 96 ≡ length front = omega (
      arith,
      length-append p.x1 (p.y1 ++ h),
      length-append p.y1 h,
      hash-length (p.x2 ++ (data_bytes ++ p.y2)),
    ) in
    let whole : p.x1 ++ (p.y1 ++ (h ++ ct)) ≡ front ++ ct =
      ap (λ t. p.x1 ++ t) (sym (append_assoc p.y1 h ct)) ∙ sym (append_assoc p.x1 (p.y1 ++ h) ct) in
    rw
      (
        sm3_sum-hash {E = Sm2Error} (p.x2 ++ (data_bytes ++ p.y2)),
        kdf-stream p.x2 p.y2 (length data_bytes),
        whole,
        take-append_length 96 front ct size,
        drop-append_length 96 front ct size,
        xor_bytes-mask ct data_bytes (length-stream (length data_bytes) (p.x2 ++ p.y2)),
      )
      (round_result (nonzero ct) (front ++ mask ct data_bytes))
