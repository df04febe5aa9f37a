-- ===== src/Sm2/Identity.antt =====
-- What `ZA` and `msgHash` of sm2/sm2.go hash.
use gmsm.Common.{
  ℕ, ◌-◌, ◌*◌, ◌/◌, ◌%◌, ◌^◌, ◌≤◌, ◌<◌, ◌≡◌, refl, ap, bit_and, List, [], ◌∷◌, ◌++◌, length,
  take_all, arith, from_bytes, to_bytes, leb-false, leb-true, dec_lt, ◌⊎◌, inl, inr,
  length-to_bytes, replicate, take-replicate, and_mask,
}
use gmsm.Common.{ok, err}
use mathlib.Core.List.{append_assoc, append-nil}
use gmsm.Sm3.Digest.{new, zero_value}
use gmsm.Sm3.Spec.{taken, hash}
use gmsm.Sm3.Refinement.{reset-taken, write-taken, sum-taken}
use gmsm.Sm3.Invariant.{digest_bytes_shape}
use gmsm.Sm2.Curve.{uid_too_large, Point}
use gmsm.Sm2.Buffers.{pad_left, contents, zero_byte_slice, pad_left_short, pad_left_long}
use gmsm.Sm2.Hash.{a, b, gx, gy, written, entla, za_prefix, sum32, za, msg_hash}

pub written-taken : (msg p : List ℕ) → written (taken msg) p ≡ taken (msg ++ p)
written-taken msg p = ap (λ w. w.0) (write-taken msg p)

pub hash-length : (msg : List ℕ) → length (hash msg) ≡ 32
unfolding hash
hash-length msg = (digest_bytes_shape _).0

sum32-taken : (msg : List ℕ) → sum32 (taken msg) ≡ ok (hash msg)
sum32-taken msg =
    rw (sum-taken msg [], append-nil msg, take_all 32 (hash msg) (omega (arith, hash-length msg)))
      refl

pub new-taken : new ≡ taken []
unfolding new
new-taken = reset-taken zero_value

-- `msgHash` is the hash of the two parts together, read as a number.
pub msg_hash-hash : (z msg : List ℕ) → msg_hash z msg ≡ ok (from_bytes (hash (z ++ msg)))
unfolding msg_hash
msg_hash-hash z msg =
    rw (new-taken, written-taken [] z, written-taken z msg, sum32-taken (z ++ msg)) refl

-- The message of `ZA`: the length of the identity in bits as two bytes, the identity, the curve's
-- parameters and the key's coordinates, the first in the given bytes.
unfoldable pub za_message : List ℕ → Point → List ℕ → List ℕ
za_message uid pub_key x_bytes =
    (8 * length uid / 2 ^ 8) ∷ (8 * length uid % 2 ^ 8) ∷ uid
    ++ (to_bytes a
        ++ (to_bytes b ++ (to_bytes gx ++ (to_bytes gy ++ (x_bytes ++ to_bytes pub_key.y)))))

length_bytes_of :
    (uid : List ℕ)
    → length uid < 8192
    → (bit_and (entla uid / 2 ^ 8) 0xff % 2 ^ 8 ≡ 8 * length uid / 2 ^ 8)
      × (bit_and (entla uid) 0xff % 2 ^ 8 ≡ 8 * length uid % 2 ^ 8)
length_bytes_of uid h =
    (omega (arith, and_mask 8 (entla uid / 2 ^ 8)), omega (arith, and_mask 8 (entla uid)))

za_prefix-taken :
    (uid : List ℕ)
    → length uid < 8192
    → (rest : List ℕ)
    → written (za_prefix uid) rest
      ≡ taken (
          (8 * length uid / 2 ^ 8) ∷ (8 * length uid % 2 ^ 8) ∷ uid
          ++ (to_bytes a ++ (to_bytes b ++ (to_bytes gx ++ (to_bytes gy ++ rest)))))
za_prefix-taken uid h rest =
    let (high, low) = length_bytes_of uid h in
    simp (new-taken, high, low, written-taken, append_assoc)

pub za_short :
    (store : List ℕ) (p : Point) (uid : List ℕ)
    → length uid < 8192
    → za store p uid ≡ (
      (pad_left store (to_bytes p.x)).0,
      ok (
          hash (
            za_message uid p
              (contents (pad_left store (to_bytes p.x)).0 (pad_left store (to_bytes p.x)).1))),
    )
unfolding za za_message
za_short store p uid h =
    simp (
      leb-false 8192 (length uid) h,
      za_prefix-taken uid h,
      written-taken,
      append_assoc,
      sum32-taken,
    )

pub za_long :
    (store : List ℕ) (p : Point) (uid : List ℕ)
    → 8192 ≤ length uid
    → za store p uid ≡ (store, err uid_too_large)
unfolding za
za_long store p uid h = rw (leb-true 8192 (length uid) h) refl

-- Either the identity has less than 8192 bytes, and `ZA` is the hash of its message, with the key's
-- first coordinate in the bytes that padding makes of it, and leaves the array as padding leaves
-- it; or the identity is refused, and the array is left alone.
pub za-hash :
    (store : List ℕ) (p : Point) (uid : List ℕ)
    → ((length uid < 8192)
        × (za store p uid ≡ (
          (pad_left store (to_bytes p.x)).0,
          ok (
              hash (
                za_message uid p
                  (contents (pad_left store (to_bytes p.x)).0 (pad_left store (to_bytes p.x)).1))),
        )))
      ⊎ ((8192 ≤ length uid) × (za store p uid ≡ (store, err uid_too_large)))
za-hash store p uid = elim (dec_lt (length uid) 8192) [
  | yes short ↦ inl (short, za_short store p uid short)
  | no long ↦ inr (omega arith, za_long store p uid (omega arith))
]

-- A coordinate in 32 bytes.
unfoldable pub field_bytes : ℕ → List ℕ
field_bytes v = replicate (32 - length (to_bytes v)) 0 ++ to_bytes v

pub pad_zeros :
    (buf : List ℕ)
    → length buf ≤ 32
    → contents (pad_left zero_byte_slice buf).0 (pad_left zero_byte_slice buf).1
      ≡ replicate (32 - length buf) 0 ++ buf
unfolding contents
pad_zeros buf h = elim (dec_lt (length buf) 32) [
  | yes short ↦
      rw
        (
          pad_left_short zero_byte_slice buf short,
          take-replicate {A = ℕ} (32 - length buf) 32 0 (omega arith),
        )
        refl
  | no long ↦
      let none_short : 32 - length buf ≡ 0 = omega (arith, long) in
      rw (pad_left_long zero_byte_slice buf (omega arith), none_short) refl
]

-- The first `ZA` of a process hashes what the standard says, for an identity of less than 8192 bytes,
-- a first coordinate of 32 bytes at most, and a second one of 32 bytes exactly.
pub za_standard :
    (p : Point) (uid : List ℕ)
    → length uid < 8192
    → p.x < 256 ^ 32
    → length (to_bytes p.y) ≡ 32
    → (za zero_byte_slice p uid).1
      ≡ ok (
          hash (
            (8 * length uid / 2 ^ 8) ∷ (8 * length uid % 2 ^ 8) ∷ uid
            ++ (field_bytes a
                ++ (field_bytes b
                    ++ (field_bytes gx
                        ++ (field_bytes gy ++ (field_bytes p.x ++ field_bytes p.y)))))))
unfolding field_bytes za_message to_bytes
za_standard p uid h x_small y_size =
    rw
      (
        za_short zero_byte_slice p uid h,
        pad_zeros (to_bytes p.x) (length-to_bytes 32 p.x x_small),
        y_size,
      )
      refl
