-- ===== src/Sm2/Runs.antt =====
-- Runs of the package on a group of seven points whose coordinates take 32 bytes, and the theorems
-- at concrete inputs.
use gmsm.Common.{
  ℕ, ◌+◌, ◌-◌, ◌*◌, ◌%◌, ◌^◌, ◌≡◌, refl, List, [], ◌∷◌, ◌++◌, replicate, from_bytes, to_bytes,
  be_word, be_bytes, some, sub_ℕ, scale, euclid_mod,
}
use gmsm.Common.{ok}
use native.Mathlib.Decide.{dec_le}
use gmsm.Sm2.Buffers.{zero_byte_slice, pad_left, contents}
use gmsm.Sm2.Hash.{sm2_sign, za, msg_hash}
use gmsm.Sm2.Encryption.{
  encrypt_round, pad_points, encrypt, encrypt_loop, kdf, kdf_loop, any_set, xor_bytes, int_to_bytes,
}
use gmsm.Sm3.Compress.{
  ff0, ff1, gg0, gg1, left_rotate, p0, p1, add32, word_at, load_words, expanded, expand_words,
  pair_words, compress_step, compress_loop, xor_registers, schedule, compress,
}
use gmsm.Sm3.Digest.{
  pad_loop, length_bytes, checked, pad, update_loop, update, reset, new, write, digest_bytes, sum,
  sm3_sum,
}
use gmsm.Sm2.Curve.{Point, Curve, rand_field_element, read_full, field_element}
use gmsm.Sm2.Signature.{Signature, PrivateKey, sign_number, sign_loop, draw_loop, drawn_r, signed_s}

abbrev pub far : ℕ
far = 2 ^ 255

-- The multiples of the base point.
abbrev pub multiple : ℕ → Point
multiple n = record { x = far + n % 7; y = far }

abbrev pub seven : Curve
seven = record {
  order = 7;
  bit_size = 0;
  add = λ p q. multiple ((p.x - far) + (q.x - far));
  scalar_mult = λ p k. multiple (from_bytes k * (p.x - far));
  scalar_base_mult = λ k. multiple (from_bytes k);
}

-- The inverse modulo a prime, by Fermat.
abbrev pub inverse : ℕ → ℕ → ℕ
inverse a n = a ^ (n - 2) % n

-- Eight bytes from which the number `v % 6 + 1` is drawn.
abbrev pub draw_of : ℕ → List ℕ
draw_of v = replicate 7 0 ++ (v ∷ [])

abbrev pub signed : Signature
signed = record { r = 3; s = 1 }

pub verify-sign_run : sign_number inverse seven 2 0 (draw_of 1) ≡ ok (signed, [])
unfolding sign_number sign_loop draw_loop drawn_r signed_s rand_field_element read_full
    field_element from_bytes to_bytes sub_ℕ scale euclid_mod dec_le
verify-sign_run = refl

abbrev pub priv : PrivateKey
priv = record { public_key = seven.scalar_base_mult (to_bytes 2); d = 2 }

abbrev pub text : List ℕ
text = b'g' ∷ b'm' ∷ []

abbrev pub uid : List ℕ
uid = b'i' ∷ b'd' ∷ []

abbrev pub hashed_signature : Signature
hashed_signature = record { r = 2; s = 4 }

abbrev pub ciphertext : List ℕ
ciphertext =
    128
    ∷ (replicate 30 0
        ++ (3
            ∷ 128
            ∷ (replicate 31 0
                ++ (39 ∷ 27 ∷ 17 ∷ 67 ∷ 151 ∷ 48 ∷ 232 ∷ 70 ∷ 150 ∷ 228 ∷ 4 ∷ 11 ∷ 198 ∷ 6 ∷ 112
                    ∷ 250 ∷ 11 ∷ 86 ∷ 49 ∷ 126 ∷ 162 ∷ 77 ∷ 112 ∷ 223 ∷ 139 ∷ 39 ∷ 201 ∷ 63 ∷ 64
                    ∷ 100 ∷ 110 ∷ 117 ∷ 26 ∷ 231 ∷ []))))

pub sm2_sign_run :
    (sm2_sign inverse zero_byte_slice seven priv text uid (draw_of 1)).1 ≡ ok (hashed_signature, [])
unfolding sm2_sign za msg_hash sign_number sign_loop draw_loop drawn_r signed_s rand_field_element
    read_full field_element from_bytes to_bytes sub_ℕ scale euclid_mod dec_le pad_left contents ff0
    ff1 gg0 gg1 left_rotate p0 p1 add32 word_at load_words expanded expand_words pair_words
    compress_step compress_loop xor_registers schedule compress pad_loop length_bytes checked pad
    update_loop update reset new write digest_bytes sum sm3_sum be_word be_bytes
sm2_sign_run = refl

pub round_run :
    encrypt_round
      (pad_points zero_byte_slice
        (seven.scalar_base_mult (to_bytes 3))
        (seven.scalar_mult priv.public_key (to_bytes 3)))
      text
    ≡ ok (some ciphertext)
unfolding encrypt_round kdf kdf_loop any_set xor_bytes int_to_bytes pad_points from_bytes to_bytes
    pad_left contents ff0 ff1 gg0 gg1 left_rotate p0 p1 add32 word_at load_words expanded
    expand_words pair_words compress_step compress_loop xor_registers schedule compress pad_loop
    length_bytes checked pad update_loop update reset new write digest_bytes sum sm3_sum be_word
    be_bytes
round_run = refl

pub encrypt_run :
    (encrypt zero_byte_slice seven priv.public_key text (draw_of 2)).1 ≡ ok (ciphertext, [])
unfolding encrypt encrypt_loop encrypt_round kdf kdf_loop any_set xor_bytes int_to_bytes pad_points
    sign_number sign_loop draw_loop drawn_r signed_s rand_field_element read_full field_element
    from_bytes to_bytes sub_ℕ scale euclid_mod dec_le pad_left contents ff0 ff1 gg0 gg1 left_rotate
    p0 p1 add32 word_at load_words expanded expand_words pair_words compress_step compress_loop
    xor_registers schedule compress pad_loop length_bytes checked pad update_loop update reset new
    write digest_bytes sum sm3_sum be_word be_bytes
encrypt_run = refl
