-- ===== src/Sm2/Examples.antt =====
-- The theorems about the package sm2 at concrete inputs.
use gmsm.Common.{
  ◌+◌, ◌*◌, ◌/◌, ◌%◌, ◌^◌, ◌≡◌, refl, [], ◌∷◌, ◌++◌, length, arith, to_bytes, from_bytes, false,
  none,
}
use gmsm.Common.{ok, err}
use gmsm.Sm3.Spec.{hash}
use gmsm.Sm2.Curve.{external, Point, rand_field_element, read_full, field_element}
use gmsm.Sm2.Signature.{Signature, sign_number, sign_loop, drawn_r, verify_number}
use gmsm.Sm2.Buffers.{zero_byte_slice}
use gmsm.Sm2.Hash.{a, b, gx, gy, za}
use gmsm.Sm2.Identity.{za_standard, field_bytes}
use gmsm.Sm2.BadDraw.{sign_bad_draw}
use gmsm.Sm2.Fuel.{sign_loop_enough}
use gmsm.Sm2.Encryption.{kdf, encrypt_round, encrypt, Padded}
use gmsm.Sm2.KeyStream.{stream, nonzero, kdf-stream}
use gmsm.Sm2.EncryptLoop.{encrypt_empty}
use gmsm.Sm2.Runs.{seven, inverse, draw_of, signed, verify-sign_run, priv, text, uid}

first_draw : rand_field_element seven (draw_of 2) ≡ ok (3, [])
unfolding rand_field_element read_full field_element from_bytes
first_draw = refl

first_r : drawn_r seven 0 3 + 3 ≡ 7
unfolding drawn_r to_bytes from_bytes
first_r = refl

sign_bad_draw_example :
    (sig : Signature) × (sign_number inverse seven 2 0 (draw_of 2) ≡ ok (sig, []))
    × ((p : Point) → verify_number seven p 0 sig ≡ false)
sign_bad_draw_example =
    sign_bad_draw inverse seven 2 0 3 (draw_of 2) [] (omega arith) refl first_draw first_r

sign_loop-IsSigned_run : sign_loop inverse 8 seven 2 0 (draw_of 1) ≡ ok (signed, [])
unfolding sign_number
sign_loop-IsSigned_run = verify-sign_run

sign_loop_enough_example :
    sign_loop inverse 8 seven 2 0 (draw_of 1) ≡ sign_loop inverse 100 seven 2 0 (draw_of 1)
sign_loop_enough_example =
    sign_loop_enough inverse 8 100 seven 2 0 (draw_of 1) (omega arith) (omega arith) (omega arith)

kdf-stream_example :
    kdf text uid 33 ≡ ok (stream 33 (text ++ uid), nonzero (stream 33 (text ++ uid)))
kdf-stream_example = kdf-stream text uid 33

abbrev near : Point
near = record { x = 5; y = 2 ^ 255 }

near_size : length (to_bytes near.y) ≡ 32
unfolding to_bytes
near_size = refl

za_standard_example :
    (za zero_byte_slice near uid).1
    ≡ ok (
        hash (
          (8 * length uid / 2 ^ 8) ∷ (8 * length uid % 2 ^ 8) ∷ uid
          ++ (field_bytes a
              ++ (field_bytes b
                  ++ (field_bytes gx
                      ++ (field_bytes gy ++ (field_bytes near.x ++ field_bytes near.y)))))))
za_standard_example = za_standard near uid (omega arith) (omega arith) near_size

abbrev buffers : Padded
buffers = record {
  store = zero_byte_slice;
  x1 = zero_byte_slice;
  y1 = zero_byte_slice;
  x2 = text;
  y2 = uid;
}

encrypt_empty_example :
    ((p : Padded) → encrypt_round p [] ≡ ok none)
    × ((encrypt zero_byte_slice seven priv.public_key [] (draw_of 2)).1 ≡ err external)
encrypt_empty_example =
    encrypt_empty zero_byte_slice seven priv.public_key (draw_of 2) (omega arith)
