-- ===== src/Sm2/CurveRuns.antt =====
-- Runs of the package on the curve of sm2/p256.go: a signature that verifies and a ciphertext that is
-- opened.
use gmsm.Common.{
  ℕ, ◌+◌, ◌*◌, ◌%◌, ◌≡◌, refl, List, [], ◌∷◌, replicate, arith, from_bytes, to_bytes, be_word,
  be_bytes, some, none, Cong, ◌<◌, ◌≢◌, true, sym, subst, sub_ℕ, scale, euclid_mod,
}
use gmsm.Common.{ok}
use native.Mathlib.Decide.{dec_le}
use gmsm.Sm2.Buffers.{zero_byte_slice, pad_left, contents}
use gmsm.Sm2.Hash.{sm2_sign, sm2_verify, za, msg_hash}
use gmsm.Sm2.Encryption.{
  decrypt, encrypt_round, pad_points, kdf, kdf_loop, any_set, xor_bytes, int_to_bytes,
}
use gmsm.Sm3.Compress.{
  ff0, ff1, gg0, gg1, left_rotate, p0, p1, add32, word_at, load_words, expanded, expand_words,
  pair_words, compress_step, compress_loop, xor_registers, schedule, compress,
}
use gmsm.Sm3.Digest.{
  pad_loop, length_bytes, checked, pad, update_loop, update, reset, new, write, digest_bytes, sum,
  sm3_sum,
}
use gmsm.Sm2.Curve.{Point, Curve, AddsUp, Agrees, rand_field_element, read_full, field_element}
use gmsm.Sm2.Signature.{
  Signature, PrivateKey, sign_number, sign_loop, draw_loop, drawn_r, signed_s, verify_number,
}
use gmsm.Sm2.Correctness.{verify-sign}
use gmsm.Sm2.Acceptance.{sm2_verify-sm2_sign}
use gmsm.Sm2.RoundTrip.{IsFull, decrypt-encrypt_round}
use gmsm.Sm2.P256.Instance.{p256_sm2}
use gmsm.Sm2.P256Runs.{inverse, executed}
use gmsm.Sm2.Runs.{text, uid}

abbrev pub curve : Curve
curve = p256_sm2 inverse

-- Forty bytes that a number is drawn from.
abbrev random : List ℕ
random = 0x35 ∷ 0x9c ∷ 0xe1 ∷ replicate 37 0x5a

abbrev key : ℕ
key = 0x1234567

abbrev key_point : Point
key_point = record {
  x = 45137958809286778902490552661992140462191491059793664509350199771088181194739;
  y = 45343089244688861340034857416687138598446529103912092678873336957471059556427;
}

abbrev priv : PrivateKey
priv = record { public_key = key_point; d = key }

-- What the runs compute with.
unfoldable computed : ℕ
unfolding executed sm2_sign za msg_hash sign_number sign_loop draw_loop drawn_r signed_s
    rand_field_element read_full field_element from_bytes to_bytes sub_ℕ scale euclid_mod dec_le
    pad_left contents ff0 ff1 gg0 gg1 left_rotate p0 p1 add32 word_at load_words expanded
    expand_words pair_words compress_step compress_loop xor_registers schedule compress pad_loop
    length_bytes checked pad update_loop update reset new write digest_bytes sum sm3_sum be_word
    be_bytes encrypt_round kdf kdf_loop any_set xor_bytes int_to_bytes pad_points
computed = key

at_key : curve.scalar_base_mult (to_bytes key) ≡ key_point
unfolding computed
at_key = refl

unit_run : Cong curve.order ((key + 1) * inverse (key + 1) curve.order) 1
unfolding computed
unit_run = refl

-- The hash that is signed.
abbrev digest : ℕ
digest = 30816137291702135690060366396766332249666276129082618834628405989653150161802

abbrev signed : Signature
signed = record {
  r = 58180613094272304795452491717142915149777560692722073773648572498859125200943;
  s = 79767299101386851809729595904010919355978171702239040136294986674710380165335;
}

sm2_sign_run : (sm2_sign inverse zero_byte_slice curve priv text uid random).1 ≡ ok (signed, [])
unfolding computed
sm2_sign_run = refl

sign_run : sign_number inverse curve key digest random ≡ ok (signed, [])
unfolding computed
sign_run = refl

abbrev sum_number : ℕ
sum_number = 22155822985302907848761742407132941739694108670003369342099749817276066320355

abbrev drawn : ℕ
drawn = 105985356829637931229748738747575334294372112590315982566093113436318847187059

abbrev s_point : Point
s_point = record {
  x = 25772675507697254502001317625194825768819654334138670125125358619923511158793;
  y = 63610157480951406417411274704338993841611370218560737246539542751397440483903;
}

abbrev t_point : Point
t_point = record {
  x = 27578327862685195558964902372600339840713726008253943938693229861863991581776;
  y = 25036601373978386959982945969284486566582979317168039229985767712689411206909;
}

abbrev drawn_point : Point
drawn_point = record {
  x = 27364475802570169105392125320376582900111284563639454939020166509205975039141;
  y = 40399571947620164297530242276806355479343618945977234919677806010635179728028;
}

at_s : curve.scalar_base_mult (to_bytes signed.s) ≡ s_point
unfolding computed
at_s = refl

at_t : curve.scalar_mult key_point (to_bytes sum_number) ≡ t_point
unfolding computed
at_t = refl

at_drawn : curve.scalar_base_mult (to_bytes drawn) ≡ drawn_point
unfolding computed
at_drawn = refl

points_added : curve.add s_point t_point ≡ drawn_point
unfolding computed
points_added = refl

sum_number_run : (signed.r + signed.s) % curve.order ≡ sum_number
unfolding computed
sum_number_run = refl

drawn_run : (signed.s + sum_number * key) % curve.order ≡ drawn
unfolding computed
drawn_run = refl

-- The curve adds up the points that `Verify` computes for the signature.
signed-AddsUp : AddsUp curve key signed.s ((signed.r + signed.s) % curve.order)
unfolding AddsUp
signed-AddsUp = rw (sum_number_run, drawn_run, at_s, at_key, at_t, at_drawn) points_added

sum_nonzero : (signed.r + signed.s) % curve.order ≢ 0
sum_nonzero e = let e' = rw sum_number_run at e in absurd (omega (arith, e'))

order_above : 1 < curve.order
unfolding computed
order_above = omega arith

verify-sign_example :
    verify_number curve (curve.scalar_base_mult (to_bytes key)) digest signed ≡ true
verify-sign_example =
    verify-sign inverse curve key digest random [] signed order_above unit_run sign_run sum_nonzero
      signed-AddsUp

sm2_verify-sm2_sign_example :
    (sm2_verify
      (sm2_sign inverse zero_byte_slice curve priv text uid random).0
      curve
      priv.public_key
      text
      uid
      signed).1
    ≡ ok true
sm2_verify-sm2_sign_example =
    sm2_verify-sm2_sign inverse zero_byte_slice curve priv text uid random [] signed refl
      order_above unit_run (sym at_key) sm2_sign_run sum_nonzero signed-AddsUp

-- A number for a round of the encryption.
abbrev secret : ℕ
secret = 0xabcdef

abbrev secret_point : Point
secret_point = record {
  x = 9654045248522039626453822017241366645014363461917565354834891961814324204649;
  y = 11915326748557037454990272273791476348725134729297653699084377495554811777067;
}

abbrev shared_point : Point
shared_point = record {
  x = 89697715111873942882223049802368001888750260278063849172392042794366062519055;
  y = 20602728468529208236510835776568535531161492605724604946014514888374443687224;
}

at_secret : curve.scalar_base_mult (to_bytes secret) ≡ secret_point
unfolding computed
at_secret = refl

at_shared : curve.scalar_mult key_point (to_bytes secret) ≡ shared_point
unfolding computed
at_shared = refl

at_received : curve.scalar_mult secret_point (to_bytes key) ≡ shared_point
unfolding computed
at_received = refl

secret-Agrees : Agrees curve key secret
unfolding Agrees
secret-Agrees = rw (at_secret, at_key, at_received, at_shared) refl

secret_point-IsFull : IsFull secret_point
unfolding computed
secret_point-IsFull = record { x_size = refl; y_size = refl }

shared_point-IsFull : IsFull shared_point
unfolding computed
shared_point-IsFull = record { x_size = refl; y_size = refl }

abbrev ciphertext : List ℕ
ciphertext =
    21 ∷ 87 ∷ 254 ∷ 248 ∷ 37 ∷ 248 ∷ 181 ∷ 134 ∷ 251 ∷ 176 ∷ 151 ∷ 85 ∷ 119 ∷ 50 ∷ 241 ∷ 243 ∷ 82
    ∷ 217 ∷ 94 ∷ 173 ∷ 215 ∷ 15 ∷ 74 ∷ 69 ∷ 178 ∷ 107 ∷ 199 ∷ 115 ∷ 34 ∷ 9 ∷ 212 ∷ 105 ∷ 26 ∷ 87
    ∷ 214 ∷ 0 ∷ 161 ∷ 201 ∷ 132 ∷ 169 ∷ 27 ∷ 25 ∷ 54 ∷ 176 ∷ 90 ∷ 248 ∷ 113 ∷ 172 ∷ 91 ∷ 91 ∷ 87
    ∷ 85 ∷ 188 ∷ 7 ∷ 207 ∷ 64 ∷ 62 ∷ 151 ∷ 150 ∷ 215 ∷ 225 ∷ 136 ∷ 80 ∷ 43 ∷ 255 ∷ 175 ∷ 1 ∷ 19 ∷ 16
    ∷ 218 ∷ 134 ∷ 207 ∷ 64 ∷ 147 ∷ 216 ∷ 108 ∷ 132 ∷ 253 ∷ 81 ∷ 109 ∷ 35 ∷ 192 ∷ 218 ∷ 199 ∷ 166
    ∷ 106 ∷ 18 ∷ 0 ∷ 204 ∷ 250 ∷ 57 ∷ 241 ∷ 224 ∷ 134 ∷ 39 ∷ 41 ∷ 57 ∷ 211 ∷ []

round_run :
    encrypt_round (pad_points zero_byte_slice secret_point shared_point) text ≡ ok (some ciphertext)
unfolding computed
round_run = refl

decrypt-encrypt_round_example :
    decrypt zero_byte_slice curve priv ciphertext ≡ (zero_byte_slice, ok (text, none))
decrypt-encrypt_round_example =
    decrypt-encrypt_round zero_byte_slice zero_byte_slice curve priv secret text ciphertext
      secret-Agrees (sym at_key) (subst IsFull (sym at_secret) secret_point-IsFull)
      (subst IsFull (sym at_shared) shared_point-IsFull) (rw (at_secret, at_shared) round_run)
