-- ===== src/Sm2/Hash.antt =====
-- sm2/sm2.go: `ZA`, `msgHash`, `Sm2Sign` and `Sm2Verify`. A function that pads a buffer takes what
-- the array behind `zeroByteSlice` holds and returns what it holds then with its own result.
use gmsm.Common.{
  ℕ, ◌*◌, ◌/◌, ◌%◌, ◌^◌, bit_and, List, [], ◌∷◌, length, take, from_bytes, to_bytes, ltb, leb,
  if◌then◌else◌, Bool, false, ◌||◌,
}
use gmsm.Common.{Outcome, ok, err, panic, ◌>>=◌}
use gmsm.Sm3.Digest.{Sm3, new, write, sum}
use gmsm.Sm2.Curve.{Sm2Error, uid_too_large, Point, Curve}
use gmsm.Sm2.Buffers.{pad_left, contents}
use gmsm.Sm2.Signature.{PrivateKey, Signature, sign_number, check_sum}

-- The curve's parameters, of `initP256Sm2` in sm2/p256.go.
abbrev pub a : ℕ
a = 0xfffffffeffffffffffffffffffffffffffffffff00000000fffffffffffffffc

abbrev pub b : ℕ
b = 0x28e9fa9e9d9f5e344d5a9e4bcf6509a7f39789f515ab8f92ddbcbd414d940e93

abbrev pub gx : ℕ
gx = 0x32c4ae2c1f1981195f9904466a39c9948fe30bbff2660be1715a4589334c74c7

abbrev pub gy : ℕ
gy = 0xbc3736a2f4f6779c59bdcee36b692153d0a9877cc62a474002df32e52139f0a0

-- The object after a `Write`, whose results the callers drop.
abbrev pub written : Sm3 → List ℕ → Sm3
written s p = (write s p).0

-- `Entla`, a `uint16`.
abbrev pub entla : List ℕ → ℕ
entla uid = 8 * length uid % 2 ^ 16

-- The object of `ZA` up to the coordinates of the key. The constant `a`, which the source reads out of
-- the field element `sm2P256.a`, is written out.
abbrev pub za_prefix : List ℕ → Sm3
za_prefix uid =
    let za1 = written new (bit_and (entla uid / 2 ^ 8) 0xff % 2 ^ 8 ∷ []) in
    let za2 = written za1 (bit_and (entla uid) 0xff % 2 ^ 8 ∷ []) in
    let za3 = written za2 uid in
    let za4 = written za3 (to_bytes a) in
    let za5 = written za4 (to_bytes b) in
    let za6 = written za5 (to_bytes gx) in written za6 (to_bytes gy)

-- `x.Sum(nil)[:32]`
abbrev pub sum32 : Sm3 → Outcome Sm2Error (List ℕ)
sum32 s = sum s [] >>= λ r. ok (take 32 r.1)

unfoldable pub za : List ℕ → Point → List ℕ → List ℕ × Outcome Sm2Error (List ℕ)
za store pub_key uid =
    let x_buf = to_bytes pub_key.x in
    let y_buf = to_bytes pub_key.y in
    let padded = pad_left store x_buf in
    let za8 = written (za_prefix uid) (contents padded.0 padded.1) in
    if leb 8192 (length uid)
    then (store, err uid_too_large)
    else (padded.0, sum32 (written za8 y_buf))

unfoldable pub msg_hash : List ℕ → List ℕ → Outcome Sm2Error ℕ
msg_hash za_bytes msg =
    let e2 = written (written new za_bytes) msg in sum32 e2 >>= λ digest. ok (from_bytes digest)

-- The numbers that `rand.Reader` gives are the bytes of the list; those left are returned too.
unfoldable pub sm2_sign :
    (ℕ → ℕ → ℕ)
    → List ℕ
    → Curve
    → PrivateKey
    → List ℕ
    → List ℕ
    → List ℕ
    → List ℕ × Outcome Sm2Error (Signature × List ℕ)
sm2_sign mod_inverse store c priv msg uid rand =
    let hashed = za store priv.public_key uid in
    (hashed.0, hashed.1 >>= λ z. msg_hash z msg >>= λ e. sign_number mod_inverse c priv.d e rand)

-- An error of `ZA` or `msgHash` is the answer false.
unfoldable pub verify_hashed :
    Curve → Point → Signature → Outcome Sm2Error ℕ → Outcome Sm2Error Bool
verify_hashed c pub_key sig (ok e) = ok (check_sum c pub_key e sig)
verify_hashed c pub_key sig (err x) = ok false
verify_hashed c pub_key sig panic = panic

unfoldable pub sm2_verify :
    List ℕ → Curve → Point → List ℕ → List ℕ → Signature → List ℕ × Outcome Sm2Error Bool
sm2_verify store c pub_key msg uid sig =
    let hashed = za store pub_key uid in
    if ltb sig.r 1 || ltb sig.s 1
    then (store, ok false)
    else if leb c.order sig.r || leb c.order sig.s
    then (store, ok false)
    else (hashed.0, verify_hashed c pub_key sig (hashed.1 >>= λ z. msg_hash z msg))
