-- ===== src/Lib.antt =====
-- The Go library of the SM algorithms: the hash SM3 (sm3/sm3.go), the block cipher SM4
-- (sm4/sm4.go), and the public key algorithms SM2 over an elliptic curve (sm2/sm2.go) with their
-- certificates.
--
-- The parts and how they interact.
--   * Sm3 models sm3/sm3.go. Sm3/Compress holds the functions and the loops of the compression,
--     Sm3/Digest the object (`digest`, `length`, `unhandleMsg`) and its methods; a method with a
--     pointer receiver returns the new object. Sm3/Spec is the hash of a whole message, and the
--     object that has taken a message; Sm3/Blocks, Sm3/Padding, Sm3/Schedule, Sm3/Refinement,
--     Sm3/Invariant and Sm3/Encoding hold the proofs.
--   * Sm4 models sm4/sm4.go. Sm4/Tables has the tables, Sm4/Cipher `cryptBlock`,
--     `generateSubKeys` and the object of `NewCipher`, Sm4/Keys the readers and writers of key
--     files. Sm4/Spec is the cipher by its S-box and linear map, one round at a time; Sm4/Linear,
--     Sm4/Rounds, Sm4/Blocks, Sm4/Schedule, Sm4/Blockwise, Sm4/Object, Sm4/Constants and
--     Sm4/KeyFiles hold the proofs.
--   * Sm2 models sm2/sm2.go over a curve that is a parameter. Sm2/Curve has the curve's interface
--     (`elliptic.Curve`), the group law at given scalars, and the source of random bytes; Sm2/Signature
--     `GenerateKey`, `Sign` and `Verify`; Sm2/Buffers the array behind `zeroByteSlice`, which the
--     padding of short coordinates writes to; Sm2/Hash `ZA`, `msgHash`, `Sm2Sign` and `Sm2Verify`
--     by the hash of Sm3; Sm2/Encryption `kdf`, `Encrypt` and `Decrypt`. Sm2/Field models the
--     elements of sm2/p256.go, nine limbs of 29 and 28 bits: sums and differences in Sm2/Field
--     itself, `sm2P256Mul` and `sm2P256Square` in Sm2/Field/Product, `sm2P256ReduceDegree` in
--     Sm2/Field/Degree, `sm2P256FromBig` and `sm2P256ToBig` in Sm2/Field/Convert. Sm2/P256 models
--     the curve of that file: Sm2/P256/Points the point formulas, Sm2/P256/Select the copies and
--     look-ups by masks, Sm2/P256/Scalars the scalars and both multiplications, Sm2/P256/Table the
--     tables, Sm2/P256/Methods the methods of `sm2P256Curve`, Sm2/P256/Instance the
--     curve of `P256Sm2` as a value of the interface, with which Sm2/CurveRuns signs and encrypts. Sm2/CertPool models the
--     pool of sm2/cert_pool.go, with `CheckSignatureFrom` as a parameter, and Sm2/CertPool/Pem its
--     `AppendCertsFromPEM`; Sm2/KeyUsage and Sm2/Hostnames model `checkChainForKeyUsage` and
--     `matchHostnames` of sm2/verify.go, and Sm2/Compression `Compress` and `Decompress` of
--     sm2/sm2.go. The other children hold the proofs.
--   * Common holds what they share: lists and tests over native numbers, the laws of xor, words as
--     bytes, numbers as bytes (`big.Int`), congruences, and the ways in which a Go function ends.
--
-- Conventions. A word of w bits is a natural number below 2 ^ w, with its wrap-around written out.
-- A function ends with a value, an error or a panic (`Outcome`). State that a call changes is an
-- argument and a result. Runs and Examples modules hold tests and the theorems at concrete inputs.
--
-- Loops. The loops of fixed length are structural. The loop of `pad` has fuel 64, since some
-- length within 64 steps is right; that of `update` has as much fuel as there are bytes, and takes
-- 64 of them in a step; the signing loops and that of `Encrypt` have as much fuel as there are
-- random bytes, of which each step reads eight or more. The loops of sm2/p256.go have fixed
-- lengths; the rounds of `sm2P256ReduceDegree` are counted by a number, as are the turns of the
-- multiplications. `Bytes` has as much fuel as the number's value.
--
-- Not modelled. That the methods of sm2/p256.go answer by the group law at all scalars, which they do
-- not (`Add` of equal points, scalars of more than 32 bytes): the theorems about signing and
-- encryption take the one equation that they need at the scalars of the call, Sm2/CurveRuns checks it
-- for the curve of sm2/p256.go, and the theorems about p256.go show its formulas and its
-- multiplications. The methods of sm2/sm2.go that marshal by encoding/asn1. The PKCS and X.509
-- files of sm2, the parsing of certificates, and the rest of sm2/verify.go. The system roots that
-- sm2/cert_pool.go loads from files. The Go library's part: PEM and its encryption, files, random
-- bytes, AES-CTR, `ModInverse` and `ModSqrt` are parameters, with laws where a theorem names them.
pub mod Common
pub mod Sm2
pub mod Sm3
pub mod Sm4
