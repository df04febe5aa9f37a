-- ===== src/Sm2.antt =====
-- The package sm2: signatures, encryption, and the certificate pool.
pub mod Curve
pub mod Signature
pub mod Congruence
pub mod Correctness
pub mod BadDraw
pub mod Buffers
pub mod Hash
pub mod Identity
pub mod Acceptance
pub mod Fuel
pub mod Encryption
pub mod KeyStream
pub mod Sealed
pub mod RoundTrip
pub mod EncryptLoop
pub mod Field
pub mod P256
pub mod Compression
pub mod CertPool
pub mod KeyUsage
pub mod Hostnames
mod Runs
mod Examples
mod PoolExamples
mod FieldExamples
mod P256Examples
mod P256Runs
mod CurveRuns
