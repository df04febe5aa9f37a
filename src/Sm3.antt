-- ===== src/Sm3.antt =====
-- The hash function of sm3/sm3.go. The children hold the compression function, the object, the
-- hash as the standard has it, and what is proved.
pub mod Compress
pub mod Digest
pub mod Padding
pub mod Blocks
pub mod Spec
pub mod Refinement
pub mod Schedule
pub mod Invariant
pub mod Encoding
mod Runs
mod Examples
