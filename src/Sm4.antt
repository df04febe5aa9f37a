-- ===== src/Sm4.antt =====
-- The block cipher of sm4/sm4.go. The children hold the constants, the cipher as the code has
-- it, the cipher as the standard has it, and what is proved.
pub mod Tables
pub mod Cipher
pub mod Spec
pub mod Linear
pub mod Rounds
pub mod Blocks
pub mod Schedule
pub mod Blockwise
pub mod Object
pub mod Constants
pub mod Keys
pub mod KeyFiles
mod Runs
mod Examples
