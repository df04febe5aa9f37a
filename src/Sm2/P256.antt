-- ===== src/Sm2/P256.antt =====
-- sm2/p256.go: the curve `sm2P256Curve`. A point in Jacobian coordinates is three elements of the
-- field; a pointer that a function writes is a result of it.
pub mod Table
pub mod Points
pub mod Select
pub mod Entries
pub mod Scalars
pub mod Methods
pub mod OnCurve
pub mod Formulas
pub mod Multiples
pub mod Instance
