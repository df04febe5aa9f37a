-- ===== src/Common.antt =====
-- The names that the other modules share: the libraries', passed on, and those of the children.
mod Tests
mod Xor
mod Words
mod Mask
mod BigBytes
mod Modular
mod Solver
mod Lists
mod Bytes
mod Results
pub use Tests.{
  ltb, leb, ◌==◌, if◌then◌else◌, ==_iff, leb-true, leb-false, ltb-true, ltb-false, ltb→lt,
  Bool-cases, Option-cases, and_true,
}
pub use Tests.{all_below_sound}
unfoldable pub use Tests.{all_below}
pub use Xor.*
pub use Words.*
pub use Mask.*
pub use Lists.*
pub use Bytes.{IsByte, IsWord, IsBytes, be_word_sum, be_word-IsWord, be_bytes-be_word}
pub use Bytes.{be_word-be_bytes, be_bytes-IsBytes}
unfoldable pub use Bytes.{be_word, be_bytes}
pub use Results.*
pub use Solver.{Term, nil, var, ◌⊕◌, value, xor_solve}
unfoldable pub use Solver.{parity}
pub use Prim.Native.Nat.{ℕ, zero, suc, ◌+◌, ◌-◌, ◌*◌, ◌/◌, ◌%◌, ◌^◌, ◌≤◌, ◌<◌, min}
pub use Prim.Native.Nat.{bit_and, bit_or, bit_xor}
pub use mathlib.Core.Path.{◌≡◌, refl, sym, ap, ap₂, ◌∙◌, subst}
pub use mathlib.Core.Logic.{◌≢◌, ◌↔◌, ◌⊎◌, inl, inr}
pub use mathlib.Core.Bool.{Bool, true, false, ◌&&◌, ◌||◌, not}
pub use mathlib.Core.Option.{Option, none, some}
pub use mathlib.Core.List.{List, [], ◌∷◌, ◌++◌, map, foldl}
pub use native.Mathlib.Omega.{arith}
unfoldable pub use native.Mathlib.Decide.{dec_lt}
pub use Modular.{
  Cong, Cong-mod, Cong-add, Cong-mul, drop_multiples, Cong-mul_right, Cong-mul_left, Cong-cancel, ℤ,
  euclid_mod-lt,
}
pub use Modular.{euclid_mod-scale}
unfoldable pub use Modular.{sub_ℕ, scale, euclid_mod}
pub use BigBytes.{from_bytes-to_bytes, from_bytes-zeros, length-to_bytes, to_bytes-IsBytes}
unfoldable pub use BigBytes.{from_bytes, to_bytes}
