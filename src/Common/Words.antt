-- ===== src/Common/Words.antt =====
-- Rotation of a 32-bit word, as both packages write it: `x << r | x >> (32 - r)`.
use Prim.Native.Nat.{ℕ, zero, suc, ◌+◌, ◌-◌, ◌*◌, ◌/◌, ◌%◌, ◌^◌, ◌<◌, bit_or, bit_xor}
use mathlib.Core.Path.{◌≡◌, sym, ap, ap₂, ◌∙◌}
use native.Mathlib.Nat.{pow-suc, mod-lt, div-lt_iff_lt-mul, mod-eq_of_lt}
use native.Mathlib.Nat.{mul-add-mod_self_right, mul-lt-mul_of_pos_right, mul-le-mul_right}
use native.Mathlib.Omega.{arith}
use gmsm.Common.Xor.{two_pow_pos, split_fields, or_fields, xor_fields, xor-lt, xor-div, xor-mod}

abbrev pub rotl : ℕ → ℕ → ℕ
rotl x r = bit_or (x * 2 ^ r % 2 ^ 32) (x / 2 ^ (32 - r))

two_pow-add : (r s : ℕ) → 2 ^ (r + s) ≡ 2 ^ s * 2 ^ r
two_pow-add zero s = ap (λ (t : ℕ). 2 ^ t) {y = s} (omega arith) ∙ omega arith
two_pow-add (suc r) s =
    ap (λ (t : ℕ). 2 ^ t) {y = suc (r + s)} (omega arith)
    ∙ pow-suc 2 (r + s)
    ∙ omega (arith, two_pow-add r s, ap (λ (t : ℕ). 2 ^ s * t) (pow-suc 2 r))

module _ (r s : ℕ) (e : r + s ≡ 32) where
  width : 2 ^ 32 ≡ 2 ^ s * 2 ^ r
  width = ap (λ (t : ℕ). 2 ^ t) (sym e) ∙ two_pow-add r s

  shifted : (x : ℕ) → x * 2 ^ r % 2 ^ 32 ≡ x % 2 ^ s * 2 ^ r
  shifted x =
      let low : x % 2 ^ s * 2 ^ r < 2 ^ s * 2 ^ r =
        mul-lt-mul_of_pos_right (mod-lt x (two_pow_pos s)) (two_pow_pos r) in
      ap₂ (λ (a b : ℕ). a % b) {y = x / 2 ^ s * (2 ^ s * 2 ^ r) + x % 2 ^ s * 2 ^ r}
        (ap (λ (t : ℕ). t * 2 ^ r) (sym (split_fields s x)) ∙ omega arith) width
      ∙ mul-add-mod_self_right (x / 2 ^ s) (2 ^ s * 2 ^ r) (x % 2 ^ s * 2 ^ r)
      ∙ mod-eq_of_lt low

  high-lt : (x : ℕ) → x < 2 ^ 32 → x / 2 ^ s < 2 ^ r
  high-lt x h = (div-lt_iff_lt-mul (two_pow_pos s)).1 (omega (arith, width))

  -- A rotation moves the low `s` bits up and puts the high `r` bits below them.
  pub rotl_fields : (x : ℕ) → x < 2 ^ 32 → rotl x r ≡ x % 2 ^ s * 2 ^ r + x / 2 ^ s
  rotl_fields x h =
      ap₂ bit_or (shifted x) (ap (λ (t : ℕ). x / 2 ^ t) {y = s} (omega arith))
      ∙ or_fields r (x % 2 ^ s) (x / 2 ^ s) (high-lt x h)

  pub rotl-lt : (x : ℕ) → x < 2 ^ 32 → rotl x r < 2 ^ 32
  rotl-lt x h = omega (
    arith,
    rotl_fields x h,
    width,
    high-lt x h,
    mul-lt-mul_of_pos_right (mod-lt x (two_pow_pos s)) (two_pow_pos r),
    mul-le-mul_right (2 ^ r) (mod-lt x (two_pow_pos s)),
  )

  -- Rotation is linear over the exclusive or.
  pub rotl-xor :
      (x y : ℕ) → x < 2 ^ 32 → y < 2 ^ 32 → rotl (bit_xor x y) r ≡ bit_xor (rotl x r) (rotl y r)
  rotl-xor x y hx hy =
      rotl_fields (bit_xor x y) (xor-lt 32 x y hx hy)
      ∙ ap₂ (λ (a b : ℕ). a * 2 ^ r + b) (xor-mod s x y) (xor-div s x y)
      ∙ sym (
          xor_fields r (x % 2 ^ s) (x / 2 ^ s) (y % 2 ^ s) (y / 2 ^ s) (high-lt x hx)
            (high-lt y hy))
      ∙ sym (ap₂ bit_xor (rotl_fields x hx) (rotl_fields y hy))
