-- ===== src/Common/Modular.antt =====
-- Congruence modulo a number, and the signed difference of `big.Int` with its Euclidean remainder.
use Prim.Native.Nat.{ℕ, zero, suc, ◌+◌, ◌-◌, ◌*◌, ◌/◌, ◌%◌, ◌<◌}
use mathlib.Core.Path.{◌≡◌, refl, sym, ap, ◌∙◌}
use native.Mathlib.Nat.{
  mod-add-mod, add-mod-mod, mod-mod, div-add-mod', mod-lt, add-mul-mod_self_right, add-mul,
  mod-eq_of_lt,
}
use native.Mathlib.Decide.{dec_le}
use native.Mathlib.Omega.{arith}

abbrev pub Cong : ℕ → ℕ → ℕ → Type 0
Cong n a b = a % n ≡ b % n

pub Cong-mod : (n a : ℕ) → Cong n (a % n) a
Cong-mod n a = mod-mod a n

-- Equations up to multiples of the modulus.
pub drop_multiples : (n a b k m : ℕ) → a + k * n ≡ b + m * n → Cong n a b
drop_multiples n a b k m e =
    sym (add-mul-mod_self_right a k n) ∙ ap (λ (t : ℕ). t % n) e ∙ add-mul-mod_self_right b m n

pub Cong-add : (n a b c d : ℕ) → Cong n a b → Cong n c d → Cong n (a + c) (b + d)
Cong-add n a b c d p q =
    sym (mod-add-mod a n c)
    ∙ ap (λ (t : ℕ). (t + c) % n) p
    ∙ mod-add-mod b n c
    ∙ sym (add-mod-mod b c n)
    ∙ ap (λ (t : ℕ). (b + t) % n) q
    ∙ add-mod-mod b d n

pub Cong-mul_right : (n a b c : ℕ) → Cong n a b → Cong n (a * c) (b * c)
Cong-mul_right n a b c p = reduce a ∙ ap (λ (t : ℕ). t * c % n) p ∙ sym (reduce b)
  where
    reduce : (x : ℕ) → x * c % n ≡ x % n * c % n
    reduce x =
        ap (λ (t : ℕ). t * c % n) (sym (div-add-mod' x n))
        ∙ ap (λ (t : ℕ). t % n) {y = x % n * c + x / n * c * n} (omega arith)
        ∙ add-mul-mod_self_right (x % n * c) (x / n * c) n

pub Cong-mul_left : (n a b c : ℕ) → Cong n a b → Cong n (c * a) (c * b)
Cong-mul_left n a b c p =
    ap (λ (t : ℕ). t % n) {y = a * c} (omega arith)
    ∙ Cong-mul_right n a b c p
    ∙ ap (λ (t : ℕ). t % n) {y = c * b} (omega arith)

subtract_back : (n x c : ℕ) → 0 < n → ((x + c) % n + (n - c % n)) % n ≡ x % n
subtract_back n x c h =
    mod-add-mod (x + c) n (n - c % n)
    ∙ ap (λ (t : ℕ). t % n) {y = x + (c / n + 1) * n}
        (omega (arith, div-add-mod' c n, mod-lt c h, add-mul (c / n) 1 n))
    ∙ add-mul-mod_self_right x (c / n + 1) n

-- Cancel an addend.
pub Cong-cancel : (n a b c : ℕ) → 0 < n → Cong n (a + c) (b + c) → Cong n a b
Cong-cancel n a b c h p =
    sym (subtract_back n a c h) ∙ ap (λ (t : ℕ). (t + (n - c % n)) % n) p ∙ subtract_back n b c h

pub Cong-mul : (n a b c d : ℕ) → Cong n a b → Cong n c d → Cong n (a * c) (b * d)
Cong-mul n a b c d p q = Cong-mul_right n a b c p ∙ Cong-mul_left n c d b q

-- An integer: `negsuc n` is -(n + 1).
pub data ℤ : Type 0 where
  pos : ℕ → ℤ
  negsuc : ℕ → ℤ

-- `a - b`
unfoldable pub sub_ℕ : ℕ → ℕ → ℤ
sub_ℕ a b = elim (dec_le b a) [ yes _ ↦ pos (a - b) | no _ ↦ negsuc (b - a - 1) ]

-- `z * c` for a natural factor.
unfoldable pub scale : ℤ → ℕ → ℤ
scale (pos a) c = pos (a * c)
scale (negsuc a) zero = pos 0
scale (negsuc a) (suc c) = negsuc (suc a * suc c - 1)

-- `Mod` of `big.Int`: the remainder that is not negative.
unfoldable pub euclid_mod : ℤ → ℕ → ℕ
euclid_mod (pos a) n = a % n
euclid_mod (negsuc a) n = n - 1 - a % n

pub euclid_mod-lt : (z : ℤ) (n : ℕ) → 0 < n → euclid_mod z n < n
unfolding euclid_mod
euclid_mod-lt (pos a) n h = mod-lt a h
euclid_mod-lt (negsuc a) n h = omega arith

-- A negative value and its remainder differ by a multiple of `n`.
negsuc_mod : (m n : ℕ) → 0 < n → (n - 1 - m % n + (m + 1)) % n ≡ 0 % n
negsuc_mod m n h =
    ap (λ (t : ℕ). t % n) {y = 0 + (m / n + 1) * n}
      (omega (arith, div-add-mod' m n, mod-lt m h, add-mul (m / n) 1 n))
    ∙ add-mul-mod_self_right 0 (m / n + 1) n

below :
    (a b c n : ℕ)
    → 0 < n
    → a < b
    → Cong n (euclid_mod (scale (negsuc (b - a - 1)) c) n + b * c) (a * c)
unfolding euclid_mod scale
below a b zero n h lt = ap (λ (t : ℕ). t % n) {y = a * zero} (omega (arith, mod-eq_of_lt h))
below a b (suc c) n h lt =
    let m = suc (b - a - 1) * suc c - 1 in
    let grown : suc (b - a - 1) * suc c ≡ (b - a) * suc c =
      ap (λ (t : ℕ). t * suc c) {y = b - a} (omega arith) in
    let whole : b * suc c ≡ a * suc c + (b - a) * suc c =
      ap (λ (t : ℕ). t * suc c) {y = a + (b - a)} (omega arith) ∙ add-mul a (b - a) (suc c) in
    let some_left : suc (b - a - 1) * suc c ≡ suc c + (b - a - 1) * suc c = omega arith in
    ap (λ (t : ℕ). t % n) {y = n - 1 - m % n + (m + 1) + a * suc c}
      (omega (arith, grown, whole, some_left))
    ∙ Cong-add n (n - 1 - m % n + (m + 1)) 0 (a * suc c) (a * suc c) (negsuc_mod m n h) refl
    ∙ ap (λ (t : ℕ). t % n) {y = a * suc c} (omega arith)

-- The remainder of `(a - b) * c` is what makes up `a * c` with `b * c`.
pub euclid_mod-scale :
    (a b c n : ℕ) → 0 < n → Cong n (euclid_mod (scale (sub_ℕ a b) c) n + b * c) (a * c)
unfolding euclid_mod scale sub_ℕ
euclid_mod-scale a b c n h =
    elim (dec_le b a)
      as (λ d.
        Cong n
          (euclid_mod (scale (elim d [ yes _ ↦ pos (a - b) | no _ ↦ negsuc (b - a - 1) ]) c) n
            + b * c)
          (a * c)) [
            | yes le ↦
                mod-add-mod ((a - b) * c) n (b * c)
                ∙ ap (λ (t : ℕ). t % n)
                    (sym (add-mul (a - b) b c) ∙ ap (λ (t : ℕ). t * c) {y = a} (omega arith))
            | no gt ↦ below a b c n h (omega arith)
          ]
