-- ===== src/Common/Xor.antt =====
-- The exclusive or of the words: its laws at variables, and how it meets `*`, `/` and `%` by a
-- power of two. All go by the lowest binary digit.
use Prim.Native.Nat.{
  ℕ, zero, suc, ◌+◌, ◌*◌, ◌/◌, ◌%◌, ◌^◌, ◌≤◌, ◌<◌, differ, digits, bitwise, bit_or, bit_xor,
  bit_or-bitwise, bit_xor-bitwise, max,
}
use mathlib.Core.Path.{◌≡◌, refl, sym, ap, ◌∙◌}
use native.Mathlib.Nat.{le_refl, pow-suc, pow-zero, one-le-pow, div-add-mod', mod-lt}
use native.Mathlib.Nat.{mul-add-div_right, mul-add-mod_self_right, div-eq_of_lt, mod-eq_of_lt}
use native.Mathlib.Omega.{arith}

module _ (z : ℕ → ℕ) (f : ℕ → ℕ → ℕ) where
  digits-zero : (fuel b : ℕ) → digits z f fuel 0 b ≡ z b
  digits-zero zero b = refl
  digits-zero (suc fuel) b = refl

  -- Any two fuels that cover the first number give the same digits.
  covered : (fuel other x y : ℕ) → x ≤ other → x ≤ fuel → digits z f fuel x y ≡ digits z f other x y
  covered fuel other zero y _ _ = digits-zero fuel y ∙ sym (digits-zero other y)
  covered zero other (suc x) y _ low = absurd (omega arith)
  covered (suc fuel) zero (suc x) y low _ = absurd (omega arith)
  covered (suc fuel) (suc other) (suc x) y low_other low =
      let halves = covered fuel other (suc x / 2) (y / 2) (omega arith) (omega arith) in
      ap (λ (t : ℕ). t * 2 + f (suc x % 2) (y % 2)) halves

  -- The lowest digit, and the rest.
  pub lowest_digit :
      (x y : ℕ) → 0 < x → bitwise z f x y ≡ f (x % 2) (y % 2) + 2 * bitwise z f (x / 2) (y / 2)
  lowest_digit zero y positive = absurd (omega arith)
  lowest_digit (suc x) y positive =
      let halves = covered x (suc x / 2) (suc x / 2) (y / 2) (le_refl (suc x / 2)) (omega arith) in
      omega (arith, halves)

differ_bits : (x y : ℕ) → x < 2 → y < 2 → differ x y ≡ (x + y) % 2
differ_bits zero y p q = omega arith
differ_bits (suc zero) zero p q = refl
differ_bits (suc zero) (suc zero) p q = refl
differ_bits (suc zero) (suc (suc y)) p q = absurd (omega arith)
differ_bits (suc (suc x)) y p q = absurd (omega arith)

pub bit_xor_step : (a b : ℕ) → bit_xor a b ≡ bit_xor (a / 2) (b / 2) * 2 + (a + b) % 2
bit_xor_step zero b = simp bit_xor-bitwise (omega arith)
bit_xor_step (suc a) b = omega (
  arith,
  bit_xor-bitwise (suc a) b,
  bit_xor-bitwise (suc a / 2) (b / 2),
  lowest_digit (λ t. t) differ (suc a) b (omega arith),
  differ_bits (suc a % 2) (b % 2) (omega arith) (omega arith),
)

or_lowest : (x y : ℕ) → bit_or x y ≡ max (x % 2) (y % 2) + 2 * bit_or (x / 2) (y / 2)
or_lowest zero y = omega (arith, bit_or-bitwise 0 y, bit_or-bitwise 0 (y / 2))
or_lowest (suc x) y = omega (
  arith,
  bit_or-bitwise (suc x) y,
  bit_or-bitwise (suc x / 2) (y / 2),
  lowest_digit (λ t. t) max (suc x) y (omega arith),
)

xor_comm_fuel : (n a b : ℕ) → a ≤ n → b ≤ n → bit_xor a b ≡ bit_xor b a
xor_comm_fuel n zero zero p q = refl
xor_comm_fuel zero (suc a) b p q = absurd (omega arith)
xor_comm_fuel zero a (suc b) p q = absurd (omega arith)
xor_comm_fuel (suc n) a b p q = omega (
  arith,
  bit_xor_step a b,
  bit_xor_step b a,
  xor_comm_fuel n (a / 2) (b / 2) (omega arith) (omega arith),
)

pub xor_comm : (a b : ℕ) → bit_xor a b ≡ bit_xor b a
xor_comm a b = xor_comm_fuel (a + b) a b (omega arith) (omega arith)

pub zero-xor : (a : ℕ) → bit_xor 0 a ≡ a
zero-xor a = bit_xor-bitwise 0 a

pub xor-zero : (a : ℕ) → bit_xor a 0 ≡ a
xor-zero a = xor_comm a 0 ∙ zero-xor a

xor_self_fuel : (n a : ℕ) → a ≤ n → bit_xor a a ≡ 0
xor_self_fuel n zero p = refl
xor_self_fuel zero (suc a) p = absurd (omega arith)
xor_self_fuel (suc n) (suc a) p =
    omega (arith, bit_xor_step (suc a) (suc a), xor_self_fuel n (suc a / 2) (omega arith))

pub xor_self : (a : ℕ) → bit_xor a a ≡ 0
xor_self a = xor_self_fuel a a (le_refl a)

xor_assoc_fuel :
    (n a b c : ℕ) → a ≤ n → b ≤ n → c ≤ n → bit_xor (bit_xor a b) c ≡ bit_xor a (bit_xor b c)
xor_assoc_fuel zero a b c p q r = rw (zeros a p, zeros b q, zeros c r) refl
  where
    zeros : (x : ℕ) → x ≤ 0 → x ≡ 0
    zeros x h = omega arith
xor_assoc_fuel (suc n) a b c p q r =
    bit_xor_step (bit_xor a b) c
    ∙ ap (λ (t : ℕ). t * 2 + (bit_xor a b + c) % 2) (ap (λ (t : ℕ). bit_xor t (c / 2)) (half a b))
    ∙ omega (
      arith,
      xor_assoc_fuel n (a / 2) (b / 2) (c / 2) (omega arith) (omega arith) (omega arith),
      bit_xor_step a b,
      bit_xor_step b c,
    )
    ∙ ap (λ (t : ℕ). bit_xor (a / 2) t * 2 + (a + bit_xor b c) % 2) (sym (half b c))
    ∙ sym (bit_xor_step a (bit_xor b c))
  where
    half : (x y : ℕ) → bit_xor x y / 2 ≡ bit_xor (x / 2) (y / 2)
    half x y = omega (arith, bit_xor_step x y)

pub xor_assoc : (a b c : ℕ) → bit_xor (bit_xor a b) c ≡ bit_xor a (bit_xor b c)
xor_assoc a b c = xor_assoc_fuel (a + b + c) a b c (omega arith) (omega arith) (omega arith)

or-zero : (most x : ℕ) → x ≤ most → bit_or x 0 ≡ x
or-zero most zero small = bit_or-bitwise 0 0
or-zero zero (suc x) small = absurd (omega arith)
or-zero (suc most) (suc x) small =
    omega (arith, or_lowest (suc x) 0, or-zero most (suc x / 2) (omega arith))

-- A field one bit higher counts twice.
pub higher_field : (k field : ℕ) → field * 2 ^ suc k ≡ field * 2 ^ k + field * 2 ^ k
higher_field k field = omega (arith, ap (λ (power : ℕ). field * power) (pow-suc 2 k))

-- The high parts and the low parts go separately.
pub xor_fields :
    (k q r p s : ℕ)
    → r < 2 ^ k
    → s < 2 ^ k
    → bit_xor (q * 2 ^ k + r) (p * 2 ^ k + s) ≡ bit_xor q p * 2 ^ k + bit_xor r s
xor_fields zero q r p s hr hs = ground (arith, pow-zero 2, zero-xor 0)
xor_fields (suc k) q r p s hr hs = ground (
  arith,
  bit_xor_step (q * 2 ^ suc k + r) (p * 2 ^ suc k + s),
  bit_xor_step r s,
  higher_field k q,
  higher_field k p,
  higher_field k (bit_xor q p),
  pow-suc 2 k,
  xor_fields k q (r / 2) p (s / 2) (omega arith) (omega arith),
)

-- Where the fields do not meet, the inclusive or, the exclusive or and the sum are one.
pub or_fields : (k q r : ℕ) → r < 2 ^ k → bit_or (q * 2 ^ k) r ≡ q * 2 ^ k + r
or_fields zero q r fits = ground (arith, or-zero q q (le_refl q), pow-zero 2)
or_fields (suc k) q r fits =
    let rest = or_fields k q (r / 2) (omega (arith, pow-suc 2 k, fits)) in
    ground (arith, rest, higher_field k q, pow-suc 2 k, or_lowest (q * 2 ^ suc k) r)

pub or_low_field : (k q r : ℕ) → r < 2 ^ k → bit_or r (q * 2 ^ k) ≡ q * 2 ^ k + r
or_low_field zero q r fits = ground (arith, bit_or-bitwise 0 q, pow-zero 2)
or_low_field (suc k) q r fits =
    let rest = or_low_field k q (r / 2) (omega (arith, pow-suc 2 k, fits)) in
    ground (arith, rest, higher_field k q, pow-suc 2 k, or_lowest r (q * 2 ^ suc k))

pub or_zero : (a : ℕ) → bit_or a 0 ≡ a
or_zero a = or-zero a a (omega arith)

pub zero_or : (a : ℕ) → bit_or 0 a ≡ a
zero_or a = bit_or-bitwise 0 a

pub two_pow_pos : (k : ℕ) → 0 < 2 ^ k
two_pow_pos k = one-le-pow k 2 (omega arith)

pub split_fields : (k a : ℕ) → a / 2 ^ k * 2 ^ k + a % 2 ^ k ≡ a
split_fields k a = div-add-mod' a (2 ^ k)

xor_split :
    (k a b : ℕ)
    → bit_xor a b ≡ bit_xor (a / 2 ^ k) (b / 2 ^ k) * 2 ^ k + bit_xor (a % 2 ^ k) (b % 2 ^ k)
xor_split k a b =
    ap (λ (t : ℕ). bit_xor t b) (sym (split_fields k a))
    ∙ ap (λ (t : ℕ). bit_xor (a / 2 ^ k * 2 ^ k + a % 2 ^ k) t) (sym (split_fields k b))
    ∙ xor_fields k (a / 2 ^ k) (a % 2 ^ k) (b / 2 ^ k) (b % 2 ^ k) (mod-lt a (two_pow_pos k))
        (mod-lt b (two_pow_pos k))

-- Words of `k` bits stay words of `k` bits.
pub xor-lt : (k a b : ℕ) → a < 2 ^ k → b < 2 ^ k → bit_xor a b < 2 ^ k
xor-lt zero a b p q = ground (arith, pow-zero 2, zero-xor 0)
xor-lt (suc k) a b p q = omega (
  arith,
  bit_xor_step a b,
  pow-suc 2 k,
  xor-lt k (a / 2) (b / 2) (omega (arith, pow-suc 2 k)) (omega (arith, pow-suc 2 k)),
)

pub xor-div : (k a b : ℕ) → bit_xor a b / 2 ^ k ≡ bit_xor (a / 2 ^ k) (b / 2 ^ k)
xor-div k a b =
    let low =
      xor-lt k (a % 2 ^ k) (b % 2 ^ k) (mod-lt a (two_pow_pos k)) (mod-lt b (two_pow_pos k)) in
    ap (λ (t : ℕ). t / 2 ^ k) (xor_split k a b)
    ∙ mul-add-div_right (two_pow_pos k) (bit_xor (a / 2 ^ k) (b / 2 ^ k))
        (bit_xor (a % 2 ^ k) (b % 2 ^ k))
    ∙ omega (arith, div-eq_of_lt low)

pub xor-mod : (k a b : ℕ) → bit_xor a b % 2 ^ k ≡ bit_xor (a % 2 ^ k) (b % 2 ^ k)
xor-mod k a b =
    let low =
      xor-lt k (a % 2 ^ k) (b % 2 ^ k) (mod-lt a (two_pow_pos k)) (mod-lt b (two_pow_pos k)) in
    ap (λ (t : ℕ). t % 2 ^ k) (xor_split k a b)
    ∙ mul-add-mod_self_right (bit_xor (a / 2 ^ k) (b / 2 ^ k)) (2 ^ k)
        (bit_xor (a % 2 ^ k) (b % 2 ^ k))
    ∙ mod-eq_of_lt low

pub xor_cancel : (a t : ℕ) → bit_xor (bit_xor a t) t ≡ a
xor_cancel a t = xor_assoc a t t ∙ ap (bit_xor a) (xor_self t) ∙ xor-zero a
