-- ===== src/Sm2/Field/Numbers.antt =====
-- Elements of sm2/p256.go and the numbers that they stand for modulo the prime.
use gmsm.Common.{
  ℕ, ◌+◌, ◌-◌, ◌*◌, ◌%◌, ◌<◌, ◌≡◌, refl, sym, ap, subst, ◌==◌, ==_iff, ◌↔◌, ◌∙◌, List, arith, true,
  Cong, Cong-mod, Cong-mul, Cong-add, drop_multiples,
}
use native.Mathlib.Nat.{mod-eq_of_lt}
use gmsm.Sm2.Field.{prime, field_add, field_sub}
use gmsm.Sm2.Field.Sum.{IsElement}
use gmsm.Sm2.Field.Product.{mul_products, field_mul, field_square}
use gmsm.Sm2.Field.Convert.{from_big, to_big}
use gmsm.Sm2.Field.Convert.Value.{to_big-from_big}
use gmsm.Sm2.Field.Modulo.{
  safe_products, field_add-to_big, field_sub-to_big, field_mul-to_big, field_square-field_mul,
}

-- The element stands for the number.
abbrev pub Means : List ℕ → ℕ → Type 0
Means a v = Cong prime (to_big a) v × IsElement a

-- No round of the reduction of the two factors' products, at an even position, lends what it has not.
abbrev pub IsSafe : List ℕ × List ℕ → Type 0
IsSafe factors = safe_products (mul_products factors.0 factors.1) ≡ true

-- A difference modulo the prime.
abbrev pub minus : ℕ → ℕ → ℕ
minus v w = v + (prime - 1) * w

pub Means-from_big : (a : ℕ) → Means (from_big a) a
Means-from_big a =
    let (same, element) = to_big-from_big a in
    (ap (λ (t : ℕ). t % prime) same ∙ Cong-mod prime a, element)

pub Means-add : (a b : List ℕ) (v w : ℕ) → Means a v → Means b w → Means (field_add a b) (v + w)
Means-add a b v w (va, ha) (wb, hb) =
    let (sum, element) = field_add-to_big a b ha hb in
    (
      ap (λ (t : ℕ). t % prime) sum
          ∙ Cong-mod prime (to_big a + to_big b)
          ∙ Cong-add prime (to_big a) v (to_big b) w va wb,
      element,
    )

pub Means-sub : (a b : List ℕ) (v w : ℕ) → Means a v → Means b w → Means (field_sub a b) (minus v w)
Means-sub a b v w (va, ha) (wb, hb) =
    let (sum, element) = field_sub-to_big a b ha hb in
    let d = to_big (field_sub a b) in
    let lent = (prime - 1) * to_big b in
    (
      drop_multiples prime d (d + to_big b + lent) (to_big b) 0 (omega arith)
          ∙ Cong-add prime (d + to_big b) v lent ((prime - 1) * w)
              (sym (Cong-mod prime (d + to_big b)) ∙ ap (λ (t : ℕ). t % prime) sum ∙ va)
              (Cong-mul prime (prime - 1) (prime - 1) (to_big b) w refl wb),
      element,
    )

pub Means-mul :
    (a b : List ℕ) (v w : ℕ)
    → Means a v
    → Means b w
    → safe_products (mul_products a b) ≡ true
    → Means (field_mul a b) (v * w)
Means-mul a b v w (va, ha) (wb, hb) safe =
    let (product, element) = field_mul-to_big a b ha hb safe in
    (
      ap (λ (t : ℕ). t % prime) product
          ∙ Cong-mod prime (to_big a * to_big b)
          ∙ Cong-mul prime (to_big a) v (to_big b) w va wb,
      element,
    )

pub Means-square :
    (a : List ℕ) (v : ℕ)
    → Means a v
    → safe_products (mul_products a a) ≡ true
    → Means (field_square a) (v * v)
Means-square a v h safe =
    let (product, element) = Means-mul a a v v h h safe in
    subst (λ (l : List ℕ). Means l (v * v)) (sym (field_square-field_mul a)) (product, element)

pub to_big-lt : (a : List ℕ) → to_big a < prime
unfolding to_big
to_big-lt a = omega arith

-- Two elements give the same number where they mean the same number.
pub Means-test :
    (a b : List ℕ) (v w : ℕ)
    → Means a v
    → Means b w
    → ((to_big a == to_big b) ≡ true) ↔ Cong prime v w
Means-test a b v w (va, ha) (wb, hb) = (
  λ h. sym va ∙ ap (λ (t : ℕ). t % prime) ((==_iff (to_big a) (to_big b)).0 h) ∙ wb,
  λ e.
      (==_iff (to_big a) (to_big b)).1
        (sym (mod-eq_of_lt (to_big-lt a)) ∙ va ∙ e ∙ sym wb ∙ mod-eq_of_lt (to_big-lt b)),
)
