-- ===== src/Sm2/P256/Scalars/Refinement.antt =====
-- What the loops of sm2/p256.go that never branch keep of a sum of points.
use gmsm.Common.{
  ℕ, suc, ◌<◌, ◌≡◌, refl, sym, ap, ◌∙◌, subst, arith, true, false, Option, none, some,
}
use gmsm.Sm2.Field.Arrays.{IsArray}
use gmsm.Sm2.P256.Points.{Jacobian, point_double}
use gmsm.Sm2.P256.Select.{zeros}
use gmsm.Sm2.P256.Select.Lookup.{IsEntry}
use gmsm.Sm2.P256.Entries.{point_double-IsEntry}
use gmsm.Sm2.P256.Scalars.{Sum, accept, infinity}
use gmsm.Sm2.P256.Scalars.Choice.{accept_skip, accept_take}

-- A sum of points, or none so far.
unfoldable pub add_to : (Jacobian → Jacobian) → Jacobian → Option Jacobian → Jacobian
add_to plus p none = p
add_to plus p (some q) = plus q

unfoldable pub doubled : Option Jacobian → Option Jacobian
doubled none = none
doubled (some q) = some (point_double q)

-- What the loops keep stands for a sum; where there is none, the coordinates do not matter.
unfoldable pub Keeps : Sum → Option Jacobian → Type 0
Keeps s none = IsEntry s.out × (s.n_is_infinity_mask ≡ 0xffffffff)
Keeps s (some q) = IsEntry s.out × (s.out ≡ q) × (s.n_is_infinity_mask ≡ 0)

-- Where nothing is summed up after a point was taken up, the coordinates are zero.
unfoldable pub IsSum : Sum → Option Jacobian → Type 0
IsSum s none = (s.out.x ≡ zeros) × (s.out.y ≡ zeros) × Keeps s none
IsSum s (some q) = Keeps s (some q)

pub IsSum-Keeps : (s : Sum) (sum : Option Jacobian) → IsSum s sum → Keeps s sum
unfolding IsSum
IsSum-Keeps s none (_, _, h) = h
IsSum-Keeps s (some q) h = h

-- At the index zero, where the entry is zero, the sum stays as it is.
pub skip-IsSum :
    (s : Sum) (sum : Option Jacobian) (p t : Jacobian)
    → Keeps s sum
    → IsEntry p
    → IsEntry t
    → p.x ≡ zeros
    → p.y ≡ zeros
    → IsSum (accept s.out s.n_is_infinity_mask p t 0) sum
unfolding Keeps IsSum
skip-IsSum s none p t (ho, h) hp ht zx zy =
    subst (λ (r : Sum). IsSum r none)
      (sym (ap (λ (m : ℕ). accept s.out m p t 0) h ∙ accept_skip true s.out p t ho hp ht))
      (zx, zy, (hp, refl))
skip-IsSum s (some q) p t (ho, same, h) hp ht zx zy =
    subst (λ (r : Sum). IsSum r (some q))
      (sym (ap (λ (m : ℕ). accept s.out m p t 0) h ∙ accept_skip false s.out p t ho hp ht))
      (ho, same, refl)

-- At another index the entry is added, whatever became of the point that was added to.
pub take-IsSum :
    (s : Sum) (sum : Option Jacobian) (out p : Jacobian) (plus : Jacobian → Jacobian) (k : ℕ)
    → Keeps s sum
    → IsEntry out
    → IsEntry p
    → IsEntry (plus s.out)
    → suc k < 16
    → IsSum (accept out s.n_is_infinity_mask p (plus s.out) (suc k)) (some (add_to plus p sum))
unfolding Keeps IsSum add_to
take-IsSum s none out p plus k (_, h) ho hp ht low =
    subst (λ (r : Sum). IsSum r (some p))
      (sym (
        ap (λ (m : ℕ). accept out m p (plus s.out) (suc k)) h
        ∙ accept_take true out p (plus s.out) k ho hp ht low))
      (hp, refl, refl)
take-IsSum s (some q) out p plus k (_, same, h) ho hp ht low =
    subst (λ (r : Sum). IsSum r (some (plus q)))
      (sym (
        ap (λ (m : ℕ). accept out m p (plus s.out) (suc k)) h
        ∙ accept_take false out p (plus s.out) k ho hp ht low))
      (ht, ap plus same, refl)

pub double-Keeps :
    (s : Sum) (sum : Option Jacobian)
    → Keeps s sum
    → Keeps
        (record { out = point_double s.out; n_is_infinity_mask = s.n_is_infinity_mask })
        (doubled sum)
unfolding Keeps doubled
double-Keeps s none (ho, h) = (point_double-IsEntry s.out ho, h)
double-Keeps s (some q) (ho, same, h) = (point_double-IsEntry s.out ho, ap point_double same, h)

pub zeros-IsArray : IsArray zeros
unfolding zeros
zeros-IsArray = omega arith

pub Keeps-IsEntry : (s : Sum) (sum : Option Jacobian) → Keeps s sum → IsEntry s.out
unfolding Keeps
Keeps-IsEntry s none (h, _) = h
Keeps-IsEntry s (some q) (h, _, _) = h

-- What a multiplication returns stands for a sum; where there is none, two coordinates are zero.
unfoldable pub Stands : Jacobian → Option Jacobian → Type 0
Stands out none = (out.x ≡ zeros) × (out.y ≡ zeros)
Stands out (some q) = out ≡ q

pub IsSum-Stands : (s : Sum) (sum : Option Jacobian) → IsSum s sum → Stands s.out sum
unfolding IsSum Keeps Stands
IsSum-Stands s none (hx, hy, _) = (hx, hy)
IsSum-Stands s (some q) (_, same, _) = same

pub infinity-IsSum : IsSum (record { out = infinity; n_is_infinity_mask = 0xffffffff }) none
unfolding IsSum Keeps infinity
infinity-IsSum = (refl, refl, ((zeros-IsArray, zeros-IsArray, zeros-IsArray), refl))
