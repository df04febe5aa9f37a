-- ===== src/Common/Results.antt =====
-- How a Go function ends: with a value, with its error result, or by a panic.
use Prim.Native.Nat.{ℕ}
use mathlib.Core.Path.{◌≡◌, refl}
use mathlib.Core.Logic.{◌⊎◌, inl, inr}
use mathlib.Core.Option.{Option, none, some}
use mathlib.Core.List.{List}
use gmsm.Common.Lists.{get_elem?}

pub data Outcome (E A : Type 0) : Type 0 where
  ok : A → Outcome E A
  err : E → Outcome E A
  panic : Outcome E A

infixl 5 ◌>>=◌
abbrev pub ◌>>=◌ : {E A B : Type 0} → Outcome E A → (A → Outcome E B) → Outcome E B
panic >>= next = panic
err x >>= next = err x
ok a >>= next = next a

abbrev pub or_panic : {E A : Type 0} → Option A → Outcome E A
or_panic none = panic
or_panic (some a) = ok a

-- `xs[i]`
abbrev pub index : {E A : Type 0} → List A → ℕ → Outcome E A
index xs i = or_panic (get_elem? xs i)

-- Inversion of a chain that succeeded.
pub >>=-eq-ok :
    {E A B : Type 0} (first : Outcome E A) (next : A → Outcome E B) {result : B}
    → (first >>= next) ≡ ok result
    → (a : A) × (first ≡ ok a) × (next a ≡ ok result)
>>=-eq-ok panic next h = cc
>>=-eq-ok (err x) next h = cc
>>=-eq-ok (ok a) next h = (a, refl, h)

-- To split on how a computation ends and keep the equation.
pub Outcome-cases :
    {E A : Type 0} (m : Outcome E A)
    → ((a : A) × (m ≡ ok a)) ⊎ (((e : E) × (m ≡ err e)) ⊎ (m ≡ panic))
Outcome-cases (ok a) = inl (a, refl)
Outcome-cases (err e) = inr (inl (e, refl))
Outcome-cases panic = inr (inr refl)
