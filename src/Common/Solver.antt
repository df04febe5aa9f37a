-- ===== src/Common/Solver.antt =====
-- Equations between exclusive ors of the same words, by reflection: a term is a tree over an
-- environment, and it is worth the exclusive or of the entries that it holds an odd number of
-- times.
use Prim.Native.Nat.{ℕ, zero, suc, bit_xor}
use mathlib.Core.Path.{◌≡◌, refl, sym, ap, ap₂, ◌∙◌}
use mathlib.Core.Bool.{Bool, true, false, xor}
use mathlib.Core.List.{List, [], ◌∷◌}
use gmsm.Common.Xor.{xor_comm, xor_assoc, xor_self, zero-xor, xor-zero}

pub data Term : Type 0 where
  nil : Term
  var : ℕ → Term
  ◌⊕◌ : Term → Term → Term

infixl 60 ◌⊕◌
abbrev lookup : List ℕ → ℕ → ℕ
lookup [] i = 0
lookup (x ∷ xs) zero = x
lookup (x ∷ xs) (suc i) = lookup xs i

abbrev pub value : List ℕ → Term → ℕ
value env nil = 0
value env (var i) = lookup env i
value env (s ⊕ t) = bit_xor (value env s) (value env t)

single : ℕ → List Bool
single zero = true ∷ []
single (suc i) = false ∷ single i

merge : List Bool → List Bool → List Bool
merge [] ys = ys
merge (x ∷ xs) [] = x ∷ xs
merge (x ∷ xs) (y ∷ ys) = xor x y ∷ merge xs ys

-- Which entries are held an odd number of times.
unfoldable pub parity : Term → List Bool
unfolding single merge xor
parity nil = []
parity (var i) = single i
parity (s ⊕ t) = merge (parity s) (parity t)

abbrev pick : Bool → ℕ → ℕ
pick true x = x
pick false x = 0

total : List Bool → List ℕ → ℕ
total [] env = 0
total (b ∷ bs) [] = 0
total (b ∷ bs) (x ∷ xs) = bit_xor (pick b x) (total bs xs)

swap_middle :
    (a b c d : ℕ) → bit_xor (bit_xor a b) (bit_xor c d) ≡ bit_xor (bit_xor a c) (bit_xor b d)
swap_middle a b c d =
    xor_assoc a b (bit_xor c d)
    ∙ ap (bit_xor a)
        (sym (xor_assoc b c d) ∙ ap (λ t. bit_xor t d) (xor_comm b c) ∙ xor_assoc c b d)
    ∙ sym (xor_assoc a c (bit_xor b d))

pick-xor : (a b : Bool) (x : ℕ) → pick (xor a b) x ≡ bit_xor (pick a x) (pick b x)
unfolding xor
pick-xor true true x = sym (xor_self x)
pick-xor true false x = sym (xor-zero x)
pick-xor false true x = sym (zero-xor x)
pick-xor false false x = sym (zero-xor 0)

total-single : (i : ℕ) (env : List ℕ) → total (single i) env ≡ lookup env i
unfolding total single
total-single zero [] = refl
total-single zero (x ∷ xs) = xor-zero x
total-single (suc i) [] = refl
total-single (suc i) (x ∷ xs) = zero-xor (total (single i) xs) ∙ total-single i xs

total-merge :
    (bs cs : List Bool) (env : List ℕ)
    → total (merge bs cs) env ≡ bit_xor (total bs env) (total cs env)
unfolding total merge
total-merge [] cs env = sym (zero-xor (total cs env))
total-merge (b ∷ bs) [] env = sym (xor-zero (total (b ∷ bs) env))
total-merge (b ∷ bs) (c ∷ cs) [] = sym (zero-xor 0)
total-merge (b ∷ bs) (c ∷ cs) (x ∷ xs) =
    ap₂ bit_xor (pick-xor b c x) (total-merge bs cs xs)
    ∙ swap_middle (pick b x) (pick c x) (total bs xs) (total cs xs)

value_lem : (env : List ℕ) (t : Term) → value env t ≡ total (parity t) env
unfolding parity
value_lem env nil = unfold total in refl
value_lem env (var i) = sym (total-single i env)
value_lem env (s ⊕ t) =
    ap₂ bit_xor (value_lem env s) (value_lem env t) ∙ sym (total-merge (parity s) (parity t) env)

-- Two trees that hold the same entries an odd number of times are worth the same.
pub xor_solve : (env : List ℕ) (s t : Term) → parity s ≡ parity t → value env s ≡ value env t
xor_solve env s t h = value_lem env s ∙ ap (λ p. total p env) h ∙ sym (value_lem env t)
