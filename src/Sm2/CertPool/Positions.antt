-- ===== src/Sm2/CertPool/Positions.antt =====
-- The positions of the elements of a list that pass a test.
use gmsm.Common.{
  ℕ, ◌+◌, ◌≡◌, refl, ap, ◌∙◌, List, [], ◌∷◌, ◌++◌, length, arith, Bool, if◌then◌else◌, Bool-cases,
  inl, inr,
}

module _ {A : Type 0} (test : A → Bool) where
  -- The positions in order, the first element's being `start`.
  unfoldable pub positions : ℕ → List A → List ℕ
  positions start [] = []
  positions start (x ∷ xs) =
      let rest = positions (start + 1) xs in if test x then start ∷ rest else rest

  positions_at :
      (s t : ℕ) (x : A) → s ≡ t → (if test x then s ∷ [] else []) ≡ (if test x then t ∷ [] else [])
  positions_at s t x e = ap (λ (k : ℕ). if test x then k ∷ [] else []) e

  pub positions-append :
      (start : ℕ) (xs : List A) (x : A)
      → positions start (xs ++ (x ∷ []))
        ≡ positions start xs ++ (if test x then (start + length xs) ∷ [] else [])
  unfolding positions
  positions-append start [] x = positions_at start (start + 0) x (omega arith)
  positions-append start (y ∷ xs) x =
      let later : positions (start + 1) (xs ++ (x ∷ []))
          ≡ positions (start + 1) xs ++ (if test x then (start + length (y ∷ xs)) ∷ [] else []) =
        positions-append (start + 1) xs x
        ∙ ap (λ t. positions (start + 1) xs ++ t)
            (positions_at (start + 1 + length xs) (start + length (y ∷ xs)) x (omega arith)) in
      elim (Bool-cases (test y)) [ inl e ↦ rw (e, later) refl | inr e ↦ rw (e, later) refl ]
