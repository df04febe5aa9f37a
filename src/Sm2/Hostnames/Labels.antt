-- ===== src/Sm2/Hostnames/Labels.antt =====
-- The labels of a host name, and the name that they make.
use gmsm.Common.{
  ℕ, ◌≡◌, refl, sym, ap, ap₂, ◌∙◌, List, [], ◌∷◌, ◌++◌, ◌==◌, ==_iff, if◌then◌else◌, Bool, true,
  false, Bool-cases, inl, inr, All,
}
use gmsm.Sm2.Hostnames.{dot, onto_first, split_dots}

-- Each label behind a dot.
unfoldable pub behind_dots : List (List ℕ) → List ℕ
behind_dots [] = []
behind_dots (part ∷ parts) = dot ∷ (part ++ behind_dots parts)

-- The name of labels.
unfoldable pub joined : List (List ℕ) → List ℕ
joined [] = []
joined (part ∷ parts) = part ++ behind_dots parts

joined-onto_first : (c : ℕ) (parts : List (List ℕ)) → joined (onto_first c parts) ≡ c ∷ joined parts
unfolding joined onto_first behind_dots
joined-onto_first c [] = refl
joined-onto_first c (part ∷ parts) = refl

-- A name has a first label, without a dot, and others.
pub record Split (s : List ℕ) : Type 0 where
  pub part : List ℕ
  pub parts : List (List ℕ)
  pub whole : split_dots s ≡ part ∷ parts
  pub plain : All (λ c. (c == dot) ≡ false) part

pub split_lem : (s : List ℕ) → Split s
unfolding split_dots onto_first
split_lem [] = record { part = []; parts = []; whole = refl; plain = tt }
split_lem (c ∷ s) =
    let rest = split_lem s in
    elim (Bool-cases (c == dot)) [
      | inl e ↦ record {
        part = [];
        parts = split_dots s;
        whole = ap (λ (b : Bool). if b then [] ∷ split_dots s else onto_first c (split_dots s)) e;
        plain = tt;
      }
      | inr e ↦ record {
        part = c ∷ rest.part;
        parts = rest.parts;
        whole =
            ap (λ (b : Bool). if b then [] ∷ split_dots s else onto_first c (split_dots s)) e
            ∙ ap (onto_first c) rest.whole;
        plain = (e, rest.plain);
      }
    ]

-- The labels of a name make the name.
pub joined-split_dots : (s : List ℕ) → joined (split_dots s) ≡ s
unfolding joined split_dots behind_dots
joined-split_dots [] = refl
joined-split_dots (c ∷ s) =
    let rest = split_lem s in
    let again = joined-split_dots s in
    elim (Bool-cases (c == dot)) [
      | inl e ↦
          ap (λ (b : Bool). joined (if b then [] ∷ split_dots s else onto_first c (split_dots s))) e
          ∙ ap (λ (l : List (List ℕ)). behind_dots l) rest.whole
          ∙ ap₂ (λ (d : ℕ) (t : List ℕ). d ∷ t) (sym ((==_iff c dot).0 e))
              (ap joined (sym rest.whole) ∙ again)
      | inr e ↦
          ap (λ (b : Bool). joined (if b then [] ∷ split_dots s else onto_first c (split_dots s))) e
          ∙ joined-onto_first c (split_dots s)
          ∙ ap (λ (t : List ℕ). c ∷ t) again
    ]

-- The labels of what stands behind a first label.
unfoldable pub tail_parts : List ℕ → List (List ℕ)
tail_parts [] = []
tail_parts (c ∷ s) = split_dots s

-- Nothing, or something with a dot in front.
unfoldable pub IsTail : List ℕ → Type 0
IsTail [] = Unit
IsTail (c ∷ s) = (c == dot) ≡ true

pub split_dots-append :
    (label tail : List ℕ)
    → All (λ c. (c == dot) ≡ false) label
    → IsTail tail
    → split_dots (label ++ tail) ≡ label ∷ tail_parts tail
unfolding split_dots onto_first tail_parts IsTail
split_dots-append [] [] plain h = refl
split_dots-append [] (c ∷ s) plain h =
    ap (λ (b : Bool). if b then [] ∷ split_dots s else onto_first c (split_dots s)) h
split_dots-append (c ∷ label) tail (e, plain) h =
    ap
      (λ (b : Bool).
        if b then [] ∷ split_dots (label ++ tail) else onto_first c (split_dots (label ++ tail)))
      e
    ∙ ap (onto_first c) (split_dots-append label tail plain h)

pub behind_dots-IsTail : (parts : List (List ℕ)) → IsTail (behind_dots parts)
unfolding IsTail behind_dots
behind_dots-IsTail [] = tt
behind_dots-IsTail (part ∷ parts) = refl
