-- ===== src/Sm2/Hostnames/Match.antt =====
-- What `matchHostnames` accepts.
use gmsm.Common.{
  ℕ, ◌<◌, ◌≡◌, ◌↔◌, ◌⊎◌, refl, sym, ap, ap₂, ◌∙◌, List, [], ◌∷◌, ◌++◌, length, ◌==◌, ==_iff,
  if◌then◌else◌, Bool, true, false, not, ◌&&◌, ◌||◌, Bool-cases, inl, inr, All, arith,
}
use gmsm.Sm2.Encryption.{equal_bytes}
use gmsm.Sm2.Sealed.{equal_refl, equal_sound}
use gmsm.Sm2.Hostnames.{dot, star, trim_dot, split_dots, match_parts, match_hostnames}
use gmsm.Sm2.Hostnames.Labels.{
  behind_dots, joined, split_lem, joined-split_dots, tail_parts, IsTail, split_dots-append,
  behind_dots-IsTail,
}

-- A test that fails where its guard holds.
guarded : (b x : Bool) → (if b then false else x) ≡ true → (b ≡ false) × (x ≡ true)
guarded true x h = absurd (ground arith)
guarded false x h = (refl, h)

false_of_not : (b : Bool) → not b ≡ false → b ≡ true
false_of_not true h = refl
false_of_not false h = absurd (ground arith)

-- Behind the first index the parts are compared.
same_parts :
    (ps hs : List (List ℕ)) → length ps ≡ length hs → match_parts false ps hs ≡ true → ps ≡ hs
unfolding match_parts
same_parts [] [] size h = refl
same_parts [] (x ∷ hs) size h = absurd (omega arith)
same_parts (p ∷ ps) [] size h = absurd (omega arith)
same_parts (p ∷ ps) (x ∷ hs) size h =
    let (first, rest) = guarded (not (equal_bytes p x)) (match_parts false ps hs) h in
    ap₂ (λ (q : List ℕ) (qs : List (List ℕ)). q ∷ qs)
      (equal_sound p x (false_of_not (equal_bytes p x) first)) (same_parts ps hs (omega arith) rest)

either : (b x y : Bool) → x ≡ true → y ≡ true → (if b then x else y) ≡ true
either true x y hx hy = hx
either false x y hx hy = hy

match_self : (first : Bool) (ps : List (List ℕ)) → match_parts first ps ps ≡ true
unfolding match_parts
match_self first [] = refl
match_self first (p ∷ ps) =
    let rest = match_self false ps in
    let same : (if not (equal_bytes p p) then false else match_parts false ps ps) ≡ true =
      ap (λ (b : Bool). if not b then false else match_parts false ps ps) (equal_refl p) ∙ rest in
    either (first && equal_bytes p (star ∷ [])) (match_parts false ps ps)
      (if not (equal_bytes p p) then false else match_parts false ps ps) rest same

-- The pattern is a star in the place of the first label of the host.
unfoldable pub Wildcard : List ℕ → List ℕ → Type 0
Wildcard p h =
    (label : List ℕ) × ((tail : List ℕ) × (p ≡ star ∷ tail)
      × (h ≡ label ++ tail)
      × All (λ c. (c == dot) ≡ false) label
      × IsTail tail)

matched :
    (p h : List ℕ)
    → length (split_dots p) ≡ length (split_dots h)
    → match_parts true (split_dots p) (split_dots h) ≡ true
    → (p ≡ h) ⊎ Wildcard p h
unfolding match_parts Wildcard joined
matched p h size m =
    let pat = split_lem p in
    let name = split_lem h in
    let parts : length pat.parts ≡ length name.parts = omega (
      arith,
      size,
      ap (λ (l : List (List ℕ)). length l) pat.whole,
      ap (λ (l : List (List ℕ)). length l) name.whole,
    ) in
    let whole : match_parts true (pat.part ∷ pat.parts) (name.part ∷ name.parts) ≡ true =
      sym (ap₂ (match_parts true) pat.whole name.whole) ∙ m in
    let rest = match_parts false pat.parts name.parts in
    let compared = if not (equal_bytes pat.part name.part) then false else rest in
    let p_is = sym (joined-split_dots p) ∙ ap joined pat.whole in
    let h_is = sym (joined-split_dots h) ∙ ap joined name.whole in
    elim (Bool-cases (equal_bytes pat.part (star ∷ []))) [
      | inl e ↦
          let tails =
            same_parts pat.parts name.parts parts
              (sym (ap (λ (b : Bool). if b then rest else compared) e) ∙ whole) in
          inr (
            name.part,
            (
              behind_dots pat.parts,
              p_is
                  ∙ ap (λ (l : List ℕ). l ++ behind_dots pat.parts)
                      (equal_sound pat.part (star ∷ []) e),
              h_is ∙ ap (λ (l : List (List ℕ)). name.part ++ behind_dots l) (sym tails),
              name.plain,
              behind_dots-IsTail pat.parts,
            ),
          )
      | inr e ↦
          let (first, later) =
            guarded (not (equal_bytes pat.part name.part)) rest
              (sym (ap (λ (b : Bool). if b then rest else compared) e) ∙ whole) in
          let tails = same_parts pat.parts name.parts parts later in
          let heads =
            equal_sound pat.part name.part (false_of_not (equal_bytes pat.part name.part) first) in
          inl (
            p_is
            ∙ ap₂ (λ (l : List ℕ) (ls : List (List ℕ)). l ++ behind_dots ls) heads tails
            ∙ sym h_is)
    ]

-- A wildcard is matched.
Wildcard-parts :
    (p h : List ℕ)
    → Wildcard p h
    → (length (split_dots p) ≡ length (split_dots h))
      × (match_parts true (split_dots p) (split_dots h) ≡ true)
unfolding Wildcard match_parts equal_bytes
Wildcard-parts p h (label, (tail, p_is, h_is, plain, behind)) =
    let pat : split_dots p ≡ (star ∷ []) ∷ tail_parts tail =
      ap split_dots p_is ∙ split_dots-append (star ∷ []) tail (refl, tt) behind in
    let name : split_dots h ≡ label ∷ tail_parts tail =
      ap split_dots h_is ∙ split_dots-append label tail plain behind in
    (
      ap (λ (l : List (List ℕ)). length l) pat ∙ sym (ap (λ (l : List (List ℕ)). length l) name),
      ap₂ (match_parts true) pat name ∙ match_self false (tail_parts tail),
    )

filled : (a b : ℕ) → ((a == 0) || (b == 0)) ≡ false → (0 < a) × (0 < b)
filled a b h = ground arith

unfilled : (a b : ℕ) → 0 < a → 0 < b → ((a == 0) || (b == 0)) ≡ false
unfilled a b ha hb = ground arith

-- `matchHostnames` answers true exactly where, without a dot at their ends, neither the pattern nor
-- the host is empty, and the pattern is the host, or the pattern is a star and some rest, and the
-- host a label without a dot and the same rest, which is empty or begins with a dot.
pub match_hostnames_iff :
    (pattern host : List ℕ)
    → (match_hostnames pattern host ≡ true) ↔ (
        (0 < length (trim_dot pattern))
        × (0 < length (trim_dot host))
        × ((trim_dot pattern ≡ trim_dot host) ⊎ Wildcard (trim_dot pattern) (trim_dot host)))
unfolding match_hostnames
match_hostnames_iff pattern host = (forward, backward)
  where
    p : List ℕ
    p = trim_dot pattern

    h : List ℕ
    h = trim_dot host

    m : Bool
    m = match_parts true (split_dots p) (split_dots h)

    compared : Bool
    compared = if not (length (split_dots p) == length (split_dots h)) then false else m

    forward :
        match_hostnames pattern host ≡ true
        → (0 < length p) × (0 < length h) × ((p ≡ h) ⊎ Wildcard p h)
    forward e =
        let (full, some_parts) = guarded ((length p == 0) || (length h == 0)) compared e in
        let (size, all) =
          guarded (not (length (split_dots p) == length (split_dots h))) m some_parts in
        let sizes =
          (==_iff (length (split_dots p)) (length (split_dots h))).0 (false_of_not _ size) in
        let (hp, hh) = filled (length p) (length h) full in (hp, hh, matched p h sizes all)

    parts_match :
        (p ≡ h) ⊎ Wildcard p h → (length (split_dots p) ≡ length (split_dots h)) × (m ≡ true)
    parts_match (inl e) = (
      ap (λ (s : List ℕ). length (split_dots s)) e,
      ap (λ (s : List ℕ). match_parts true (split_dots s) (split_dots h)) e
          ∙ match_self true (split_dots h),
    )
    parts_match (inr w) = Wildcard-parts p h w

    backward :
        (0 < length p) × (0 < length h) × ((p ≡ h) ⊎ Wildcard p h)
        → match_hostnames pattern host ≡ true
    backward (hp, hh, either_way) =
        let (sizes, all) = parts_match either_way in
        ap (λ (b : Bool). if b then false else compared) (unfilled (length p) (length h) hp hh)
        ∙ ap (λ (b : Bool). if not b then false else m) ((==_iff _ _).1 sizes)
        ∙ all
