-- ===== src/Sm2/Hostnames.antt =====
-- sm2/verify.go: `matchHostnames`. A string is its bytes.
pub mod Labels
pub mod Match
use gmsm.Common.{
  ℕ, zero, suc, ◌-◌, List, [], ◌∷◌, length, ◌==◌, if◌then◌else◌, Bool, true, false, ◌&&◌, ◌||◌, not,
}
use gmsm.Sm2.Encryption.{equal_bytes}

-- '.' and '*'
abbrev pub dot : ℕ
dot = 46

abbrev pub star : ℕ
star = 42

-- `strings.TrimSuffix(s, ".")`
unfoldable pub trim_dot : List ℕ → List ℕ
trim_dot [] = []
trim_dot (c ∷ []) = if c == dot then [] else c ∷ []
trim_dot (c ∷ d ∷ s) = c ∷ trim_dot (d ∷ s)

-- A byte in front of the first part.
unfoldable pub onto_first : ℕ → List (List ℕ) → List (List ℕ)
onto_first c [] = (c ∷ []) ∷ []
onto_first c (part ∷ parts) = (c ∷ part) ∷ parts

-- `strings.Split(s, ".")`
unfoldable pub split_dots : List ℕ → List (List ℕ)
split_dots [] = [] ∷ []
split_dots (c ∷ s) = let parts = split_dots s in if c == dot then [] ∷ parts else onto_first c parts

-- The loop over as many parts of either name; `first` says whether the index is zero.
unfoldable pub match_parts : Bool → List (List ℕ) → List (List ℕ) → Bool
match_parts first [] host_parts = true
match_parts first (p ∷ pattern_parts) [] = true
match_parts first (p ∷ pattern_parts) (h ∷ host_parts) =
    let rest = match_parts false pattern_parts host_parts in
    if first && equal_bytes p (star ∷ [])
    then rest
    else if not (equal_bytes p h)
    then false
    else rest

unfoldable pub match_hostnames : List ℕ → List ℕ → Bool
match_hostnames pattern' host' =
    let host = trim_dot host' in
    let pattern = trim_dot pattern' in
    let pattern_parts = split_dots pattern in
    let host_parts = split_dots host in
    if (length pattern == 0) || (length host == 0)
    then false
    else if not (length pattern_parts == length host_parts)
    then false
    else match_parts true pattern_parts host_parts
