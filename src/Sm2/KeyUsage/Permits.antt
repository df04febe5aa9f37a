-- ===== src/Sm2/KeyUsage/Permits.antt =====
-- When `checkChainForKeyUsage` takes a usage for permitted, apart from its code, and that the tests of
-- the code say the same.
use gmsm.Common.{
  ℕ, ◌≡◌, refl, ap₂, ◌∙◌, List, [], ◌∷◌, length, arith, ◌==◌, if◌then◌else◌, Bool, true, false,
  ◌&&◌, ◌||◌, Bool-cases, inl, inr, Option, none, some, map,
}
use gmsm.Sm2.KeyUsage.{UsageCertificate, has_any, unrestricted, supports}

-- Whether a list has a usage.
unfoldable pub lists : List ℕ → ℕ → Bool
lists [] usage = false
lists (u ∷ usages) usage = (u == usage) || lists usages usage

unfoldable pub is_empty : {A : Type 0} → List A → Bool
is_empty [] = true
is_empty (x ∷ xs) = false

-- Whether a certificate permits a usage: it states none at all, or it lists any usage (0) or the
-- usage, or the usage is that of a TLS server (1) and it lists one of the two server gated
-- cryptographies (10 and 11).
unfoldable pub permits : UsageCertificate → ℕ → Bool
permits cert usage =
    let listed = cert.ext_key_usage in
    ((is_empty listed && is_empty cert.unknown_ext_key_usage) || lists listed 0)
    || (lists listed usage || ((usage == 1) && (lists listed 10 || lists listed 11)))

unfoldable pub all_permit : List UsageCertificate → ℕ → Bool
all_permit [] usage = true
all_permit (cert ∷ certs) usage = permits cert usage && all_permit certs usage

-- Whether a usage of the list is permitted by all.
unfoldable pub any_permitted : List UsageCertificate → List ℕ → Bool
any_permitted certs [] = false
any_permitted certs (usage ∷ usages) = all_permit certs usage || any_permitted certs usages

has_any-lists : (listed : List ℕ) → has_any listed ≡ lists listed 0
unfolding has_any lists
has_any-lists [] = refl
has_any-lists (u ∷ listed) = elim (Bool-cases (u == 0)) [
  | inl e ↦ rw e refl
  | inr e ↦ rw e (has_any-lists listed)
]

empty_length : {A : Type 0} (xs : List A) → (length xs == 0) ≡ is_empty xs
unfolding is_empty
empty_length [] = refl
empty_length (x ∷ xs) = ground arith

if_or : (b c : Bool) → (if b then true else c) ≡ (b || c)
if_or true c = refl
if_or false c = refl

unrestricted_lem :
    (cert : UsageCertificate)
    → unrestricted cert ≡ (
        (is_empty cert.ext_key_usage && is_empty cert.unknown_ext_key_usage)
        || lists cert.ext_key_usage 0)
unfolding unrestricted
unrestricted_lem cert =
    if_or (length cert.ext_key_usage == 0 && length cert.unknown_ext_key_usage == 0)
      (has_any cert.ext_key_usage)
    ∙ ap₂ ◌||◌
        (ap₂ ◌&&◌ (empty_length cert.ext_key_usage) (empty_length cert.unknown_ext_key_usage))
        (has_any-lists cert.ext_key_usage)

-- A turn of the innermost loop in Boolean terms.
turn_or :
    (a o n m l l10 l11 : Bool)
    → (if a then true else if o && (n || m) then true else (l || (o && (l10 || l11))))
      ≡ ((a || l) || (o && ((m || l10) || (n || l11))))
turn_or true o n m l l10 l11 = refl
turn_or false false n m l l10 l11 = refl
turn_or false true true m true l10 l11 = refl
turn_or false true true true false l10 l11 = refl
turn_or false true true false false true l11 = refl
turn_or false true true false false false l11 = refl
turn_or false true false true true l10 l11 = refl
turn_or false true false true false l10 l11 = refl
turn_or false true false false l l10 l11 = refl

==_sym : (m n : ℕ) → (m == n) ≡ (n == m)
==_sym m n = ground arith

supports-lists :
    (listed : List ℕ) (usage : ℕ)
    → supports listed usage
      ≡ (lists listed usage || ((usage == 1) && (lists listed 10 || lists listed 11)))
unfolding supports lists
supports-lists [] usage = elim (Bool-cases (usage == 1)) [ inl e ↦ rw e refl | inr e ↦ rw e refl ]
supports-lists (u ∷ listed) usage =
    rw (supports-lists listed usage, ==_sym usage u)
      (turn_or (u == usage) (usage == 1) (u == 11) (u == 10) (lists listed usage) (lists listed 10)
        (lists listed 11))

-- The tests of the code are those of `permits`.
abbrev pub accepts : UsageCertificate → ℕ → Bool
accepts cert usage = unrestricted cert || supports cert.ext_key_usage usage

accepts-permits : (cert : UsageCertificate) (usage : ℕ) → accepts cert usage ≡ permits cert usage
unfolding permits
accepts-permits cert usage =
    ap₂ ◌||◌ (unrestricted_lem cert) (supports-lists cert.ext_key_usage usage)

unfoldable pub all_accept : List UsageCertificate → ℕ → Bool
all_accept [] usage = true
all_accept (cert ∷ certs) usage = accepts cert usage && all_accept certs usage

-- Whether a usage that is left is accepted by all.
unfoldable pub any_accepted : List UsageCertificate → List (Option ℕ) → Bool
any_accepted certs [] = false
any_accepted certs (none ∷ usages) = any_accepted certs usages
any_accepted certs (some usage ∷ usages) = all_accept certs usage || any_accepted certs usages

all_accept-all_permit :
    (certs : List UsageCertificate) (usage : ℕ) → all_accept certs usage ≡ all_permit certs usage
unfolding all_accept all_permit
all_accept-all_permit [] usage = refl
all_accept-all_permit (cert ∷ certs) usage =
    ap₂ ◌&&◌ (accepts-permits cert usage) (all_accept-all_permit certs usage)

pub any_accepted-any_permitted :
    (certs : List UsageCertificate) (usages : List ℕ)
    → any_accepted certs (map (λ u. some u) usages) ≡ any_permitted certs usages
unfolding any_accepted any_permitted
any_accepted-any_permitted certs [] = refl
any_accepted-any_permitted certs (usage ∷ usages) =
    ap₂ ◌||◌ (all_accept-all_permit certs usage) (any_accepted-any_permitted certs usages)
