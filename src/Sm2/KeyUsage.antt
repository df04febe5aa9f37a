-- ===== src/Sm2/KeyUsage.antt =====
-- sm2/verify.go: `checkChainForKeyUsage`, with the usages of sm2/x509.go by their numbers. A usage
-- that has been crossed out (`invalidUsage`) is `none`.
pub mod Permits
pub mod Chain
use gmsm.Common.{
  ℕ, zero, suc, ◌+◌, ◌-◌, List, [], ◌∷◌, length, ◌==◌, if◌then◌else◌, Bool, true, false, ◌&&◌, ◌||◌,
  Option, none, some, map,
}
use mathlib.Core.List.{reverse}

abbrev pub ext_key_usage_any : ℕ
ext_key_usage_any = 0

abbrev pub ext_key_usage_server_auth : ℕ
ext_key_usage_server_auth = 1

abbrev pub ext_key_usage_microsoft_server_gated_crypto : ℕ
ext_key_usage_microsoft_server_gated_crypto = 10

abbrev pub ext_key_usage_netscape_server_gated_crypto : ℕ
ext_key_usage_netscape_server_gated_crypto = 11

-- The usages of a certificate, and the object identifiers of those that are not known.
pub record UsageCertificate : Type 0 where
  pub ext_key_usage : List ℕ
  pub unknown_ext_key_usage : List (List ℕ)

-- The loop that looks for `ExtKeyUsageAny`.
unfoldable pub has_any : List ℕ → Bool
has_any [] = false
has_any (usage ∷ rest) = if usage == ext_key_usage_any then true else has_any rest

-- Whether the code goes on with the next certificate at once.
unfoldable pub unrestricted : UsageCertificate → Bool
unrestricted cert =
    if length cert.ext_key_usage == 0 && length cert.unknown_ext_key_usage == 0
    then true
    else has_any cert.ext_key_usage

-- The innermost loop: whether a usage of the certificate serves for the one requested.
unfoldable pub supports : List ℕ → ℕ → Bool
supports [] requested = false
supports (usage ∷ rest) requested =
    if requested == usage
    then true
    else if requested == ext_key_usage_server_auth
        && (usage == ext_key_usage_netscape_server_gated_crypto
            || usage == ext_key_usage_microsoft_server_gated_crypto)
    then true
    else supports rest requested

-- A usage in front of the result of the loop behind it.
unfoldable pub behind : Option ℕ → Option (List (Option ℕ) × ℕ) → Option (List (Option ℕ) × ℕ)
behind usage none = none
behind usage (some (left, n)) = some (usage ∷ left, n)

-- The loop over the requested usages: those left and their number, or nothing where none remains
-- and the code returns.
unfoldable pub cross_out : List ℕ → List (Option ℕ) → ℕ → Option (List (Option ℕ) × ℕ)
cross_out usages [] remaining = some ([], remaining)
cross_out usages (none ∷ rest) remaining = behind none (cross_out usages rest remaining)
cross_out usages (some requested ∷ rest) remaining =
    let kept = cross_out usages rest remaining in
    let crossed = cross_out usages rest (remaining - 1) in
    if supports usages requested
    then behind (some requested) kept
    else if remaining - 1 == 0
    then none
    else behind none crossed

-- The walk over the certificates, the last one of the chain first.
unfoldable pub walk : List UsageCertificate → List (Option ℕ) → ℕ → Bool
walk [] usages remaining = true
walk (cert ∷ certs) usages remaining =
    if unrestricted cert
    then walk certs usages remaining
    else (elim (cross_out cert.ext_key_usage usages remaining) [
      | none ↦ false
      | some (left, n) ↦ walk certs left n
    ])

unfoldable pub check_chain_for_key_usage : List UsageCertificate → List ℕ → Bool
check_chain_for_key_usage chain key_usages =
    let accepted = walk (reverse chain) (map (λ u. some u) key_usages) (length key_usages) in
    if length chain == 0 then false else accepted
