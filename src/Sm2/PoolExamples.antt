-- ===== src/Sm2/PoolExamples.antt =====
-- The theorems about the certificate pool and the key usages at concrete inputs.
use gmsm.Common.{
  ◌<◌, ◌↔◌, ◌⊎◌, true, ap, arith, ℕ, ◌≡◌, refl, List, [], ◌∷◌, All, Bool, false, Option, none, some,
  if◌then◌else◌, length, ◌==◌, ◌||◌,
}
use mathlib.Core.List.{reverse}
use gmsm.Sm2.KeyUsage.{UsageCertificate, check_chain_for_key_usage}
use gmsm.Sm2.KeyUsage.Permits.{any_permitted}
use gmsm.Sm2.KeyUsage.Chain.{check_chain_for_key_usage-any_permitted}
use gmsm.Common.{ok}
use gmsm.Sm2.Encryption.{equal_bytes}
use gmsm.Sm2.CertPool.{
  Certificate, CertPool, new_cert_pool, contains_loop, contains, add_new, add_cert, Found,
  find_verified_parents,
}
use gmsm.Sm2.CertPool.Indexed.{IsIndexed, Reach, fresh, added, Reach-IsIndexed}
use gmsm.Sm2.CertPool.Pem.{Block, certificate_type, append_loop, append_certs_from_pem}
use gmsm.Sm2.CertPool.Pem.Added.{append_loop_enough}
use gmsm.Sm2.CertPool.Pem.Held.{HoldsCertificate, append_certs_from_pem_iff}
use gmsm.Sm2.Hostnames.{trim_dot, onto_first, split_dots, match_parts, match_hostnames}
use gmsm.Sm2.Hostnames.Match.{Wildcard, match_hostnames_iff}
use gmsm.Sm2.CertPool.Parents.{Signs, find_verified_parents-Signs}

abbrev root : Certificate
root = record {
  raw = 1 ∷ 2 ∷ [];
  raw_subject = 7 ∷ [];
  raw_issuer = 7 ∷ [];
  subject_key_id = 9 ∷ [];
  authority_key_id = [];
}

abbrev leaf : Certificate
leaf = record {
  raw = 3 ∷ [];
  raw_subject = 8 ∷ [];
  raw_issuer = 7 ∷ [];
  subject_key_id = [];
  authority_key_id = 9 ∷ [];
}

abbrev pool : CertPool
pool = add_new new_cert_pool root

pool_made : add_cert {E = ⊥} new_cert_pool (some root) ≡ ok pool
unfolding add_cert contains contains_loop new_cert_pool
pool_made = refl

pool_reached : Reach pool
pool_reached = added (some root) fresh pool_made

Reach-IsIndexed_example : IsIndexed pool
Reach-IsIndexed_example = Reach-IsIndexed (added (some root) fresh pool_made)

pool-IsIndexed : IsIndexed pool
pool-IsIndexed = Reach-IsIndexed pool_reached

-- A check that takes the root alone for a signer.
abbrev signed_by_root : Certificate → Certificate → Option Bool
signed_by_root cert parent = if equal_bytes parent.raw root.raw then none else some false

find_verified_parents-Signs_example :
    (found : Found Bool) × (find_verified_parents signed_by_root (some pool) leaf ≡ ok found)
    × All (Signs signed_by_root pool.certs leaf) found.parents
find_verified_parents-Signs_example =
    find_verified_parents-Signs signed_by_root pool leaf pool-IsIndexed

abbrev web_server : UsageCertificate
web_server = record { ext_key_usage = 1 ∷ 2 ∷ []; unknown_ext_key_usage = [] }

abbrev gated : UsageCertificate
gated = record { ext_key_usage = 10 ∷ []; unknown_ext_key_usage = [] }

check_chain_for_key_usage-any_permitted_example :
    check_chain_for_key_usage (web_server ∷ gated ∷ []) (2 ∷ 1 ∷ []) ≡ (
      if length (web_server ∷ gated ∷ []) == 0
      then false
      else (length {A = ℕ} (2 ∷ 1 ∷ []) == 0)
        || any_permitted (reverse (web_server ∷ gated ∷ [])) (2 ∷ 1 ∷ []))
check_chain_for_key_usage-any_permitted_example =
    check_chain_for_key_usage-any_permitted (web_server ∷ gated ∷ []) (2 ∷ 1 ∷ [])

-- Every byte of a text is a block, which holds the root.
one_block : List ℕ → Option (Block × List ℕ)
one_block [] = none
one_block (c ∷ rest) =
    some (record { block_type = certificate_type; headers = 0; bytes = c ∷ [] }, rest)

parse_root : List ℕ → Option Certificate
parse_root bytes = some root

abbrev two_blocks : List ℕ
two_blocks = 1 ∷ 2 ∷ []

rest_of : Option (Block × List ℕ) → List ℕ
rest_of none = []
rest_of (some (block, rest)) = rest

one_block_shorter :
    (text : List ℕ) (block : Block) (rest : List ℕ)
    → one_block text ≡ some (block, rest)
    → length rest < length text
unfolding one_block rest_of
one_block_shorter [] block rest h = cc
one_block_shorter (c ∷ text) block rest h = omega (arith, ap (λ o. length (rest_of o)) h)

append_certs_from_pem_iff_example :
    (t : CertPool) × (found : Bool) × (append_certs_from_pem one_block parse_root {E = ⊥} pool
        two_blocks
      ≡ ok (t, found))
    × IsIndexed t
    × ((cert : Certificate)
        → HoldsCertificate one_block parse_root two_blocks cert
        → (contains {E = ⊥} (some t) cert ≡ ok true) × (found ≡ true))
    × (found ≡ true → (cert : Certificate) × HoldsCertificate one_block parse_root two_blocks cert)
append_certs_from_pem_iff_example =
    append_certs_from_pem_iff one_block parse_root one_block_shorter {E = ⊥} pool two_blocks
      pool-IsIndexed

append_loop_enough_example :
    append_loop one_block parse_root {E = ⊥} 2 pool two_blocks false
    ≡ append_loop one_block parse_root 7 pool two_blocks false
append_loop_enough_example =
    append_loop_enough one_block parse_root one_block_shorter {E = ⊥} 2 7 pool two_blocks false
      (omega arith) (omega arith)

-- "*.a" and "b.a."
abbrev star_a : List ℕ
star_a = 42 ∷ 46 ∷ 97 ∷ []

abbrev b_a : List ℕ
b_a = 98 ∷ 46 ∷ 97 ∷ 46 ∷ []

match_hostnames_iff_example : (match_hostnames star_a b_a ≡ true) ↔ (
    (0 < length (trim_dot star_a))
    × (0 < length (trim_dot b_a))
    × ((trim_dot star_a ≡ trim_dot b_a) ⊎ Wildcard (trim_dot star_a) (trim_dot b_a)))
match_hostnames_iff_example = match_hostnames_iff star_a b_a

-- The star stands for one label.
matched_label : match_hostnames star_a b_a ≡ true
unfolding match_hostnames trim_dot split_dots onto_first match_parts equal_bytes
matched_label = refl

two_labels : match_hostnames star_a (98 ∷ 46 ∷ b_a) ≡ false
unfolding match_hostnames trim_dot split_dots onto_first match_parts equal_bytes
two_labels = refl
