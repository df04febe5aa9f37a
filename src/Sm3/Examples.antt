-- ===== src/Sm3/Examples.antt =====
-- The theorems about the hash at concrete inputs.
use gmsm.Common.{ℕ, ◌%◌, ◌≡◌, List, [], ◌∷◌, ◌++◌, length}
use gmsm.Common.{ok}
use mathlib.Core.List.{flatten}
use gmsm.Sm3.Digest.{Sm3, new, reset, zero_value, pad, write, sum, sm3_sum}
use gmsm.Sm3.Padding.{padded, pad-padded}
use gmsm.Sm3.Spec.{hash, taken}
use gmsm.Sm3.Refinement.{write_all, finished, sum-taken, sm3_sum-hash, sum-write_all}
use gmsm.Sm3.Invariant.{fresh, wrote, IsValid, Reach-IsValid}

abbrev text : List ℕ
text = b'a' ∷ b'b' ∷ b'c' ∷ []

sum-write_all_example :
    (final : Sm3) × (sum {E = ⊥} (write_all (reset zero_value) (text ∷ text ∷ [])) []
      ≡ ok (final, hash (flatten (text ∷ text ∷ []))))
sum-write_all_example = sum-write_all zero_value (text ∷ text ∷ [])

sum-taken_example :
    sum {E = ⊥} (taken text) text ≡ ok (finished (text ++ text), hash (text ++ text))
sum-taken_example = sum-taken text text

sm3_sum-hash_example : sm3_sum {E = ⊥} text ≡ ok (hash text)
sm3_sum-hash_example = sm3_sum-hash text

pad-padded_example :
    (pad {E = ⊥} (taken text) ≡ ok (padded (taken text).unhandle_msg (taken text).length))
    × (length (padded (taken text).unhandle_msg (taken text).length) % 64 ≡ 0)
pad-padded_example = pad-padded (taken text)

Reach-IsValid_example : IsValid (write new text).0
Reach-IsValid_example = Reach-IsValid (wrote text fresh)
