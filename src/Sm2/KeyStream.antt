-- ===== src/Sm2/KeyStream.antt =====
-- `kdf` of sm2/sm2.go against its definition: the hashes of the shared bytes with a counter behind
-- them, one after the other, cut to the length asked for.
use gmsm.Common.{
  ℕ, zero, suc, ◌+◌, ◌-◌, ◌*◌, ◌/◌, ◌%◌, ◌≤◌, ◌<◌, ◌≡◌, refl, ap, subst, ◌∙◌, List, [], ◌∷◌, ◌++◌,
  length, take, take_all, take-append_ge, length-append, length-take, arith, ◌==◌, if◌then◌else◌,
  Bool, true, false, not, dec_lt,
}
use gmsm.Common.{ok}
use mathlib.Core.List.{append_assoc, append-nil}
use gmsm.Sm3.Digest.{Sm3, new, reset, sum}
use gmsm.Sm3.Spec.{hash}
use gmsm.Sm3.Refinement.{reset-taken, sum-taken, finished}
use gmsm.Sm2.Curve.{Sm2Error}
use gmsm.Sm2.Hash.{written}
use gmsm.Sm2.Identity.{written-taken, hash-length}
use gmsm.Sm2.Encryption.{int_to_bytes, kdf_loop, any_set, kdf}

-- The hashes for the counters from `ct` on.
unfoldable pub key_stream : ℕ → ℕ → List ℕ → List ℕ
key_stream zero ct z = []
key_stream (suc n) ct z = hash (z ++ int_to_bytes ct) ++ key_stream n (ct + 1) z

-- Whether a byte is not zero.
unfoldable pub nonzero : List ℕ → Bool
nonzero [] = false
nonzero (x ∷ xs) = if not (x == 0) then true else nonzero xs

sum_block :
    (h : Sm3) (x more : List ℕ)
    → sum {E = Sm2Error} (written (written (reset h) x) more) []
      ≡ ok (finished (x ++ more), hash (x ++ more))
sum_block h x more =
    rw
      (
        reset-taken,
        written-taken [] x,
        written-taken x more,
        sum-taken (x ++ more) [],
        append-nil (x ++ more),
      )
      refl

last_block :
    (len rest ct : ℕ) (h : Sm3) (x c : List ℕ)
    → 1 ≤ rest
    → rest ≤ 32
    → rest % 32 ≡ len % 32
    → kdf_loop 1 len ct h x c ≡ ok (c ++ take rest (key_stream 1 ct x))
unfolding kdf_loop key_stream
last_block len rest ct h x c low high same =
    let block = hash (x ++ int_to_bytes ct) in
    elim (dec_lt rest 32) [
      | yes short ↦
          let cut : len % 32 ≡ rest = omega arith in
          let some_left : (rest == 0) ≡ false = ground arith in
          rw (sum_block h x (int_to_bytes ct), cut, some_left, append-nil block) refl
      | no whole ↦
          let none_left : len % 32 ≡ 0 = omega arith in
          rw
            (
              sum_block h x (int_to_bytes ct),
              none_left,
              append-nil block,
              take_all rest block (omega (arith, hash-length (x ++ int_to_bytes ct))),
            )
            refl
    ]

kdf_loop-key_stream :
    (rounds len rest ct : ℕ) (h : Sm3) (x c : List ℕ)
    → rest ≤ rounds * 32
    → rounds * 32 < rest + 32
    → rest % 32 ≡ len % 32
    → kdf_loop rounds len ct h x c ≡ ok (c ++ take rest (key_stream rounds ct x))
unfolding kdf_loop key_stream
kdf_loop-key_stream zero len rest ct h x c low high same =
    let none_left : rest ≡ 0 = omega arith in rw (none_left, append-nil c) refl
kdf_loop-key_stream (suc zero) len rest ct h x c low high same =
    last_block len rest ct h x c (omega arith) (omega arith) same
kdf_loop-key_stream (suc (suc rounds)) len rest ct h x c low high same =
    let block = hash (x ++ int_to_bytes ct) in
    let more : (suc rounds == 0) ≡ false = ground arith in
    let split : take rest (block ++ key_stream (suc rounds) (ct + 1) x)
        ≡ block ++ take (rest - 32) (key_stream (suc rounds) (ct + 1) x) =
      take-append_ge rest (rest - 32) block (key_stream (suc rounds) (ct + 1) x)
        (omega (arith, hash-length (x ++ int_to_bytes ct))) in
    rw (sum_block h x (int_to_bytes ct), more, split)
      (kdf_loop-key_stream (suc rounds) len (rest - 32) (ct + 1) _ x (c ++ block) (omega arith)
          (omega arith) (omega arith)
        ∙ ap ok (append_assoc c block _))

length-key_stream : (n ct : ℕ) (z : List ℕ) → length (key_stream n ct z) ≡ n * 32
unfolding key_stream
length-key_stream zero ct z = refl
length-key_stream (suc n) ct z = omega (
  arith,
  length-append (hash (z ++ int_to_bytes ct)) (key_stream n (ct + 1) z),
  hash-length (z ++ int_to_bytes ct),
  length-key_stream n (ct + 1) z,
)

any_set-nonzero : (c : List ℕ) → any_set (length c) c ≡ ok (nonzero c)
unfolding any_set nonzero
any_set-nonzero [] = refl
any_set-nonzero (zero ∷ c) = any_set-nonzero c
any_set-nonzero (suc x ∷ c) = let taken : (suc x == 0) ≡ false = ground arith in rw taken refl

-- The first `len` bytes of the hashes of `z` with the counters 1, 2 and so on.
unfoldable pub stream : ℕ → List ℕ → List ℕ
stream len z = take len (key_stream ((len + 31) / 32) 1 z)

pub length-stream : (len : ℕ) (z : List ℕ) → length (stream len z) ≡ len
unfolding stream
length-stream len z = omega (
  arith,
  length-take len (key_stream ((len + 31) / 32) 1 z),
  length-key_stream ((len + 31) / 32) 1 z,
)

-- For every length `kdf` answers that many bytes of the hashes of its two arguments with the
-- counters from 1 on, and whether one of these bytes is not zero.
pub kdf-stream :
    (x y : List ℕ) (len : ℕ) → kdf x y len ≡ ok (stream len (x ++ y), nonzero (stream len (x ++ y)))
unfolding kdf stream
kdf-stream x y len =
    let z = x ++ y in
    let bytes = take len (key_stream ((len + 31) / 32) 1 z) in
    let size : length bytes ≡ len = length-stream len z in
    rw
      (
        kdf_loop-key_stream ((len + 31) / 32) len len 1 new z [] (omega arith) (omega arith) refl,
        (subst (λ (n : ℕ). any_set n bytes ≡ ok (nonzero bytes)) size (any_set-nonzero bytes)),
      )
      refl
