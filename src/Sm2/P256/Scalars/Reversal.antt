-- ===== src/Sm2/P256/Scalars/Reversal.antt =====
-- `sm2P256GetScalar` keeps the number that a scalar's bytes stand for.
use gmsm.Common.{
  ℕ, zero, suc, ◌+◌, ◌-◌, ◌*◌, ◌%◌, ◌^◌, ◌≤◌, ◌<◌, ◌≡◌, ◌⊎◌, inl, inr, refl, sym, ap, ◌∙◌, List, [],
  ◌∷◌, ◌++◌, foldl, length, replicate, arith, leb-true, leb-false, ltb, ltb-true, ltb-false, Bool,
  if◌then◌else◌, Option, none, some, from_bytes, to_bytes, from_bytes-to_bytes, length-to_bytes,
  length-append, length-replicate, to_bytes-IsBytes, All-append, IsByte, IsBytes, dec_lt,
}
use native.Mathlib.Nat.{mod-eq_of_lt, mul_assoc, pow-suc, pow-zero}
use gmsm.Sm2.P256.Scalars.{curve_order, reversed, get_scalar}

-- The number that bytes stand for, the lowest first.
unfoldable pub from_little : List ℕ → ℕ
from_little [] = 0
from_little (b ∷ bytes) = b + 256 * from_little bytes

from_little-append :
    (xs ys : List ℕ) → from_little (xs ++ ys) ≡ from_little xs + 256 ^ length xs * from_little ys
unfolding from_little
from_little-append [] ys = omega (arith, pow-zero 256)
from_little-append (x ∷ xs) ys = omega (
  arith,
  from_little-append xs ys,
  pow-suc 256 (length xs),
  mul_assoc 256 (256 ^ length xs) (from_little ys),
  ap (λ (t : ℕ). t * from_little ys) (pow-suc 256 (length xs)),
)

from_little-zeros : (n : ℕ) → from_little (replicate n 0) ≡ 0
unfolding from_little
from_little-zeros zero = refl
from_little-zeros (suc n) = omega (arith, from_little-zeros n)

length-reversed : (bytes : List ℕ) → length (reversed bytes) ≡ length bytes
unfolding reversed
length-reversed [] = refl
length-reversed (v ∷ bytes) =
    omega (arith, length-append (reversed bytes) (v ∷ []), length-reversed bytes)

reversed-IsBytes : (bytes : List ℕ) → IsBytes bytes → IsBytes (reversed bytes)
unfolding reversed
reversed-IsBytes [] h = tt
reversed-IsBytes (v ∷ bytes) (hv, h) =
    All-append IsByte (reversed bytes) (v ∷ []) (reversed-IsBytes bytes h) (hv, tt)

zeros-IsBytes : (n : ℕ) → IsBytes (replicate n 0)
zeros-IsBytes zero = tt
zeros-IsBytes (suc n) = (omega arith, zeros-IsBytes n)

folded :
    (acc : ℕ) (bytes : List ℕ)
    → foldl (λ (t : ℕ) (b : ℕ). t * 256 + b) acc bytes
      ≡ acc * 256 ^ length bytes + from_little (reversed bytes)
unfolding from_little reversed
folded acc [] = omega (arith, pow-zero 256)
folded acc (v ∷ bytes) =
    let power = 256 ^ length bytes in
    folded (acc * 256 + v) bytes
    ∙ omega (
      arith,
      from_little-append (reversed bytes) (v ∷ []),
      ap (λ (n : ℕ). 256 ^ n * (v + 256 * 0)) (length-reversed bytes),
      ap (λ (t : ℕ). acc * t) (pow-suc 256 (length bytes)),
      mul_assoc acc 256 power,
    )

from_little-reversed : (bytes : List ℕ) → from_little (reversed bytes) ≡ from_bytes bytes
unfolding from_bytes
from_little-reversed bytes = omega (arith, folded 0 bytes)

-- What the loop of `sm2P256GetScalar` leaves of at most 32 bytes.
padded :
    (bytes : List ℕ)
    → IsBytes bytes
    → length bytes ≤ 32
    → let all : List ℕ = reversed bytes ++ replicate (32 - length bytes) 0 in
      (length all ≡ 32) × IsBytes all × (from_little all ≡ from_bytes bytes)
padded bytes h low =
    let zs : List ℕ = replicate (32 - length bytes) 0 in
    (
      omega (
        arith,
        length-append (reversed bytes) zs,
        length-reversed bytes,
        length-replicate {A = ℕ} (32 - length bytes) 0,
      ),
      All-append IsByte (reversed bytes) zs (reversed-IsBytes bytes h)
          (zeros-IsBytes (32 - length bytes)),
      from_little-append (reversed bytes) zs
          ∙ ap (λ (t : ℕ). from_little (reversed bytes) + 256 ^ length (reversed bytes) * t)
              (from_little-zeros (32 - length bytes))
          ∙ omega (arith, from_little-reversed bytes),
    )

-- What `sm2P256GetScalar` makes of the bytes that it takes.
abbrev finish : List ℕ → Option (List ℕ)
finish bytes =
    if ltb 32 (length bytes) then none else some (reversed bytes ++ replicate (32 - length bytes) 0)

finished :
    (bytes : List ℕ)
    → length bytes ≤ 32
    → finish bytes ≡ some (reversed bytes ++ replicate (32 - length bytes) 0)
finished bytes low = rw (ltb-false 32 (length bytes) low) refl

-- For bytes, highest first, `sm2P256GetScalar` fills the array with 32 bytes, lowest first, that
-- stand for the number of the given bytes modulo the order of the base point, or it indexes the
-- array out of range, where there are more than 32 bytes and their number is below the order.
pub get_scalar_branches :
    (a : List ℕ)
    → IsBytes a
    → ((b : List ℕ) × (get_scalar a ≡ some b)
        × (length b ≡ 32)
        × IsBytes b
        × (from_little b ≡ from_bytes a % curve_order))
      ⊎ ((get_scalar a ≡ none) × (32 < length a) × (from_bytes a < curve_order))
unfolding get_scalar
get_scalar_branches a h =
    let n = from_bytes a in
    elim (dec_lt n curve_order) [
      | no not_lt ↦
          let large : curve_order ≤ n = omega arith in
          let bytes = to_bytes (n % curve_order) in
          let low : length bytes ≤ 32 = length-to_bytes 32 (n % curve_order) (omega arith) in
          let (size, all, same) = padded bytes (to_bytes-IsBytes (n % curve_order)) low in
          inl (
            reversed bytes ++ replicate (32 - length bytes) 0,
            ap (λ (b : Bool). finish (if b then bytes else a)) (leb-true curve_order n large)
                ∙ finished bytes low,
            size,
            all,
            same ∙ from_bytes-to_bytes (n % curve_order),
          )
      | yes small ↦
          let taken : get_scalar a ≡ finish a =
            ap (λ (b : Bool). finish (if b then to_bytes (n % curve_order) else a))
              (leb-false curve_order n small) in
          elim (dec_lt 32 (length a)) [
            | yes long ↦ inr (taken ∙ rw (ltb-true 32 (length a) long) refl, long, small)
            | no not_long ↦
                let low : length a ≤ 32 = omega arith in
                let (size, all, same) = padded a h low in
                inl (
                  reversed a ++ replicate (32 - length a) 0,
                  taken ∙ finished a low,
                  size,
                  all,
                  same ∙ sym (mod-eq_of_lt small),
                )
          ]
    ]
