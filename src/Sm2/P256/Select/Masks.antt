-- ===== src/Sm2/P256/Select/Masks.antt =====
-- The masks of sm2/p256.go choose: a copy is made or not, and an entry is added or not.
use gmsm.Common.{
  ℕ, ◌<◌, ◌≡◌, refl, sym, ap, ap₂, ◌∙◌, bit_and, bit_or, bit_xor, ◌==◌, ==_iff, if◌then◌else◌, List,
  [], ◌∷◌, length, All, arith, Bool, true, false, all_below, all_below_sound, IsWord, xor_comm,
  xor_cancel, xor-zero, xor-lt, or_zero, zero_or, and_zero, zero_and, mask_and, and_mask,
}
use gmsm.Sm2.Field.{sub32}
use gmsm.Sm2.Field.Arrays.{IsArray}
use gmsm.Sm2.P256.Select.{copy_conditional, equality_mask, or_masked, zeros}

copied_word : (o i : ℕ) → IsWord o → IsWord i → bit_xor o (bit_and 0xffffffff (bit_xor i o)) ≡ i
copied_word o i ho hi =
    let kept : bit_and 0xffffffff (bit_xor i o) ≡ bit_xor i o =
      omega (arith, mask_and 32 (bit_xor i o), xor-lt 32 i o hi ho) in
    ap (bit_xor o) kept ∙ xor_comm o (bit_xor i o) ∙ xor_cancel i o

copy_every :
    (out input : List ℕ)
    → length out ≡ length input
    → All IsWord out
    → All IsWord input
    → copy_conditional out input 0xffffffff ≡ input
unfolding copy_conditional
copy_every [] [] size ho hi = refl
copy_every [] (i ∷ input) size ho hi = absurd (omega arith)
copy_every (o ∷ out) [] size ho hi = absurd (omega arith)
copy_every (o ∷ out) (i ∷ input) size (ho, hos) (hi, his) =
    ap₂ (λ (x : ℕ) (xs : List ℕ). x ∷ xs) (copied_word o i ho hi)
      (copy_every out input (omega arith) hos his)

copy_none : (out input : List ℕ) → copy_conditional out input 0 ≡ out
unfolding copy_conditional
copy_none [] input = refl
copy_none (o ∷ out) [] = refl
copy_none (o ∷ out) (i ∷ input) =
    ap₂ (λ (x : ℕ) (xs : List ℕ). x ∷ xs) (ap (bit_xor o) (zero_and (bit_xor i o)) ∙ xor-zero o)
      (copy_none out input)

-- For two arrays of nine words `sm2P256CopyConditional` leaves the second in the place of the first
-- where every bit of the mask is set, and the first where none is.
pub copy_conditional_choice :
    (out input : List ℕ) (b : Bool)
    → IsArray out
    → IsArray input
    → copy_conditional out input (if b then 0xffffffff else 0) ≡ (if b then input else out)
copy_conditional_choice out input true (size_o, ho) (size_i, hi) =
    copy_every out input (size_o ∙ sym size_i) ho hi
copy_conditional_choice out input false ho hi = copy_none out input

abbrev right : ℕ → ℕ → Bool
right m n = equality_mask m n == (if m == n then 0xffffffff else 0)

all_right : all_below 16 (λ (m : ℕ). all_below 16 (λ (n : ℕ). right m n)) ≡ true
unfolding all_below equality_mask sub32
all_right = refl

-- A mask of the loops, which try the numbers below 16.
pub equality_mask_choice :
    (i index : ℕ)
    → i < 16
    → index < 16
    → equality_mask i index ≡ (if i == index then 0xffffffff else 0)
equality_mask_choice i index hi hx =
    let row = all_below_sound 16 (λ (m : ℕ). all_below 16 (λ (n : ℕ). right m n)) i all_right hi in
    let one = all_below_sound 16 (λ (n : ℕ). right i n) index row hx in (==_iff _ _).0 one

pub or_none : (out table : List ℕ) → or_masked 0 out table ≡ out
unfolding or_masked
or_none [] table = refl
or_none (o ∷ out) [] = refl
or_none (o ∷ out) (t ∷ table) =
    ap₂ (λ (x : ℕ) (xs : List ℕ). x ∷ xs) (ap (bit_or o) (and_zero t) ∙ or_zero o)
      (or_none out table)

found_word : (t : ℕ) → IsWord t → bit_or 0 (bit_and t 0xffffffff) ≡ t
found_word t h = zero_or (bit_and t 0xffffffff) ∙ and_mask 32 t ∙ omega arith

pub or_all : (table : List ℕ) → IsArray table → or_masked 0xffffffff zeros table ≡ table
unfolding or_masked zeros
or_all (t0 ∷ t1 ∷ t2 ∷ t3 ∷ t4 ∷ t5 ∷ t6 ∷ t7 ∷ t8 ∷ [])
      (size, (h0, (h1, (h2, (h3, (h4, (h5, (h6, (h7, (h8, _)))))))))) =
    λ i.
      found_word t0 h0 i
      ∷ found_word t1 h1 i
      ∷ found_word t2 h2 i
      ∷ found_word t3 h3 i
      ∷ found_word t4 h4 i
      ∷ found_word t5 h5 i
      ∷ found_word t6 h6 i
      ∷ found_word t7 h7 i
      ∷ found_word t8 h8 i
      ∷ []
or_all _ (size, _) = absurd (omega arith)
