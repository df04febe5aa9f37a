-- ===== src/Sm4/Linear.antt =====
-- The four tables of sm4/sm4.go are the S-box followed by the standard's linear map, one table for
-- each byte of the word, and so one look-up in each does what the standard does in two steps.
use gmsm.Common.{
  ℕ, ◌*◌, ◌/◌, ◌%◌, ◌^◌, ◌<◌, bit_xor, bit_and, rotl, rotl-lt, rotl-xor, xor-lt, and_mask, ◌≡◌,
  refl, ap, ◌∙◌, List, [], ◌∷◌, ◌==◌, ==_iff, all_below, all_below_sound, IsWord, IsByte, ltb,
  ltb→lt, true, arith,
}
use gmsm.Common.{var, ◌⊕◌, parity, xor_solve}
use gmsm.Sm4.Tables.{sbox, sbox0, sbox1, sbox2, sbox3}
use gmsm.Sm4.Cipher.{p, mix, table_at}
use gmsm.Sm4.Spec.{linear, spread}

pub linear-IsWord : (b : ℕ) → IsWord b → IsWord (linear b)
unfolding linear
linear-IsWord b h =
    xor-lt 32 _ _
      (xor-lt 32 _ _
        (xor-lt 32 _ _ (xor-lt 32 _ _ h (rotl-lt 2 30 (omega arith) b h))
          (rotl-lt 10 22 (omega arith) b h))
        (rotl-lt 18 14 (omega arith) b h))
      (rotl-lt 24 8 (omega arith) b h)

pub linear-xor :
    (a b : ℕ) → IsWord a → IsWord b → linear (bit_xor a b) ≡ bit_xor (linear a) (linear b)
unfolding linear parity
linear-xor a b ha hb =
    rw
      (
        rotl-xor 2 30 (omega arith) a b ha hb,
        rotl-xor 10 22 (omega arith) a b ha hb,
        rotl-xor 18 14 (omega arith) a b ha hb,
        rotl-xor 24 8 (omega arith) a b ha hb,
      )
      (xor_solve
        (a
          ∷ b
          ∷ rotl a 2
          ∷ rotl b 2
          ∷ rotl a 10
          ∷ rotl b 10
          ∷ rotl a 18
          ∷ rotl b 18
          ∷ rotl a 24
          ∷ rotl b 24
          ∷ [])
        (var 0 ⊕ var 1 ⊕ (var 2 ⊕ var 3) ⊕ (var 4 ⊕ var 5) ⊕ (var 6 ⊕ var 7) ⊕ (var 8 ⊕ var 9))
        (var 0 ⊕ var 2 ⊕ var 4 ⊕ var 6 ⊕ var 8 ⊕ (var 1 ⊕ var 3 ⊕ var 5 ⊕ var 7 ⊕ var 9)) refl)

-- Every entry of each table, by evaluation.
table0_checked : all_below 256 (λ i. table_at sbox0 i == linear (table_at sbox i * 2 ^ 0)) ≡ true
unfolding all_below sbox sbox0 linear
table0_checked = refl

table1_checked : all_below 256 (λ i. table_at sbox1 i == linear (table_at sbox i * 2 ^ 8)) ≡ true
unfolding all_below sbox sbox1 linear
table1_checked = refl

table2_checked : all_below 256 (λ i. table_at sbox2 i == linear (table_at sbox i * 2 ^ 16)) ≡ true
unfolding all_below sbox sbox2 linear
table2_checked = refl

table3_checked : all_below 256 (λ i. table_at sbox3 i == linear (table_at sbox i * 2 ^ 24)) ≡ true
unfolding all_below sbox sbox3 linear
table3_checked = refl

entry :
    (t : List ℕ) (k i : ℕ)
    → all_below 256 (λ j. table_at t j == linear (table_at sbox j * 2 ^ k)) ≡ true
    → i < 256
    → table_at t i ≡ linear (table_at sbox i * 2 ^ k)
entry t k i checked h =
    (==_iff _ _).0
      (all_below_sound 256 (λ j. table_at t j == linear (table_at sbox j * 2 ^ k)) i checked h)

sbox_checked : all_below 256 (λ i. ltb (table_at sbox i) 256) ≡ true
unfolding all_below sbox
sbox_checked = refl

pub sbox-IsByte : (i : ℕ) → i < 256 → IsByte (table_at sbox i)
sbox-IsByte i h = ltb→lt _ _ (all_below_sound 256 (λ j. ltb (table_at sbox j) 256) i sbox_checked h)

-- The S-box of byte `k` of `x`, in its place.
abbrev box : ℕ → ℕ
box i = table_at sbox (i % 2 ^ 8)

box-IsByte : (i : ℕ) → IsByte (box i)
box-IsByte i = sbox-IsByte (i % 2 ^ 8) (omega arith)

abbrev boxes : ℕ → ℕ
boxes x =
    bit_xor
      (bit_xor (bit_xor (box (x / 2 ^ 24) * 2 ^ 24) (box (x / 2 ^ 16) * 2 ^ 16))
        (box (x / 2 ^ 8) * 2 ^ 8))
      (box x * 2 ^ 0)

p-boxes : (x : ℕ) → IsWord x → p x ≡ boxes x
unfolding p
p-boxes x h =
    let top : x / 2 ^ 24 ≡ x / 2 ^ 24 % 2 ^ 8 = omega arith in
    let last : box x ≡ box x * 2 ^ 0 = omega arith in
    cc (top, last, and_mask 8 (x / 2 ^ 16), and_mask 8 (x / 2 ^ 8), and_mask 8 x)

pub p-IsWord : (x : ℕ) → IsWord x → IsWord (p x)
p-IsWord x h = rw (p-boxes x h) (
    xor-lt 32 _ _
      (xor-lt 32 _ _
        (xor-lt 32 _ _ (omega (arith, box-IsByte (x / 2 ^ 24)))
          (omega (arith, box-IsByte (x / 2 ^ 16))))
        (omega (arith, box-IsByte (x / 2 ^ 8))))
      (omega (arith, box-IsByte x)))

looked_up :
    (x : ℕ)
    → (table_at sbox0 (bit_and x 0xff) ≡ linear (box x * 2 ^ 0))
      × (table_at sbox1 (bit_and (x / 2 ^ 8) 0xff) ≡ linear (box (x / 2 ^ 8) * 2 ^ 8))
      × (table_at sbox2 (bit_and (x / 2 ^ 16) 0xff) ≡ linear (box (x / 2 ^ 16) * 2 ^ 16))
      × (table_at sbox3 (bit_and (x / 2 ^ 24) 0xff) ≡ linear (box (x / 2 ^ 24) * 2 ^ 24))
looked_up x = (
  rw (and_mask 8 x) (entry sbox0 0 (x % 2 ^ 8) table0_checked (omega arith)),
  rw (and_mask 8 (x / 2 ^ 8)) (entry sbox1 8 (x / 2 ^ 8 % 2 ^ 8) table1_checked (omega arith)),
  rw (and_mask 8 (x / 2 ^ 16)) (entry sbox2 16 (x / 2 ^ 16 % 2 ^ 8) table2_checked (omega arith)),
  rw (and_mask 8 (x / 2 ^ 24)) (entry sbox3 24 (x / 2 ^ 24 % 2 ^ 8) table3_checked (omega arith)),
)

linear-boxes :
    (x : ℕ)
    → linear (boxes x)
      ≡ bit_xor
          (bit_xor
            (bit_xor (linear (box (x / 2 ^ 24) * 2 ^ 24)) (linear (box (x / 2 ^ 16) * 2 ^ 16)))
            (linear (box (x / 2 ^ 8) * 2 ^ 8)))
          (linear (box x * 2 ^ 0))
linear-boxes x =
    let h3 : IsWord (box (x / 2 ^ 24) * 2 ^ 24) = omega (arith, box-IsByte (x / 2 ^ 24)) in
    let h2 : IsWord (box (x / 2 ^ 16) * 2 ^ 16) = omega (arith, box-IsByte (x / 2 ^ 16)) in
    let h1 : IsWord (box (x / 2 ^ 8) * 2 ^ 8) = omega (arith, box-IsByte (x / 2 ^ 8)) in
    let h0 : IsWord (box x * 2 ^ 0) = omega (arith, box-IsByte x) in
    linear-xor _ _ (xor-lt 32 _ _ (xor-lt 32 _ _ h3 h2) h1) h0
    ∙ ap (λ (t : ℕ). bit_xor t (linear (box x * 2 ^ 0)))
        (linear-xor _ _ (xor-lt 32 _ _ h3 h2) h1
          ∙ ap (λ (t : ℕ). bit_xor t (linear (box (x / 2 ^ 8) * 2 ^ 8))) (linear-xor _ _ h3 h2))

-- One look-up in each of the four tables, as `cryptBlock` does it for a word `x`, adds to `w` the
-- linear map of the S-boxes of the four bytes of `x`.
pub mix-spread : (w x : ℕ) → IsWord x → mix w x ≡ bit_xor w (spread x)
unfolding mix spread parity
mix-spread w x h =
    let (e0, e1, e2, e3) = looked_up x in
    rw (e0, e1, e2, e3, p-boxes x h, linear-boxes x)
      (xor_solve
        (w
          ∷ linear (box x * 2 ^ 0)
          ∷ linear (box (x / 2 ^ 8) * 2 ^ 8)
          ∷ linear (box (x / 2 ^ 16) * 2 ^ 16)
          ∷ linear (box (x / 2 ^ 24) * 2 ^ 24)
          ∷ [])
        (var 0 ⊕ var 1 ⊕ var 2 ⊕ var 3 ⊕ var 4) (var 0 ⊕ (var 4 ⊕ var 3 ⊕ var 2 ⊕ var 1)) refl)
