-- ===== src/Sm4/Constants.antt =====
-- What the constants of sm4/sm4.go are for: the S-box is a permutation of the bytes, and byte `j`
-- of `ck[i]` is `7 * (4 * i + j)` modulo 256.
use gmsm.Common.{
  ℕ, suc, ◌+◌, ◌*◌, ◌%◌, ◌^◌, ◌<◌, ◌≡◌, refl, sym, ap, ◌∙◌, List, [], ◌∷◌, true, ◌==◌, ==_iff,
  all_below, all_below_sound,
}
use gmsm.Sm4.Tables.{sbox, ck}
use gmsm.Sm4.Cipher.{table_at}

-- Where `y` stands in a table.
position : List ℕ → ℕ → ℕ
position [] y = 0
position (x ∷ xs) y = elim (x == y) [ true ↦ 0 | _ ↦ suc (position xs y) ]

sbox_positions : all_below 256 (λ i. position sbox (table_at sbox i) == i) ≡ true
unfolding all_below sbox position
sbox_positions = refl

-- No two bytes have the same image under the S-box.
pub sbox_injective : (i j : ℕ) → i < 256 → j < 256 → table_at sbox i ≡ table_at sbox j → i ≡ j
sbox_injective i j hi hj e = sym (back i hi) ∙ ap (position sbox) e ∙ back j hj
  where
    back : (k : ℕ) → k < 256 → position sbox (table_at sbox k) ≡ k
    back k h =
        (==_iff _ _).0
          (all_below_sound 256 (λ i. position sbox (table_at sbox i) == i) k sbox_positions h)

abbrev pub ck_byte : ℕ → ℕ → ℕ
ck_byte i j = 7 * (4 * i + j) % 256

ck_checked :
    all_below 32 (λ i.
      table_at ck i
      == ck_byte i 0 * 2 ^ 24 + ck_byte i 1 * 2 ^ 16 + ck_byte i 2 * 2 ^ 8 + ck_byte i 3)
    ≡ true
unfolding all_below ck
ck_checked = refl

-- Each of the 32 constants of the key schedule follows the standard's rule: its byte `j` is
-- `7 * (4 * i + j)` modulo 256.
pub ck_rule :
    (i : ℕ)
    → i < 32
    → table_at ck i
      ≡ ck_byte i 0 * 2 ^ 24 + ck_byte i 1 * 2 ^ 16 + ck_byte i 2 * 2 ^ 8 + ck_byte i 3
ck_rule i h = (==_iff _ _).0 (
    all_below_sound 32
      (λ i.
        table_at ck i
        == ck_byte i 0 * 2 ^ 24 + ck_byte i 1 * 2 ^ 16 + ck_byte i 2 * 2 ^ 8 + ck_byte i 3)
      i ck_checked h)
