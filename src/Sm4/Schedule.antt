-- ===== src/Sm4/Schedule.antt =====
-- The key schedule: thirty-two words from sixteen bytes, and the constants by their rule.
use gmsm.Common.{
  ℕ, suc, ◌≤◌, ◌<◌, ◌≡◌, refl, ap, ◌∙◌, List, [], ◌∷◌, length, All, IsWord, IsBytes, xor-lt,
  rotl-lt, arith,
}
use gmsm.Common.{ok, panic}
use gmsm.Sm4.Tables.{fk, ck}
use gmsm.Sm4.Cipher.{Block, zero_block, feistel0, l0, rl, sub_keys_loop, xor_fk, generate_sub_keys}
use gmsm.Sm4.Spec.{IsBlock}
use gmsm.Sm4.Linear.{p-IsWord}
use gmsm.Sm4.Blocks.{final-initial, initial_short}

l0-IsWord : (b : ℕ) → IsWord b → IsWord (l0 b)
unfolding l0 rl
l0-IsWord b h =
    xor-lt 32 _ _ (xor-lt 32 _ _ h (rotl-lt 13 19 (omega arith) b h))
      (rotl-lt 23 9 (omega arith) b h)

feistel0-IsWord :
    (x0 x1 x2 x3 rk : ℕ)
    → IsWord x0
    → IsWord x1
    → IsWord x2
    → IsWord x3
    → IsWord rk
    → IsWord (feistel0 x0 x1 x2 x3 rk)
unfolding feistel0
feistel0-IsWord x0 x1 x2 x3 rk h0 h1 h2 h3 h =
    xor-lt 32 _ _ h0
      (l0-IsWord _ (p-IsWord _ (xor-lt 32 _ _ (xor-lt 32 _ _ (xor-lt 32 _ _ h1 h2) h3) h)))

length-sub_keys_loop : (cs : List ℕ) (b : Block) → length (sub_keys_loop cs b) ≡ length cs
unfolding sub_keys_loop
length-sub_keys_loop [] b = refl
length-sub_keys_loop (c ∷ cs) b = ap suc (length-sub_keys_loop cs _)

sub_keys_loop-IsWord :
    (cs : List ℕ) (b : Block) → All IsWord cs → IsBlock b → All IsWord (sub_keys_loop cs b)
unfolding sub_keys_loop
sub_keys_loop-IsWord [] b hc hb = tt
sub_keys_loop-IsWord (c ∷ cs) b hc hb =
    let h = feistel0-IsWord _ _ _ _ c hb.0 hb.1 hb.2 hb.3 hc.0 in
    (h, sub_keys_loop-IsWord cs _ hc.1 (hb.1, hb.2, hb.3, h))

xor_fk-IsBlock : (b : Block) → IsBlock b → IsBlock (xor_fk b)
unfolding xor_fk fk
xor_fk-IsBlock b h = (
  xor-lt 32 _ _ h.0 (omega arith),
  xor-lt 32 _ _ h.1 (omega arith),
  xor-lt 32 _ _ h.2 (omega arith),
  xor-lt 32 _ _ h.3 (omega arith),
)

ck-IsWord : All IsWord ck
unfolding ck
ck-IsWord = omega arith

length-ck : length ck ≡ 32
unfolding ck
length-ck = refl

-- From a key of sixteen bytes or more `generateSubKeys` makes thirty-two round keys, each below 2 ^ 32.
pub generate_sub_keys_total :
    (key : List ℕ)
    → 16 ≤ length key
    → IsBytes key
    → (ks : List ℕ) × (generate_sub_keys key ≡ ok ks) × (length ks ≡ 32) × All IsWord ks
unfolding generate_sub_keys
generate_sub_keys_total key n h =
    let (b, read, hb, back) = final-initial zero_block key n h in
    (
      sub_keys_loop ck (xor_fk b),
      rw read,
      length-sub_keys_loop ck (xor_fk b) ∙ length-ck,
      sub_keys_loop-IsWord ck (xor_fk b) ck-IsWord (xor_fk-IsBlock b hb),
    )

pub generate_sub_keys_short : (key : List ℕ) → length key < 16 → generate_sub_keys key ≡ panic
unfolding generate_sub_keys
generate_sub_keys_short key n = rw (initial_short zero_block key n)
