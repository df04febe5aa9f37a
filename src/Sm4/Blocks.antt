-- ===== src/Sm4/Blocks.antt =====
-- Blocks of four words and their sixteen bytes, and what `cryptBlock` does with its slices.
use gmsm.Common.{
  ℕ, ◌≤◌, ◌<◌, ◌≡◌, refl, ap, ◌∙◌, List, [], ◌∷◌, ◌++◌, length, take, drop, take_all, length-take,
  length-drop, length-append, IsBytes, be_word, be_bytes, be_word-IsWord, be_bytes-be_word,
  be_word-be_bytes, arith,
}
use gmsm.Common.{ok, panic}
use gmsm.Sm4.Cipher.{
  Block, read_word, permute_initial_block, put, write_word, permute_final_block, copy,
}
use gmsm.Sm4.Spec.{IsBlock}

-- The sixteen bytes of four words, the highest byte of each first.
abbrev pub block_bytes : Block → List ℕ
block_bytes b = be_bytes b.w0 ++ (be_bytes b.w1 ++ (be_bytes b.w2 ++ be_bytes b.w3))

-- Into a slice of sixteen bytes the bytes of the block are written over all that it held.
pub final_lem :
    (r : List ℕ) (b : Block) → length r ≡ 16 → permute_final_block r b ≡ ok (block_bytes b)
unfolding permute_final_block write_word put be_bytes
final_lem (a0 ∷ a1 ∷ a2 ∷ a3 ∷ b0 ∷ b1 ∷ b2 ∷ b3 ∷ c0 ∷ c1 ∷ c2 ∷ c3 ∷ d0 ∷ d1 ∷ d2 ∷ d3 ∷ []) b h =
    refl
final_lem _ b h = absurd (omega arith)

-- Sixteen bytes or more are read as four words, and these give back the sixteen bytes.
pub final-initial :
    (s : Block) (src : List ℕ)
    → 16 ≤ length src
    → IsBytes src
    → (b : Block) × (permute_initial_block s src ≡ ok b) × IsBlock b × (block_bytes b ≡ take 16 src)
unfolding permute_initial_block read_word
final-initial s
      (a0 ∷ a1 ∷ a2 ∷ a3 ∷ b0 ∷ b1 ∷ b2 ∷ b3 ∷ c0 ∷ c1 ∷ c2 ∷ c3 ∷ d0 ∷ d1 ∷ d2 ∷ d3 ∷ rest) n h =
    (
      record {
        w0 = be_word a0 a1 a2 a3;
        w1 = be_word b0 b1 b2 b3;
        w2 = be_word c0 c1 c2 c3;
        w3 = be_word d0 d1 d2 d3;
      },
      refl,
      (
        be_word-IsWord a0 a1 a2 a3 (omega arith) (omega arith) (omega arith) (omega arith),
        be_word-IsWord b0 b1 b2 b3 (omega arith) (omega arith) (omega arith) (omega arith),
        be_word-IsWord c0 c1 c2 c3 (omega arith) (omega arith) (omega arith) (omega arith),
        be_word-IsWord d0 d1 d2 d3 (omega arith) (omega arith) (omega arith) (omega arith),
      ),
      rw
          (
            be_bytes-be_word a0 a1 a2 a3 (omega arith) (omega arith) (omega arith) (omega arith),
            be_bytes-be_word b0 b1 b2 b3 (omega arith) (omega arith) (omega arith) (omega arith),
            be_bytes-be_word c0 c1 c2 c3 (omega arith) (omega arith) (omega arith) (omega arith),
            be_bytes-be_word d0 d1 d2 d3 (omega arith) (omega arith) (omega arith) (omega arith),
          )
          refl,
    )
final-initial s _ n h = absurd (omega arith)

pub initial_short :
    (s : Block) (src : List ℕ) → length src < 16 → permute_initial_block s src ≡ panic
unfolding permute_initial_block read_word
initial_short s
      (a0 ∷ a1 ∷ a2 ∷ a3 ∷ b0 ∷ b1 ∷ b2 ∷ b3 ∷ c0 ∷ c1 ∷ c2 ∷ c3 ∷ d0 ∷ d1 ∷ d2 ∷ d3 ∷ rest) n =
    absurd (omega arith)
initial_short s _ n = refl

-- The bytes of four words are read back as those words, whatever follows them.
pub initial-final :
    (s b : Block) (rest : List ℕ)
    → IsBlock b
    → permute_initial_block s (block_bytes b ++ rest) ≡ ok b
unfolding permute_initial_block read_word be_bytes
initial-final s b rest h =
    rw
      (
        be_word-be_bytes b.w0 h.0,
        be_word-be_bytes b.w1 h.1,
        be_word-be_bytes b.w2 h.2,
        be_word-be_bytes b.w3 h.3,
      )
      refl

pub length-final : (b : Block) → length (block_bytes b) ≡ 16
unfolding be_bytes
length-final b = refl

-- `copy` of a whole block into a slice that has room for it.
pub copy_room :
    (dst src : List ℕ) → length src ≤ length dst → copy dst src ≡ src ++ drop (length src) dst
unfolding copy
copy_room dst src h = ap (λ t. t ++ drop (length src) dst) (take_all (length dst) src h)

pub copy-final :
    (b : Block) (dst : List ℕ)
    → 16 ≤ length dst
    → copy dst (block_bytes b) ≡ block_bytes b ++ drop 16 dst
copy-final b dst h =
    copy_room dst (block_bytes b) (omega (arith, length-final b))
    ∙ ap (λ (n : ℕ). block_bytes b ++ drop n dst) (length-final b)

pub length-copy : (dst src : List ℕ) → length (copy dst src) ≡ length dst
unfolding copy
length-copy dst src =
    length-append (take (length dst) src) (drop (length src) dst)
    ∙ omega (arith, length-take (length dst) src, length-drop (length src) dst)
