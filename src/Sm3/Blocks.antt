-- ===== src/Sm3/Blocks.antt =====
-- `update` is the compression of one whole block after the other, from the front.
use gmsm.Common.{
  ℕ, zero, suc, ◌+◌, ◌*◌, ◌/◌, ◌≤◌, ◌<◌, ◌≡◌, refl, sym, ap, ap₂, ◌∙◌, List, [], ◌∷◌, ◌++◌, foldl,
  length, take, drop, get_or, length-drop, take-append_le, drop-append_le, drop-drop, arith,
  leb-true, leb-false,
}
use gmsm.Sm3.Compress.{Registers, word_at, load_words, schedule, compress}
use gmsm.Sm3.Digest.{Sm3, update_loop, update}

-- The first `n` blocks of a message.
unfoldable pub blocks : ℕ → List ℕ → List (List ℕ)
blocks zero msg = []
blocks (suc n) msg = take 64 msg ∷ blocks n (drop 64 msg)

get_or-take : (n i : ℕ) (xs : List ℕ) → i < n → get_or (take n xs) i 0 ≡ get_or xs i 0
get_or-take zero i xs h = absurd (omega arith)
get_or-take (suc n) i [] h = refl
get_or-take (suc n) zero (x ∷ xs) h = refl
get_or-take (suc n) (suc i) (x ∷ xs) h = get_or-take n i xs (omega arith)

load_words-take :
    (left i : ℕ) (msg : List ℕ)
    → left + i ≤ 16
    → load_words left i (take 64 msg) ≡ load_words left i msg
unfolding load_words word_at
load_words-take zero i msg h = refl
load_words-take (suc left) i msg h =
    rw
      (
        get_or-take 64 (4 * i) msg (omega arith),
        get_or-take 64 (4 * i + 1) msg (omega arith),
        get_or-take 64 (4 * i + 2) msg (omega arith),
        get_or-take 64 (4 * i + 3) msg (omega arith),
      )
      (ap (λ t. word_at msg i ∷ t) (load_words-take left (i + 1) msg (omega arith)))

-- The compression reads the first block and nothing behind it.
pub compress-take : (r : Registers) (msg : List ℕ) → compress r (take 64 msg) ≡ compress r msg
unfolding compress schedule
compress-take r msg = rw (load_words-take 16 0 msg (omega arith))

-- With a round of fuel for each block the loop takes all whole blocks.
pub update_loop-foldl :
    (fuel n : ℕ) (r : Registers) (msg : List ℕ)
    → n ≡ length msg / 64
    → n ≤ fuel
    → update_loop fuel r msg ≡ foldl compress r (blocks n msg)
unfolding update_loop blocks
update_loop-foldl zero zero r msg e h = refl
update_loop-foldl zero (suc n) r msg e h = absurd (omega arith)
update_loop-foldl (suc fuel) zero r msg e h = rw (leb-false 64 (length msg) (omega arith))
update_loop-foldl (suc fuel) (suc n) r msg e h = rw (leb-true 64 (length msg) (omega arith)) (
    update_loop-foldl fuel n (compress r msg) (drop 64 msg) (omega (arith, length-drop 64 msg))
      (omega arith)
    ∙ ap (λ s. foldl compress s (blocks n (drop 64 msg))) (sym (compress-take r msg)))

-- `update` is the compression of all whole blocks of its argument, in order, and its loop ends
-- within as many rounds as the argument has bytes.
pub update-foldl :
    (s : Sm3) (msg : List ℕ) (nblocks : ℕ)
    → update s msg nblocks
      ≡ record s { digest = foldl compress s.digest (blocks (length msg / 64) msg) }
unfolding update
update-foldl s msg nblocks =
    ap (λ d. record s { digest = d })
      (update_loop-foldl (length msg) (length msg / 64) s.digest msg refl (omega arith))

-- Blocks of a message and of what is written behind it.
pub blocks-add :
    (n m k : ℕ) (msg : List ℕ)
    → k ≡ n + m
    → blocks k msg ≡ blocks n msg ++ blocks m (drop (n * 64) msg)
unfolding blocks
blocks-add zero m k msg e = ap (λ j. blocks j msg) {y = m} (omega arith)
blocks-add (suc n) m zero msg e = absurd (omega arith)
blocks-add (suc n) m (suc k) msg e =
    ap (λ t. take 64 msg ∷ t)
      (blocks-add n m k (drop 64 msg) (omega arith)
        ∙ ap (λ t. blocks n (drop 64 msg) ++ blocks m t)
            (drop-drop (n * 64) 64 msg
              ∙ ap (λ (j : ℕ). drop j msg) {x = 64 + n * 64} {y = suc n * 64} (omega arith)))

pub blocks-append :
    (n : ℕ) (msg more : List ℕ) → n * 64 ≤ length msg → blocks n (msg ++ more) ≡ blocks n msg
unfolding blocks
blocks-append zero msg more h = refl
blocks-append (suc n) msg more h = ap₂ ◌∷◌ (take-append_le 64 msg more (omega arith)) (
    ap (blocks n) (drop-append_le 64 msg more (omega arith))
    ∙ blocks-append n (drop 64 msg) more (omega (arith, length-drop 64 msg)))
