-- ===== src/Sm3/Schedule.antt =====
-- The message expansion: 68 words, the first sixteen read from the block, each later one by the
-- standard's recurrence; and the words stay words through a compression.
use gmsm.Common.{
  dec_lt, ℕ, zero, suc, ◌+◌, ◌-◌, ◌≤◌, ◌<◌, ◌≡◌, refl, sym, ap, ◌∙◌, List, [], ◌∷◌, ◌++◌, length,
  length-append, get_or-append_lt, get_or-append_length, arith, dec_lt, ◌⊎◌, inl, inr,
}
use gmsm.Sm3.Compress.{word_at, load_words, entry, expanded, expand_words, schedule}

length-load_words : (left i : ℕ) (msg : List ℕ) → length (load_words left i msg) ≡ left
unfolding load_words
length-load_words zero i msg = refl
length-load_words (suc left) i msg = ap suc (length-load_words left (i + 1) msg)

entry-load_words :
    (left i j : ℕ) (msg : List ℕ) → j < left → entry (load_words left i msg) j ≡ word_at msg (i + j)
unfolding load_words
entry-load_words zero i j msg h = absurd (omega arith)
entry-load_words (suc left) i zero msg h = ap (word_at msg) (omega arith)
entry-load_words (suc left) i (suc j) msg h =
    entry-load_words left (i + 1) j msg (omega arith) ∙ ap (word_at msg) (omega arith)

length-expand_words : (left i : ℕ) (w : List ℕ) → length (expand_words left i w) ≡ length w + left
unfolding expand_words
length-expand_words zero i w = omega arith
length-expand_words (suc left) i w =
    length-expand_words left (i + 1) (w ++ (expanded w i ∷ []))
    ∙ omega (arith, length-append w (expanded w i ∷ []))

-- Filling the array does not change what is written.
entry-expand_words :
    (left i j : ℕ) (w : List ℕ) → j < length w → entry (expand_words left i w) j ≡ entry w j
unfolding expand_words
entry-expand_words zero i j w h = refl
entry-expand_words (suc left) i j w h =
    entry-expand_words left (i + 1) j (w ++ (expanded w i ∷ []))
      (omega (arith, length-append w (expanded w i ∷ [])))
    ∙ get_or-append_lt w (expanded w i ∷ []) j 0 h

expanded_agree :
    (v w : List ℕ) (i : ℕ)
    → 16 ≤ i
    → ((j : ℕ) → j < i → entry v j ≡ entry w j)
    → expanded v i ≡ expanded w i
unfolding expanded
expanded_agree v w i h same = cc (
  same (i - 16) (omega arith),
  same (i - 9) (omega arith),
  same (i - 3) (omega arith),
  same (i - 13) (omega arith),
  same (i - 6) (omega arith),
)

expand_words-expanded :
    (left i j : ℕ) (w : List ℕ)
    → length w ≡ i
    → 16 ≤ i
    → i ≤ j
    → j < i + left
    → entry (expand_words left i w) j ≡ expanded (expand_words left i w) j
unfolding expand_words
expand_words-expanded zero i j w e h lo hi = absurd (omega arith)
expand_words-expanded (suc left) i j w e h lo hi = elim (dec_lt i j) [
  | yes later ↦
      expand_words-expanded left (i + 1) j (w ++ (expanded w i ∷ []))
        (length-append w (expanded w i ∷ []) ∙ omega arith) (omega arith) (omega arith)
        (omega arith)
  | no now ↦ at_once (omega arith)
]
  where
    more : List ℕ
    more = w ++ (expanded w i ∷ [])

    longer : length more ≡ i + 1
    longer = length-append w (expanded w i ∷ []) ∙ omega arith

    at_once :
        j ≡ i → entry (expand_words (suc left) i w) j ≡ expanded (expand_words (suc left) i w) j
    at_once q =
        entry-expand_words left (i + 1) j more (omega (arith, longer))
        ∙ get_or-append_length w [] j (expanded w i) 0 (q ∙ sym e)
        ∙ sym (
            expanded_agree (expand_words left (i + 1) more) w j (omega arith) (λ k hk.
              entry-expand_words left (i + 1) k more (omega (arith, longer))
              ∙ get_or-append_lt w (expanded w i ∷ []) k 0 (omega arith))
            ∙ ap (expanded w) q)

-- The expanded message has 68 words. The first 16 are the block's words in big-endian order, and
-- each later one follows from the words before it by the standard's recurrence.
pub schedule_recurrence :
    (msg : List ℕ) (i : ℕ)
    → i < 68
    → (length (schedule msg) ≡ 68)
      × (((i < 16) × (entry (schedule msg) i ≡ word_at msg i))
          ⊎ ((16 ≤ i) × (entry (schedule msg) i ≡ expanded (schedule msg) i)))
unfolding schedule
schedule_recurrence msg i hi =
    let n = length-load_words 16 0 msg in
    (
      length-expand_words 52 16 (load_words 16 0 msg) ∙ omega arith,
      elim (dec_lt i 16) [
        | yes h ↦ inl (
          h,
          entry-expand_words 52 16 i (load_words 16 0 msg) (omega arith)
              ∙ entry-load_words 16 0 i msg h
              ∙ ap (word_at msg) (omega arith),
        )
        | no h ↦ inr (
          omega arith,
          expand_words-expanded 52 16 i (load_words 16 0 msg) n (omega arith) (omega arith)
              (omega arith),
        )
      ],
    )
