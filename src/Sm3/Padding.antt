-- ===== src/Sm3/Padding.antt =====
-- `pad`: the loop ends with room for the length, and its result is the padding of the standard.
use gmsm.Common.{
  ℕ, zero, suc, ◌+◌, ◌-◌, ◌%◌, ◌≤◌, ◌≡◌, refl, sym, ◌∙◌, List, [], ◌∷◌, ◌++◌, length, replicate,
  length-append, length-replicate, arith, ◌==◌, ==_iff, Bool-cases, inl, inr,
}
use gmsm.Common.{ok}
use mathlib.Core.List.{append_assoc, append-nil}
use gmsm.Sm3.Digest.{Sm3, pad_loop, length_bytes, checked, pad}

-- How many zero bytes the standard puts behind a message of `n` bytes and the byte 0x80.
abbrev pub zeros_for : ℕ → ℕ
zeros_for n = (64 + 56 - (n + 1) % 64) % 64

-- The message of an object, padded: one bit, zeros, and the length in bits on eight bytes.
abbrev pub padded : List ℕ → ℕ → List ℕ
padded msg bits = (msg ++ (0x80 ∷ replicate (zeros_for (length msg)) 0)) ++ length_bytes bits

loop_zeros :
    (fuel k : ℕ) (msg : List ℕ)
    → k ≤ fuel
    → k ≡ (64 + 56 - length msg % 64) % 64
    → pad_loop fuel msg ≡ msg ++ replicate k 0
unfolding pad_loop
loop_zeros zero zero msg h e = sym (append-nil msg)
loop_zeros zero (suc k) msg h e = absurd (omega arith)
loop_zeros (suc fuel) zero msg h e =
    rw ((==_iff (length msg % 64) 56).1 (omega arith)) (sym (append-nil msg))
loop_zeros (suc fuel) (suc k) msg h e = elim (Bool-cases (length msg % 64 == 56)) [
  | inl stop ↦ absurd (omega (arith, (==_iff (length msg % 64) 56).0 stop))
  | inr more ↦ rw more (
      loop_zeros fuel k (msg ++ (0 ∷ [])) (omega arith) (omega (arith, length-append msg (0 ∷ [])))
      ∙ append_assoc msg (0 ∷ []) (replicate k 0))
]

pub length-padded :
    (msg : List ℕ) (bits : ℕ)
    → length (padded msg bits) ≡ length msg + 1 + zeros_for (length msg) + 8
unfolding length_bytes
length-padded msg bits =
    length-append (msg ++ (0x80 ∷ replicate (zeros_for (length msg)) 0)) (length_bytes bits)
    ∙ omega (
      arith,
      length-append msg (0x80 ∷ replicate (zeros_for (length msg)) 0),
      length-replicate {A = ℕ} (zeros_for (length msg)) 0,
    )

-- `pad` never panics. It appends the byte 0x80, the least number of zero bytes that leaves eight
-- bytes of the last block, and the length; the result is a whole number of blocks.
pub pad-padded :
    {E : Type 0} (s : Sm3)
    → (pad {E = E} s ≡ ok (padded s.unhandle_msg s.length))
      × (length (padded s.unhandle_msg s.length) % 64 ≡ 0)
unfolding pad checked
pad-padded s =
    let whole : length (padded s.unhandle_msg s.length) % 64 ≡ 0 =
      omega (arith, length-padded s.unhandle_msg s.length) in
    (
      rw
          (
            loop_zeros 64 (zeros_for (length s.unhandle_msg)) (s.unhandle_msg ++ (0x80 ∷ []))
                (omega arith) (omega (arith, length-append s.unhandle_msg (0x80 ∷ []))),
            append_assoc s.unhandle_msg (0x80 ∷ [])
                (replicate (zeros_for (length s.unhandle_msg)) 0),
            (==_iff (length (padded s.unhandle_msg s.length) % 64) 0).1 whole,
          )
          refl,
      whole,
    )
