-- ===== src/Sm2/Buffers.antt =====
-- sm2/sm2.go: `zeroByteSlice` and the buffers made with it. `append(zeroByteSlice[:32-n], buf...)`
-- has room in the array behind `zeroByteSlice`, so it writes there, and the buffer that comes out
-- is that array.
use gmsm.Common.{
  ℕ, ◌-◌, ◌≤◌, ◌<◌, ◌≡◌, refl, List, ◌++◌, length, take, replicate, arith, ltb, ltb-true, ltb-false,
  dec_lt, if◌then◌else◌, length-append, length-take, take-append_length, take-append_ge,
}
use mathlib.Core.List.{append_assoc}

-- A slice of the function's own, or all of the array behind `zeroByteSlice`.
pub data Buffer : Type 0 where
  owned : List ℕ → Buffer
  shared : Buffer

-- What a buffer holds, given what the array holds.
unfoldable pub contents : List ℕ → Buffer → List ℕ
contents store (owned bytes) = bytes
contents store shared = store

-- `if n := len(buf); n < 32 { buf = append(zeroByteSlice[:32-n], buf...) }`: the array and the
-- buffer.
unfoldable pub pad_left : List ℕ → List ℕ → List ℕ × Buffer
pad_left store buf =
    let n = length buf in
    if ltb n 32 then (take (32 - n) store ++ buf, shared) else (store, owned buf)

-- The array as the package declares it.
abbrev pub zero_byte_slice : List ℕ
zero_byte_slice = replicate 32 0

pub pad_left_short :
    (store buf : List ℕ)
    → length buf < 32
    → pad_left store buf ≡ (take (32 - length buf) store ++ buf, shared)
unfolding pad_left
pad_left_short store buf h = rw (ltb-true (length buf) 32 h) refl

pub pad_left_long : (store buf : List ℕ) → 32 ≤ length buf → pad_left store buf ≡ (store, owned buf)
unfolding pad_left
pad_left_long store buf h = rw (ltb-false (length buf) 32 h) refl

-- The array keeps its length.
pub pad_left-length : (store buf : List ℕ) → length store ≡ 32 → length (pad_left store buf).0 ≡ 32
unfolding pad_left
pad_left-length store buf h =
    ground
      (arith, length-append (take (32 - length buf) store) buf, length-take (32 - length buf) store)

-- Padding the same bytes once more finds the array as the first time left it.
pub pad_left_again :
    (store buf : List ℕ)
    → length store ≡ 32
    → pad_left (pad_left store buf).0 buf ≡ pad_left store buf
pad_left_again store buf h = elim (dec_lt (length buf) 32) [
  | yes short ↦
      let kept : take (32 - length buf) (take (32 - length buf) store ++ buf)
          ≡ take (32 - length buf) store =
        take-append_length _ _ buf (omega (arith, length-take (32 - length buf) store)) in
      rw
        (
          pad_left_short store buf short,
          pad_left_short (take (32 - length buf) store ++ buf) buf short,
          kept,
        )
        refl
  | no long ↦ rw (pad_left_long store buf (omega arith), pad_left_long store buf (omega arith)) refl
]

-- Two paddings in turn: the second finds, in front of its bytes, what the first has left in the
-- array, so a buffer shorter than the one before it is not padded with zeros alone.
pub pad_left_after :
    (store buf1 buf2 : List ℕ)
    → length store ≡ 32
    → length buf1 < 32
    → length buf2 ≤ length buf1
    → contents (pad_left (pad_left store buf1).0 buf2).0 (pad_left (pad_left store buf1).0 buf2).1
      ≡ take (32 - length buf1) store ++ (take (length buf1 - length buf2) buf1 ++ buf2)
unfolding contents
pad_left_after store buf1 buf2 size short h =
    let n = 32 - length buf1 in
    let front : length (take n store) ≡ n = omega (arith, length-take n store) in
    let split : take (32 - length buf2) (take n store ++ buf1)
        ≡ take n store ++ take (length buf1 - length buf2) buf1 =
      take-append_ge (32 - length buf2) (length buf1 - length buf2) (take n store) buf1
        (omega arith) in
    rw
      (
        pad_left_short store buf1 short,
        pad_left_short (take n store ++ buf1) buf2 (omega arith),
        split,
      )
      (append_assoc (take n store) _ buf2)
