-- ===== src/Sm3/Compress.antt =====
-- sm3/sm3.go: the Boolean functions, the permutations, and the compression of one block, as the
-- body of the loop of `update` computes it. A `uint32` is a number below 2 ^ 32.
use gmsm.Common.{
  ℕ, zero, suc, ◌+◌, ◌-◌, ◌*◌, ◌/◌, ◌%◌, ◌^◌, bit_and, bit_or, bit_xor, be_word, get_or, List, [],
  ◌∷◌, ◌++◌,
}

unfoldable pub ff0 : ℕ → ℕ → ℕ → ℕ
ff0 x y z = bit_xor (bit_xor x y) z

unfoldable pub ff1 : ℕ → ℕ → ℕ → ℕ
ff1 x y z = bit_or (bit_or (bit_and x y) (bit_and x z)) (bit_and y z)

unfoldable pub gg0 : ℕ → ℕ → ℕ → ℕ
gg0 x y z = bit_xor (bit_xor x y) z

-- Go's `^x` on a `uint32`.
abbrev pub complement : ℕ → ℕ
complement x = 2 ^ 32 - 1 - x

unfoldable pub gg1 : ℕ → ℕ → ℕ → ℕ
gg1 x y z = bit_or (bit_and x y) (bit_and (complement x) z)

unfoldable pub left_rotate : ℕ → ℕ → ℕ
left_rotate x i = bit_or (x * 2 ^ (i % 32) % 2 ^ 32) (x / 2 ^ (32 - i % 32))

unfoldable pub p0 : ℕ → ℕ
p0 x = bit_xor (bit_xor x (left_rotate x 9)) (left_rotate x 17)

unfoldable pub p1 : ℕ → ℕ
p1 x = bit_xor (bit_xor x (left_rotate x 15)) (left_rotate x 23)

-- `a + b` on `uint32`.
unfoldable pub add32 : ℕ → ℕ → ℕ
add32 a b = (a + b) % 2 ^ 32

-- The words `sm3.digest[0..7]`, and the working variables `A` to `H`.
pub record Registers : Type 0 where
  pub a : ℕ
  pub b : ℕ
  pub c : ℕ
  pub d : ℕ
  pub e : ℕ
  pub f : ℕ
  pub g : ℕ
  pub h : ℕ

-- `binary.BigEndian.Uint32(msg[4*i : 4*(i+1)])`; the loop runs while `len(msg) >= 64`, and `i` is
-- below 16.
unfoldable pub word_at : List ℕ → ℕ → ℕ
word_at msg i =
    be_word (get_or msg (4 * i) 0) (get_or msg (4 * i + 1) 0) (get_or msg (4 * i + 2) 0)
      (get_or msg (4 * i + 3) 0)

-- The loops that fill `w` and `w1` write each entry once, from the first on, and read only entries
-- written before: an array that is being filled is the list of its written entries.
unfoldable pub load_words : ℕ → ℕ → List ℕ → List ℕ
load_words zero i msg = []
load_words (suc left) i msg = word_at msg i ∷ load_words left (i + 1) msg

abbrev pub entry : List ℕ → ℕ → ℕ
entry w i = get_or w i 0

unfoldable pub expanded : List ℕ → ℕ → ℕ
expanded w i =
    bit_xor
      (bit_xor
        (p1 (
          bit_xor (bit_xor (entry w (i - 16)) (entry w (i - 9)))
            (left_rotate (entry w (i - 3)) 15)))
        (left_rotate (entry w (i - 13)) 7))
      (entry w (i - 6))

unfoldable pub expand_words : ℕ → ℕ → List ℕ → List ℕ
expand_words zero i w = w
expand_words (suc left) i w = expand_words left (i + 1) (w ++ (expanded w i ∷ []))

unfoldable pub pair_words : ℕ → ℕ → List ℕ → List ℕ
pair_words zero i w = []
pair_words (suc left) i w = bit_xor (entry w i) (entry w (i + 4)) ∷ pair_words left (i + 1) w

-- The body of both loops over the working variables; they differ in the Boolean functions and in
-- the constant.
unfoldable pub compress_step : (ff gg : ℕ → ℕ → ℕ → ℕ) (t i wi w1i : ℕ) → Registers → Registers
compress_step ff gg t i wi w1i r =
    let ss1 = left_rotate (add32 (add32 (left_rotate r.a 12) r.e) (left_rotate t i)) 7 in
    let ss2 = bit_xor ss1 (left_rotate r.a 12) in
    let tt1 = add32 (add32 (add32 (ff r.a r.b r.c) r.d) ss2) w1i in
    let tt2 = add32 (add32 (add32 (gg r.e r.f r.g) r.h) ss1) wi in
    record {
      a = tt1;
      b = r.a;
      c = left_rotate r.b 9;
      d = r.c;
      e = p0 tt2;
      f = r.e;
      g = left_rotate r.f 19;
      h = r.g;
    }

unfoldable pub compress_loop :
    (ff gg : ℕ → ℕ → ℕ → ℕ) (t : ℕ) → ℕ → ℕ → List ℕ → List ℕ → Registers → Registers
compress_loop ff gg t zero i w w1 r = r
compress_loop ff gg t (suc left) i w w1 r =
    compress_loop ff gg t left (i + 1) w w1 (compress_step ff gg t i (entry w i) (entry w1 i) r)

unfoldable pub xor_registers : Registers → Registers → Registers
xor_registers r s = record {
  a = bit_xor r.a s.a;
  b = bit_xor r.b s.b;
  c = bit_xor r.c s.c;
  d = bit_xor r.d s.d;
  e = bit_xor r.e s.e;
  f = bit_xor r.f s.f;
  g = bit_xor r.g s.g;
  h = bit_xor r.h s.h;
}

unfoldable pub schedule : List ℕ → List ℕ
schedule msg = expand_words 52 16 (load_words 16 0 msg)

-- One turn of the loop of `update`, on the first 64 bytes of `msg`.
unfoldable pub compress : Registers → List ℕ → Registers
compress r msg =
    let w = schedule msg in
    let w1 = pair_words 64 0 w in
    let r' = compress_loop ff0 gg0 0x79cc4519 16 0 w w1 r in
    xor_registers r (compress_loop ff1 gg1 0x7a879d8a 48 16 w w1 r')
