-- ===== src/Sm3/Invariant.antt =====
-- What holds of every hash object: the digest is eight 32-bit words, the bit count fits 64 bits,
-- and fewer than 64 bytes wait for their block.
use gmsm.Common.{
  ℕ, zero, suc, ◌+◌, ◌-◌, ◌*◌, ◌/◌, ◌%◌, ◌^◌, ◌<◌, ◌≡◌, refl, sym, subst, List, [], ◌∷◌, ◌++◌,
  foldl, length, length-drop, arith, IsWord, IsBytes, be_bytes, rotl-lt, xor-lt,
}
use gmsm.Common.{ok, >>=-eq-ok}
use gmsm.Sm3.Compress.{
  Registers, entry, compress, compress_loop, compress_step, xor_registers, left_rotate, p0, add32,
  ff0, ff1, gg0, gg1,
}
use gmsm.Sm3.Digest.{Sm3, digest_bytes, pad, update, new, reset, zero_value, write, sum}
use gmsm.Sm3.Blocks.{blocks, update-foldl}

abbrev pub IsRegisters : Registers → Type 0
IsRegisters r =
    IsWord r.a
    × IsWord r.b
    × IsWord r.c
    × IsWord r.d
    × IsWord r.e
    × IsWord r.f
    × IsWord r.g
    × IsWord r.h

left_rotate-IsWord : (x i : ℕ) → IsWord x → IsWord (left_rotate x i)
unfolding left_rotate
left_rotate-IsWord x i h = rotl-lt (i % 32) (32 - i % 32) (omega arith) x h

p0-IsWord : (x : ℕ) → IsWord x → IsWord (p0 x)
unfolding p0
p0-IsWord x h =
    xor-lt 32 _ _ (xor-lt 32 _ _ h (left_rotate-IsWord x 9 h)) (left_rotate-IsWord x 17 h)

add32-IsWord : (x y : ℕ) → IsWord (add32 x y)
unfolding add32
add32-IsWord x y = omega arith

compress_step-IsRegisters :
    (ff gg : ℕ → ℕ → ℕ → ℕ) (t i wi w1i : ℕ) (r : Registers)
    → IsRegisters r
    → IsRegisters (compress_step ff gg t i wi w1i r)
unfolding compress_step
compress_step-IsRegisters ff gg t i wi w1i r (ha, hb, hc, hd, he, hf, hg, hh) = (
  add32-IsWord _ _,
  ha,
  left_rotate-IsWord r.b 9 hb,
  hc,
  p0-IsWord _ (add32-IsWord _ _),
  he,
  left_rotate-IsWord r.f 19 hf,
  hg,
)

compress_loop-IsRegisters :
    (ff gg : ℕ → ℕ → ℕ → ℕ) (t left i : ℕ) (w w1 : List ℕ) (r : Registers)
    → IsRegisters r
    → IsRegisters (compress_loop ff gg t left i w w1 r)
unfolding compress_loop
compress_loop-IsRegisters ff gg t zero i w w1 r h = h
compress_loop-IsRegisters ff gg t (suc left) i w w1 r h =
    compress_loop-IsRegisters ff gg t left (i + 1) w w1 _
      (compress_step-IsRegisters ff gg t i (entry w i) (entry w1 i) r h)

xor_registers-IsRegisters :
    (r s : Registers) → IsRegisters r → IsRegisters s → IsRegisters (xor_registers r s)
unfolding xor_registers
xor_registers-IsRegisters r s h k = (
  xor-lt 32 _ _ h.0 k.0,
  xor-lt 32 _ _ h.1 k.1,
  xor-lt 32 _ _ h.2 k.2,
  xor-lt 32 _ _ h.3 k.3,
  xor-lt 32 _ _ h.4 k.4,
  xor-lt 32 _ _ h.5 k.5,
  xor-lt 32 _ _ h.6 k.6,
  xor-lt 32 _ _ h.7 k.7,
)

compress-IsRegisters : (r : Registers) (msg : List ℕ) → IsRegisters r → IsRegisters (compress r msg)
unfolding compress
compress-IsRegisters r msg h = xor_registers-IsRegisters r _ h (
    compress_loop-IsRegisters ff1 gg1 0x7a879d8a 48 16 _ _ _
      (compress_loop-IsRegisters ff0 gg0 0x79cc4519 16 0 _ _ r h))

foldl_compress-IsRegisters :
    (bs : List (List ℕ)) (r : Registers) → IsRegisters r → IsRegisters (foldl compress r bs)
foldl_compress-IsRegisters [] r h = h
foldl_compress-IsRegisters (b ∷ bs) r h =
    foldl_compress-IsRegisters bs (compress r b) (compress-IsRegisters r b h)

pub record IsValid (s : Sm3) : Type 0 where
  pub words : IsRegisters s.digest
  pub counted : s.length < 2 ^ 64
  pub waiting : length s.unhandle_msg < 64

update-words :
    (s : Sm3) (msg : List ℕ) (n : ℕ) → IsRegisters s.digest → IsRegisters (update s msg n).digest
update-words s msg n h =
    subst (λ t. IsRegisters t.digest) (sym (update-foldl s msg n))
      (foldl_compress-IsRegisters (blocks (length msg / 64) msg) s.digest h)

update-length : (s : Sm3) (msg : List ℕ) (n : ℕ) → (update s msg n).length ≡ s.length
unfolding update
update-length s msg n = refl

pub write-IsValid : (s : Sm3) (p : List ℕ) → IsValid s → IsValid (write s p).0
unfolding write
write-IsValid s p v =
    let msg = s.unhandle_msg ++ p in
    let counted_s = record s { length = (s.length + length p * 8 % 2 ^ 64) % 2 ^ 64 } in
    record {
      words = update-words counted_s msg (length msg / 64) v.words;
      counted = omega (arith, update-length counted_s msg (length msg / 64));
      waiting = omega (arith, length-drop (length msg / 64 * 64) msg);
    }

pub sum-IsValid :
    {E : Type 0} (s t : Sm3) (input out : List ℕ)
    → IsValid s
    → sum {E = E} s input ≡ ok (t, out)
    → IsValid t
unfolding sum
sum-IsValid s t input out v e =
    let written = (write s input).0 in
    let w : IsValid written = write-IsValid s input v in
    let (msg, made, last) = >>=-eq-ok (pad written) _ e in
    let final : update written msg (length msg / 64) ≡ t = cc in
    subst IsValid final (after written msg w)
  where
    after : (w : Sm3) (msg : List ℕ) → IsValid w → IsValid (update w msg (length msg / 64))
    after w msg h = record {
      words = update-words w msg (length msg / 64) h.words;
      counted = unfold update in h.counted;
      waiting = unfold update in h.waiting;
    }

-- The objects that calls of the methods make out of `New()`.
pub data Reach : Sm3 → Type 0 where
  fresh : Reach new
  reused : {s : Sm3} → Reach s → Reach (reset s)
  wrote : {s : Sm3} (p : List ℕ) → Reach s → Reach (write s p).0
  summed : {s t : Sm3} (input out : List ℕ) → Reach s → sum {E = ⊥} s input ≡ ok (t, out) → Reach t

reset-IsValid : (s : Sm3) → IsValid (reset s)
unfolding reset
reset-IsValid s = record { words = omega arith; counted = omega arith; waiting = omega arith }

-- Whatever calls of `Reset`, `Write` and `Sum` made it out of `New()`, an object holds eight words, a 64-bit count and less than a block.
pub Reach-IsValid : {s : Sm3} → Reach s → IsValid s
Reach-IsValid fresh = unfold new in reset-IsValid zero_value
Reach-IsValid (reused {s = s} r) = reset-IsValid s
Reach-IsValid (wrote p r) = write-IsValid _ p (Reach-IsValid r)
Reach-IsValid (summed input out r e) = sum-IsValid _ _ input out (Reach-IsValid r) e

-- The words of a digest come out as 32 bytes.
pub digest_bytes_shape : (r : Registers) → (length (digest_bytes r) ≡ 32) × IsBytes (digest_bytes r)
unfolding digest_bytes be_bytes
digest_bytes_shape r = (refl, omega arith)
