-- ===== src/Sm3/Refinement.antt =====
-- The object against the specification: an object that was given a message in any pieces is the
-- object of the whole message, and its `Sum` is the hash of the whole message.
use gmsm.Common.{
  ℕ, ◌+◌, ◌*◌, ◌/◌, ◌%◌, ◌^◌, ◌≤◌, ◌≡◌, refl, sym, ap, ap₂, ◌∙◌, List, [], ◌∷◌, ◌++◌, foldl, length,
  drop, length-drop, length-append, drop-append_le, drop-drop, replicate, arith,
}
use gmsm.Common.{ok}
use mathlib.Core.List.{append_assoc, append-nil, foldl-append, flatten}
use gmsm.Sm3.Compress.{Registers, compress}
use gmsm.Sm3.Digest.{Sm3, initial, length_bytes, pad, update, reset, write, sum, sm3_sum}
use gmsm.Sm3.Padding.{padded, zeros_for, pad-padded}
use gmsm.Sm3.Blocks.{blocks, blocks-add, blocks-append, update-foldl}
use gmsm.Sm3.Spec.{absorb, bit_count, hash, tail, taken}

length-tail : (msg : List ℕ) → length (tail msg) ≡ length msg % 64
length-tail msg = omega (arith, length-drop (length msg / 64 * 64) msg)

-- A message is absorbed in two parts: its whole blocks, then its tail with what follows.
pub absorb-append :
    (r : Registers) (msg more : List ℕ)
    → absorb (absorb r msg) (tail msg ++ more) ≡ absorb r (msg ++ more)
unfolding absorb
absorb-append r msg more =
    let n = length msg / 64 in
    let m = length (tail msg ++ more) / 64 in
    let whole : n * 64 ≤ length msg = omega arith in
    let split : blocks (length (msg ++ more) / 64) (msg ++ more)
        ≡ blocks n msg ++ blocks m (tail msg ++ more) =
      blocks-add n m (length (msg ++ more) / 64) (msg ++ more)
        (omega (arith, length-append msg more, length-append (tail msg) more, length-tail msg))
      ∙ ap₂ ◌++◌ (blocks-append n msg more whole)
          (ap (blocks m) (drop-append_le (n * 64) msg more whole)) in
    sym (
      ap (foldl compress r) split
      ∙ foldl-append compress r (blocks n msg) (blocks m (tail msg ++ more)))

tail-append : (msg more : List ℕ) → tail (tail msg ++ more) ≡ tail (msg ++ more)
tail-append msg more =
    let n = length msg / 64 in
    let whole : n * 64 ≤ length msg = omega arith in
    ap (λ t. drop (length (tail msg ++ more) / 64 * 64) t) {y = drop (n * 64) (msg ++ more)}
      (sym (drop-append_le (n * 64) msg more whole))
    ∙ drop-drop (length (tail msg ++ more) / 64 * 64) (n * 64) (msg ++ more)
    ∙ ap (λ (k : ℕ). drop k (msg ++ more)) {y = length (msg ++ more) / 64 * 64}
        (omega (arith, length-append msg more, length-append (tail msg) more, length-tail msg))

pub reset-taken : (s : Sm3) → reset s ≡ taken []
unfolding reset taken absorb blocks
reset-taken s = refl

update-absorb :
    (s : Sm3) (msg : List ℕ) (nblocks : ℕ)
    → update s msg nblocks ≡ record s { digest = absorb s.digest msg }
unfolding absorb
update-absorb s msg nblocks = update-foldl s msg nblocks

-- `Write` takes the object of a message to the object of the message with the new bytes behind it,
-- and answers their number.
pub write-taken : (msg p : List ℕ) → write (taken msg) p ≡ (taken (msg ++ p), length p)
unfolding write taken
write-taken msg p =
    let bits : (bit_count msg + bit_count p) % 2 ^ 64 ≡ bit_count (msg ++ p) =
      omega (arith, length-append msg p) in
    rw update-absorb λ i. (
      record {
        digest = absorb-append initial msg p i;
        length = bits i;
        unhandle_msg = tail-append msg p i;
      },
      length p,
    )

-- The object of a message, with its padding compressed too.
unfoldable pub finished : List ℕ → Sm3
finished msg = record (taken msg) { digest = absorb initial (padded msg (bit_count msg)) }

padded-tail :
    (msg : List ℕ) (bits : ℕ)
    → padded (tail msg) bits
      ≡ tail msg ++ ((0x80 ∷ replicate (zeros_for (length msg)) 0) ++ length_bytes bits)
padded-tail msg bits =
    append_assoc (tail msg) (0x80 ∷ replicate (zeros_for (length (tail msg))) 0) (length_bytes bits)
    ∙ ap (λ (k : ℕ). tail msg ++ ((0x80 ∷ replicate k 0) ++ length_bytes bits))
        (omega (arith, length-tail msg))

update-finished :
    (msg : List ℕ) (nblocks : ℕ)
    → update (taken msg) (padded (tail msg) (bit_count msg)) nblocks ≡ finished msg
unfolding taken finished
update-finished msg nblocks =
    let rest = (0x80 ∷ replicate (zeros_for (length msg)) 0) ++ length_bytes (bit_count msg) in
    update-absorb (taken msg) (padded (tail msg) (bit_count msg)) nblocks
    ∙ ap (λ d. record (taken msg) { digest = d })
        (ap (absorb (absorb initial msg)) (padded-tail msg (bit_count msg))
          ∙ absorb-append initial msg rest
          ∙ ap (absorb initial) (
              sym (
                append_assoc msg (0x80 ∷ replicate (zeros_for (length msg)) 0)
                  (length_bytes (bit_count msg)))))

pad-taken :
    {E : Type 0} (msg : List ℕ) → pad {E = E} (taken msg) ≡ ok (padded (tail msg) (bit_count msg))
unfolding taken
pad-taken msg = (pad-padded (taken msg)).0

-- `Sum` on the object of a message answers the hash of the message with the argument behind it,
-- and leaves the object with that longer message, its padding compressed.
pub sum-taken :
    {E : Type 0} (msg input : List ℕ)
    → sum {E = E} (taken msg) input ≡ ok (finished (msg ++ input), hash (msg ++ input))
unfolding sum hash
sum-taken {E} msg input =
    rw
      (
        write-taken msg input,
        pad-taken {E = E} (msg ++ input),
        update-finished (msg ++ input)
            (length (padded (tail (msg ++ input)) (bit_count (msg ++ input))) / 64),
      )
      (unfold finished in refl)

-- `Sm3Sum` is the hash of its argument.
pub sm3_sum-hash : {E : Type 0} (msg : List ℕ) → sm3_sum {E = E} msg ≡ ok (hash msg)
unfolding sm3_sum
sm3_sum-hash {E} msg =
    rw (reset-taken, write-taken [] msg, sum-taken {E = E} msg [], append-nil msg)

-- The object after any sequence of writes.
abbrev pub write_all : Sm3 → List (List ℕ) → Sm3
write_all s pieces = foldl (λ t p. (write t p).0) s pieces

write_all-taken :
    (msg : List ℕ) (pieces : List (List ℕ))
    → write_all (taken msg) pieces ≡ taken (msg ++ flatten pieces)
unfolding flatten
write_all-taken msg [] = ap taken (sym (append-nil msg))
write_all-taken msg (p ∷ pieces) =
    ap (λ t. write_all t.0 pieces) (write-taken msg p)
    ∙ write_all-taken (msg ++ p) pieces
    ∙ ap taken (append_assoc msg p (flatten pieces))

-- However a message is cut into writes, `Sum` of the object answers the hash of the whole message.
pub sum-write_all :
    {E : Type 0} (s : Sm3) (pieces : List (List ℕ))
    → (final : Sm3) × (sum {E = E} (write_all (reset s) pieces) []
        ≡ ok (final, hash (flatten pieces)))
sum-write_all {E} s pieces = (
  finished (flatten pieces),
  rw (
    reset-taken,
    write_all-taken [] pieces,
    sum-taken {E = E} (flatten pieces) [],
    append-nil (flatten pieces),
  ),
)
