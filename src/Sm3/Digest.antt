-- ===== src/Sm3/Digest.antt =====
-- sm3/sm3.go: the hash object and its methods. A method with a pointer receiver returns the new
-- object with its results.
use gmsm.Common.{
  ℕ, zero, suc, ◌+◌, ◌*◌, ◌/◌, ◌%◌, ◌^◌, bit_and, be_bytes, length, drop, List, [], ◌∷◌, ◌++◌, ◌==◌,
  leb, if◌then◌else◌,
}
use gmsm.Common.{Outcome, ok, panic, ◌>>=◌}
use gmsm.Sm3.Compress.{Registers, compress}

pub record Sm3 : Type 0 where
  pub digest : Registers
  pub length : ℕ
  pub unhandle_msg : List ℕ

abbrev pub block_size : ℕ
block_size = 64

abbrev pub size : ℕ
size = 32

-- `for len(msg)%blockSize != 56 { msg = append(msg, 0x00) }`, with fuel; 64 rounds are enough.
unfoldable pub pad_loop : ℕ → List ℕ → List ℕ
pad_loop zero msg = msg
pad_loop (suc fuel) msg =
    let rest = pad_loop fuel (msg ++ (0 ∷ [])) in if length msg % 64 == 56 then msg else rest

-- The appends of the eight bytes of the length.
unfoldable pub length_bytes : ℕ → List ℕ
length_bytes n =
    bit_and (n / 2 ^ 56) 0xff
    ∷ bit_and (n / 2 ^ 48) 0xff
    ∷ bit_and (n / 2 ^ 40) 0xff
    ∷ bit_and (n / 2 ^ 32) 0xff
    ∷ bit_and (n / 2 ^ 24) 0xff
    ∷ bit_and (n / 2 ^ 16) 0xff
    ∷ bit_and (n / 2 ^ 8) 0xff
    ∷ bit_and (n / 2 ^ 0) 0xff
    ∷ []

unfoldable pub checked : {E : Type 0} → List ℕ → Outcome E (List ℕ)
checked msg = if length msg % 64 == 0 then ok msg else panic

unfoldable pub pad : {E : Type 0} → Sm3 → Outcome E (List ℕ)
pad s = checked (pad_loop 64 (s.unhandle_msg ++ (0x80 ∷ [])) ++ length_bytes s.length)

-- `for len(msg) >= 64`, with fuel; each round takes 64 bytes, so `len(msg)` rounds are enough.
unfoldable pub update_loop : ℕ → Registers → List ℕ → Registers
update_loop zero r msg = r
update_loop (suc fuel) r msg =
    let rest = update_loop fuel (compress r msg) (drop 64 msg) in
    if leb 64 (length msg) then rest else r

-- The number of blocks is not used by the code.
unfoldable pub update : Sm3 → List ℕ → ℕ → Sm3
update s msg nblocks = record s { digest = update_loop (length msg) s.digest msg }

abbrev pub initial : Registers
initial = record {
  a = 0x7380166f;
  b = 0x4914b2b9;
  c = 0x172442d7;
  d = 0xda8a0600;
  e = 0xa96f30bc;
  f = 0x163138aa;
  g = 0xe38dee4d;
  h = 0xb0fb0e4e;
}

unfoldable pub reset : Sm3 → Sm3
reset s = record { digest = initial; length = 0; unhandle_msg = [] }

-- The object that `New` resets is Go's zero value.
abbrev pub zero_value : Sm3
zero_value = record {
  digest = record { a = 0; b = 0; c = 0; d = 0; e = 0; f = 0; g = 0; h = 0 };
  length = 0;
  unhandle_msg = [];
}

unfoldable pub new : Sm3
unfolding reset
new = reset zero_value

-- The new object and the number of bytes taken; the error is always nil.
unfoldable pub write : Sm3 → List ℕ → Sm3 × ℕ
write s p =
    let msg = s.unhandle_msg ++ p in
    let nblocks = length msg / block_size in
    let updated =
      update (record s { length = (s.length + length p * 8 % 2 ^ 64) % 2 ^ 64 }) msg nblocks in
    (record updated { unhandle_msg = drop (nblocks * block_size) msg }, length p)

unfoldable pub digest_bytes : Registers → List ℕ
digest_bytes r =
    be_bytes r.a
    ++ (be_bytes r.b
        ++ (be_bytes r.c
            ++ (be_bytes r.d
                ++ (be_bytes r.e ++ (be_bytes r.f ++ (be_bytes r.g ++ be_bytes r.h))))))

-- `Sum` writes its argument into the object, and answers the 32 bytes of the hash alone.
unfoldable pub sum : {E : Type 0} → Sm3 → List ℕ → Outcome E (Sm3 × List ℕ)
sum s input =
    let written = (write s input).0 in
    pad written >>= λ msg.
    let final = update written msg (length msg / block_size) in
    ok (final, digest_bytes final.digest)

unfoldable pub sm3_sum : {E : Type 0} → List ℕ → Outcome E (List ℕ)
sm3_sum data_bytes = sum (write (reset zero_value) data_bytes).0 [] >>= λ r. ok r.1
