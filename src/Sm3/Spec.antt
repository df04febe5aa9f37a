-- ===== src/Sm3/Spec.antt =====
-- The hash of GB/T 32905 as a function of the whole message, and the object that has taken a given
-- message so far.
use gmsm.Common.{ℕ, ◌*◌, ◌/◌, ◌%◌, ◌^◌, length, drop, List, foldl}
use gmsm.Sm3.Compress.{Registers, compress}
use gmsm.Sm3.Digest.{Sm3, initial, digest_bytes}
use gmsm.Sm3.Padding.{padded}
use gmsm.Sm3.Blocks.{blocks}

-- The compression of all whole blocks of a message.
unfoldable pub absorb : Registers → List ℕ → Registers
absorb r msg = foldl compress r (blocks (length msg / 64) msg)

abbrev pub bit_count : List ℕ → ℕ
bit_count msg = length msg * 8 % 2 ^ 64

-- The hash: pad the message, compress its blocks from the fixed start, and write the words out.
unfoldable pub hash : List ℕ → List ℕ
hash msg = digest_bytes (absorb initial (padded msg (bit_count msg)))

-- What is left of a message behind its whole blocks.
abbrev pub tail : List ℕ → List ℕ
tail msg = drop (length msg / 64 * 64) msg

-- The object after a message has been written.
unfoldable pub taken : List ℕ → Sm3
taken msg = record { digest = absorb initial msg; length = bit_count msg; unhandle_msg = tail msg }
