-- ===== src/Bytes.antt =====
-- include/feedhandler/detail/byte_read.hpp: big-endian loads and stores. A pointer into a buffer is
-- the buffer with an offset; a store is the list of the bytes that it writes.
pub mod RoundTrip
use Prim.Native.Nat.{bit_or}
use burst_resilient_feed_han.Base.{ℕ, ◌+◌, ◌*◌, ◌/◌, ◌%◌, ◌^◌, List, [], ◌∷◌, get_or}

-- `p[i]` of the buffer `msg` at `off`. That no load is out of the buffer is a theorem of the parser.
abbrev pub byte : List ℕ → ℕ → ℕ
byte msg i = get_or msg i 0

-- `x << k` on a word of `w` bits.
abbrev pub shl : ℕ → ℕ → ℕ → ℕ
shl w x k = x * 2 ^ k % 2 ^ w

unfoldable pub load_u8 : List ℕ → ℕ → ℕ
load_u8 msg off = byte msg off % 256

unfoldable pub be16 : ℕ → ℕ → ℕ
be16 b0 b1 = bit_or (shl 32 b0 8) b1 % 2 ^ 16

unfoldable pub load_be16 : List ℕ → ℕ → ℕ
load_be16 msg off = be16 (byte msg off) (byte msg (off + 1))

unfoldable pub be32 : ℕ → ℕ → ℕ → ℕ → ℕ
be32 b0 b1 b2 b3 = bit_or (bit_or (bit_or (shl 32 b0 24) (shl 32 b1 16)) (shl 32 b2 8)) b3

unfoldable pub load_be32 : List ℕ → ℕ → ℕ
load_be32 msg off =
    be32 (byte msg off) (byte msg (off + 1)) (byte msg (off + 2)) (byte msg (off + 3))

unfoldable pub be48 : ℕ → ℕ → ℕ → ℕ → ℕ → ℕ → ℕ
be48 b0 b1 b2 b3 b4 b5 =
    bit_or
      (bit_or (bit_or (bit_or (bit_or (shl 64 b0 40) (shl 64 b1 32)) (shl 64 b2 24)) (shl 64 b3 16))
        (shl 64 b4 8))
      b5

unfoldable pub load_be48 : List ℕ → ℕ → ℕ
load_be48 msg off =
    be48 (byte msg off) (byte msg (off + 1)) (byte msg (off + 2)) (byte msg (off + 3))
      (byte msg (off + 4)) (byte msg (off + 5))

unfoldable pub be64 : ℕ → ℕ → ℕ → ℕ → ℕ → ℕ → ℕ → ℕ → ℕ
be64 b0 b1 b2 b3 b4 b5 b6 b7 =
    bit_or
      (bit_or
        (bit_or
          (bit_or
            (bit_or (bit_or (bit_or (shl 64 b0 56) (shl 64 b1 48)) (shl 64 b2 40)) (shl 64 b3 32))
            (shl 64 b4 24))
          (shl 64 b5 16))
        (shl 64 b6 8))
      b7

unfoldable pub load_be64 : List ℕ → ℕ → ℕ
load_be64 msg off =
    be64 (byte msg off) (byte msg (off + 1)) (byte msg (off + 2)) (byte msg (off + 3))
      (byte msg (off + 4)) (byte msg (off + 5)) (byte msg (off + 6)) (byte msg (off + 7))

-- `(uint8_t)(v >> k)`.
abbrev pub byte_of : ℕ → ℕ → ℕ
byte_of v k = v / 2 ^ k % 256

unfoldable pub store_be16 : ℕ → List ℕ
store_be16 v = byte_of v 8 ∷ byte_of v 0 ∷ []

unfoldable pub store_be32 : ℕ → List ℕ
store_be32 v = byte_of v 24 ∷ byte_of v 16 ∷ byte_of v 8 ∷ byte_of v 0 ∷ []

unfoldable pub store_be48 : ℕ → List ℕ
store_be48 v =
    byte_of v 40 ∷ byte_of v 32 ∷ byte_of v 24 ∷ byte_of v 16 ∷ byte_of v 8 ∷ byte_of v 0 ∷ []

unfoldable pub store_be64 : ℕ → List ℕ
store_be64 v =
    byte_of v 56
    ∷ byte_of v 48
    ∷ byte_of v 40
    ∷ byte_of v 32
    ∷ byte_of v 24
    ∷ byte_of v 16
    ∷ byte_of v 8
    ∷ byte_of v 0
    ∷ []
