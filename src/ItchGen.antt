-- ===== src/ItchGen.antt =====
-- tools/itch_gen.cpp: the messages that the generator writes, and the framing of ItchWriter::emit.
-- Each lambda fills the 64-byte buffer from 0 to its length without a gap, so a message is the
-- stores one after the other. The clock `ts`, which the random numbers advance, and the match number
-- are arguments; what the random numbers choose is left open.
use burst_resilient_feed_han.Base.{ℕ, ◌-◌, ◌%◌, ◌^◌, List, [], ◌∷◌, ◌++◌, length}
use burst_resilient_feed_han.Base.Int.{ℤ, pos, negsuc}
use burst_resilient_feed_han.Bytes.{store_be16, store_be32, store_be48, store_be64}

-- `static_cast<std::uint32_t>(px)`.
unfoldable pub u32_of : ℤ → ℕ
u32_of (pos n) = n % 2 ^ 32
u32_of (negsuc n) = 2 ^ 32 - 1 - n % 2 ^ 32

-- `struct Live`: the side is the byte 'B' or 'S'.
pub record Live : Type 0 where
  pub ref : ℕ
  pub side : ℕ
  pub px : ℤ
  pub sz : ℕ

-- `hdr`: type, locate (kLocate), tracking number, timestamp.
unfoldable pub hdr : ℕ → ℕ → List ℕ
hdr type ts = type ∷ (store_be16 1 ++ (store_be16 0 ++ store_be48 ts))

unfoldable pub emit_system : ℕ → ℕ → List ℕ
emit_system ts code = hdr b'S' ts ++ (code ∷ [])

unfoldable pub emit_add : ℕ → List ℕ → Live → List ℕ
emit_add ts sym o =
    hdr b'A' ts
    ++ (store_be64 o.ref ++ (o.side ∷ (store_be32 o.sz ++ (sym ++ store_be32 (u32_of o.px)))))

unfoldable pub emit_exec : ℕ → ℕ → ℕ → ℕ → List ℕ
emit_exec ts ref shares match =
    hdr b'E' ts ++ (store_be64 ref ++ (store_be32 shares ++ store_be64 match))

unfoldable pub emit_cancel : ℕ → ℕ → ℕ → List ℕ
emit_cancel ts ref shares = hdr b'X' ts ++ (store_be64 ref ++ store_be32 shares)

unfoldable pub emit_delete : ℕ → ℕ → List ℕ
emit_delete ts ref = hdr b'D' ts ++ store_be64 ref

unfoldable pub emit_replace : ℕ → ℕ → ℕ → ℕ → ℤ → List ℕ
emit_replace ts orig neu sz px =
    hdr b'U' ts
    ++ (store_be64 orig ++ (store_be64 neu ++ (store_be32 sz ++ store_be32 (u32_of px))))

-- A trade at the middle price, kMid, with no order behind it.
unfoldable pub emit_trade : ℕ → List ℕ → ℕ → ℕ → ℕ → List ℕ
emit_trade ts sym side shares match =
    hdr b'P' ts
    ++ (store_be64 0
        ++ (side ∷ (store_be32 shares ++ (sym ++ (store_be32 1_000_000 ++ store_be64 match)))))

-- `emit`: the length, then the message.
unfoldable pub emit : List ℕ → List ℕ
emit msg = store_be16 (length msg % 2 ^ 16) ++ msg
