-- ===== src/Itch/Bounds.antt =====
-- The parser reads no byte beyond the length that it is given.
use burst_resilient_feed_han.Base.{ℕ, ◌+◌, ◌≤◌, ◌<◌, ◌≡◌, ◌⊎◌, List, arith}
use burst_resilient_feed_han.Event.{MarketEvent}
use burst_resilient_feed_han.Bytes.{byte, load_u8, load_be16, load_be32, load_be48, load_be64}
use burst_resilient_feed_han.Itch.{
  message_length, copy_symbol, decode_header, decode_add, decode_executed, decode_executed_price,
  decode_cancel, decode_delete, decode_replace, decode_trade, decode, parse,
}

-- The two buffers hold the same first `n` bytes.
abbrev pub SameBytes : ℕ → List ℕ → List ℕ → Type 0
SameBytes n a b = (i : ℕ) → i < n → byte a i ≡ byte b i

module _ (n : ℕ) (a b : List ℕ) (same : SameBytes n a b) where
  load_u8-same : (off : ℕ) → off < n → load_u8 a off ≡ load_u8 b off
  unfolding load_u8
  load_u8-same off h = rw (same off h)

  load_be16-same : (off : ℕ) → off + 2 ≤ n → load_be16 a off ≡ load_be16 b off
  unfolding load_be16
  load_be16-same off h = ground (arith, same off, same (off + 1))

  load_be32-same : (off : ℕ) → off + 4 ≤ n → load_be32 a off ≡ load_be32 b off
  unfolding load_be32
  load_be32-same off h = ground (arith, same off, same (off + 1), same (off + 2), same (off + 3))

  load_be48-same : (off : ℕ) → off + 6 ≤ n → load_be48 a off ≡ load_be48 b off
  unfolding load_be48
  load_be48-same off h = ground (
    arith,
    same off,
    same (off + 1),
    same (off + 2),
    same (off + 3),
    same (off + 4),
    same (off + 5),
  )

  load_be64-same : (off : ℕ) → off + 8 ≤ n → load_be64 a off ≡ load_be64 b off
  unfolding load_be64
  load_be64-same off h = ground (
    arith,
    same off,
    same (off + 1),
    same (off + 2),
    same (off + 3),
    same (off + 4),
    same (off + 5),
    same (off + 6),
    same (off + 7),
  )

  copy_symbol-same : (off : ℕ) → off + 8 ≤ n → copy_symbol a off ≡ copy_symbol b off
  unfolding copy_symbol
  copy_symbol-same off h = ground (
    arith,
    same off,
    same (off + 1),
    same (off + 2),
    same (off + 3),
    same (off + 4),
    same (off + 5),
    same (off + 6),
    same (off + 7),
  )

  decode_header-same : 11 ≤ n → decode_header a ≡ decode_header b
  unfolding decode_header
  decode_header-same h = ground (arith, load_be16-same 1, load_be48-same 5)

  decode_add-same : (out : MarketEvent) → 36 ≤ n → decode_add a out ≡ decode_add b out
  unfolding decode_add
  decode_add-same out h = rw (
    load_be64-same 11 (omega arith),
    load_u8-same 19 (omega arith),
    load_be32-same 20 (omega arith),
    copy_symbol-same 24 (omega arith),
    load_be32-same 32 (omega arith),
  )

  decode_trade-same : (out : MarketEvent) → 44 ≤ n → decode_trade a out ≡ decode_trade b out
  unfolding decode_trade
  decode_trade-same out h = rw (
    load_be64-same 11 (omega arith),
    load_u8-same 19 (omega arith),
    load_be32-same 20 (omega arith),
    copy_symbol-same 24 (omega arith),
    load_be32-same 32 (omega arith),
    load_be64-same 36 (omega arith),
  )

  decode_rest-same :
      (out : MarketEvent)
      → (31 ≤ n → decode_executed a out ≡ decode_executed b out)
        × (36 ≤ n → decode_executed_price a out ≡ decode_executed_price b out)
        × (23 ≤ n → decode_cancel a out ≡ decode_cancel b out)
        × (19 ≤ n → decode_delete a out ≡ decode_delete b out)
        × (35 ≤ n → decode_replace a out ≡ decode_replace b out)
  unfolding decode_executed decode_executed_price decode_cancel decode_delete decode_replace
  decode_rest-same out = (
    λ h. rw (
      load_be64-same 11 (omega arith),
      load_be32-same 19 (omega arith),
      load_be64-same 23 (omega arith),
    ),
    λ h. rw (
      load_be64-same 11 (omega arith),
      load_be32-same 19 (omega arith),
      load_be64-same 23 (omega arith),
      load_be32-same 32 (omega arith),
    ),
    λ h. rw (load_be64-same 11 (omega arith), load_be32-same 19 (omega arith)),
    λ h. rw (load_be64-same 11 (omega arith)),
    λ h. rw (
      load_be64-same 11 (omega arith),
      load_be64-same 19 (omega arith),
      load_be32-same 27 (omega arith),
      load_be32-same 31 (omega arith),
    ),
  )

  decode-same :
      (type : ℕ) (out : MarketEvent)
      → message_length type ≤ n
      → decode type a out ≡ decode type b out
  unfolding decode message_length
  decode-same type out h =
      let rest = decode_rest-same out in
      ground
        (arith, decode_add-same out, decode_trade-same out, rest.0, rest.1, rest.2, rest.3, rest.4)

message_length-header : (type : ℕ) → (message_length type ≡ 0) ⊎ (12 ≤ message_length type)
unfolding message_length
message_length-header type = ground arith

-- Two buffers that hold the same first `len` bytes parse alike, whatever lies behind: the parser
-- reads no byte at or beyond `len`.
pub parse_reads_within :
    (a b : List ℕ) (len : ℕ) (out : MarketEvent)
    → SameBytes len a b
    → parse a len out ≡ parse b len out
unfolding parse
parse_reads_within a b len out same = ground (
  arith,
  load_u8-same len a b same 0,
  decode_header-same len a b same,
  decode-same len a b same (load_u8 b 0) (decode_header b),
  message_length-header (load_u8 b 0),
)
