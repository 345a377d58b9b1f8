-- ===== src/Bytes/RoundTrip.antt =====
-- The shifts and ors of a load are a sum of bytes, and a load reads back what a store wrote.
use Prim.Native.Nat.{bit_or}
use burst_resilient_feed_han.Base.{ℕ, ◌+◌, ◌*◌, ◌^◌, ◌<◌, ◌≡◌, arith}
use burst_resilient_feed_han.Base.Bits.{bit_or-shifted}
use burst_resilient_feed_han.Bytes.{shl, be16, be32, be48, be64, byte_of}

-- One byte more below what is assembled so far.
join : (k q b : ℕ) (x : ℕ) → x ≡ q * 2 ^ k → b < 2 ^ k → bit_or x b ≡ q * 2 ^ k + b
join k q b x e h = rw e (bit_or-shifted k q b h)

be16_sum : (b0 b1 : ℕ) → b0 < 256 → b1 < 256 → be16 b0 b1 ≡ b0 * 2 ^ 8 + b1
unfolding be16
be16_sum b0 b1 h0 h1 = omega (arith, join 8 b0 b1 (shl 32 b0 8) (omega arith) (omega arith))

be32_sum :
    (b0 b1 b2 b3 : ℕ)
    → b0 < 256
    → b1 < 256
    → b2 < 256
    → b3 < 256
    → be32 b0 b1 b2 b3 ≡ b0 * 2 ^ 24 + b1 * 2 ^ 16 + b2 * 2 ^ 8 + b3
unfolding be32
be32_sum b0 b1 b2 b3 h0 h1 h2 h3 =
    let j1 = join 24 b0 (shl 32 b1 16) (shl 32 b0 24) (omega arith) (omega arith) in
    let j2 =
      join 16 (b0 * 2 ^ 8 + b1) (shl 32 b2 8) (bit_or (shl 32 b0 24) (shl 32 b1 16)) (omega arith)
        (omega arith) in
    let j3 =
      join 8 (b0 * 2 ^ 16 + b1 * 2 ^ 8 + b2) b3
        (bit_or (bit_or (shl 32 b0 24) (shl 32 b1 16)) (shl 32 b2 8)) (omega arith) (omega arith) in
    omega arith

-- A load at the front of what a store wrote.
pub be16-bytes : (v : ℕ) → v < 2 ^ 16 → be16 (byte_of v 8) (byte_of v 0) ≡ v
be16-bytes v h = omega (arith, be16_sum (byte_of v 8) (byte_of v 0) (omega arith) (omega arith))

pub be32-bytes :
    (v : ℕ) → v < 2 ^ 32 → be32 (byte_of v 24) (byte_of v 16) (byte_of v 8) (byte_of v 0) ≡ v
be32-bytes v h = omega (
  arith,
  be32_sum (byte_of v 24) (byte_of v 16) (byte_of v 8) (byte_of v 0) (omega arith) (omega arith)
      (omega arith) (omega arith),
)

be48_sum :
    (b0 b1 b2 b3 b4 b5 : ℕ)
    → b0 < 256
    → b1 < 256
    → b2 < 256
    → b3 < 256
    → b4 < 256
    → b5 < 256
    → be48 b0 b1 b2 b3 b4 b5
      ≡ b0 * 2 ^ 40 + b1 * 2 ^ 32 + b2 * 2 ^ 24 + b3 * 2 ^ 16 + b4 * 2 ^ 8 + b5
unfolding be48
be48_sum b0 b1 b2 b3 b4 b5 h0 h1 h2 h3 h4 h5 =
    let x1 : ℕ = bit_or (shl 64 b0 40) (shl 64 b1 32) in
    let j1 : x1 ≡ b0 * 2 ^ 40 + (shl 64 b1 32) =
      join 40 b0 (shl 64 b1 32) (shl 64 b0 40) (omega arith) (omega arith) in
    let x2 : ℕ = bit_or x1 (shl 64 b2 24) in
    let j2 : x2 ≡ (b0 * 2 ^ 8 + b1) * 2 ^ 32 + (shl 64 b2 24) =
      join 32 (b0 * 2 ^ 8 + b1) (shl 64 b2 24) x1 (omega arith) (omega arith) in
    let x3 : ℕ = bit_or x2 (shl 64 b3 16) in
    let j3 : x3 ≡ (b0 * 2 ^ 16 + b1 * 2 ^ 8 + b2) * 2 ^ 24 + (shl 64 b3 16) =
      join 24 (b0 * 2 ^ 16 + b1 * 2 ^ 8 + b2) (shl 64 b3 16) x2 (omega arith) (omega arith) in
    let x4 : ℕ = bit_or x3 (shl 64 b4 8) in
    let j4 : x4 ≡ (b0 * 2 ^ 24 + b1 * 2 ^ 16 + b2 * 2 ^ 8 + b3) * 2 ^ 16 + (shl 64 b4 8) =
      join 16 (b0 * 2 ^ 24 + b1 * 2 ^ 16 + b2 * 2 ^ 8 + b3) (shl 64 b4 8) x3 (omega arith)
        (omega arith) in
    let x5 : ℕ = bit_or x4 b5 in
    let j5 : x5 ≡ (b0 * 2 ^ 32 + b1 * 2 ^ 24 + b2 * 2 ^ 16 + b3 * 2 ^ 8 + b4) * 2 ^ 8 + b5 =
      join 8 (b0 * 2 ^ 32 + b1 * 2 ^ 24 + b2 * 2 ^ 16 + b3 * 2 ^ 8 + b4) b5 x4 (omega arith)
        (omega arith) in
    omega arith

pub be48-bytes :
    (v : ℕ)
    → v < 2 ^ 48
    → be48 (byte_of v 40) (byte_of v 32) (byte_of v 24) (byte_of v 16) (byte_of v 8) (byte_of v 0)
      ≡ v
be48-bytes v h = omega (
  arith,
  be48_sum (byte_of v 40) (byte_of v 32) (byte_of v 24) (byte_of v 16) (byte_of v 8) (byte_of v 0)
      (omega arith) (omega arith) (omega arith) (omega arith) (omega arith) (omega arith),
)

be64_sum :
    (b0 b1 b2 b3 b4 b5 b6 b7 : ℕ)
    → b0 < 256
    → b1 < 256
    → b2 < 256
    → b3 < 256
    → b4 < 256
    → b5 < 256
    → b6 < 256
    → b7 < 256
    → be64 b0 b1 b2 b3 b4 b5 b6 b7
      ≡ b0 * 2 ^ 56
        + b1 * 2 ^ 48
        + b2 * 2 ^ 40
        + b3 * 2 ^ 32
        + b4 * 2 ^ 24
        + b5 * 2 ^ 16
        + b6 * 2 ^ 8
        + b7
unfolding be64
be64_sum b0 b1 b2 b3 b4 b5 b6 b7 h0 h1 h2 h3 h4 h5 h6 h7 =
    let x1 : ℕ = bit_or (shl 64 b0 56) (shl 64 b1 48) in
    let j1 : x1 ≡ b0 * 2 ^ 56 + (shl 64 b1 48) =
      join 56 b0 (shl 64 b1 48) (shl 64 b0 56) (omega arith) (omega arith) in
    let x2 : ℕ = bit_or x1 (shl 64 b2 40) in
    let j2 : x2 ≡ (b0 * 2 ^ 8 + b1) * 2 ^ 48 + (shl 64 b2 40) =
      join 48 (b0 * 2 ^ 8 + b1) (shl 64 b2 40) x1 (omega arith) (omega arith) in
    let x3 : ℕ = bit_or x2 (shl 64 b3 32) in
    let j3 : x3 ≡ (b0 * 2 ^ 16 + b1 * 2 ^ 8 + b2) * 2 ^ 40 + (shl 64 b3 32) =
      join 40 (b0 * 2 ^ 16 + b1 * 2 ^ 8 + b2) (shl 64 b3 32) x2 (omega arith) (omega arith) in
    let x4 : ℕ = bit_or x3 (shl 64 b4 24) in
    let j4 : x4 ≡ (b0 * 2 ^ 24 + b1 * 2 ^ 16 + b2 * 2 ^ 8 + b3) * 2 ^ 32 + (shl 64 b4 24) =
      join 32 (b0 * 2 ^ 24 + b1 * 2 ^ 16 + b2 * 2 ^ 8 + b3) (shl 64 b4 24) x3 (omega arith)
        (omega arith) in
    let x5 : ℕ = bit_or x4 (shl 64 b5 16) in
    let j5 : x5
        ≡ (b0 * 2 ^ 32 + b1 * 2 ^ 24 + b2 * 2 ^ 16 + b3 * 2 ^ 8 + b4) * 2 ^ 24 + (shl 64 b5 16) =
      join 24 (b0 * 2 ^ 32 + b1 * 2 ^ 24 + b2 * 2 ^ 16 + b3 * 2 ^ 8 + b4) (shl 64 b5 16) x4
        (omega arith) (omega arith) in
    let x6 : ℕ = bit_or x5 (shl 64 b6 8) in
    let j6 : x6
        ≡ (b0 * 2 ^ 40 + b1 * 2 ^ 32 + b2 * 2 ^ 24 + b3 * 2 ^ 16 + b4 * 2 ^ 8 + b5) * 2 ^ 16
          + (shl 64 b6 8) =
      join 16 (b0 * 2 ^ 40 + b1 * 2 ^ 32 + b2 * 2 ^ 24 + b3 * 2 ^ 16 + b4 * 2 ^ 8 + b5)
        (shl 64 b6 8) x5 (omega arith) (omega arith) in
    let x7 : ℕ = bit_or x6 b7 in
    let j7 : x7
        ≡ (b0 * 2 ^ 48 + b1 * 2 ^ 40 + b2 * 2 ^ 32 + b3 * 2 ^ 24 + b4 * 2 ^ 16 + b5 * 2 ^ 8 + b6)
            * 2 ^ 8
          + b7 =
      join 8 (b0 * 2 ^ 48 + b1 * 2 ^ 40 + b2 * 2 ^ 32 + b3 * 2 ^ 24 + b4 * 2 ^ 16 + b5 * 2 ^ 8 + b6)
        b7 x6 (omega arith) (omega arith) in
    omega arith

pub be64-bytes :
    (v : ℕ)
    → v < 2 ^ 64
    → be64
        (byte_of v 56)
        (byte_of v 48)
        (byte_of v 40)
        (byte_of v 32)
        (byte_of v 24)
        (byte_of v 16)
        (byte_of v 8)
        (byte_of v 0)
      ≡ v
be64-bytes v h = omega (
  arith,
  be64_sum (byte_of v 56) (byte_of v 48) (byte_of v 40) (byte_of v 32) (byte_of v 24) (byte_of v 16)
      (byte_of v 8) (byte_of v 0) (omega arith) (omega arith) (omega arith) (omega arith)
      (omega arith) (omega arith) (omega arith) (omega arith),
)
