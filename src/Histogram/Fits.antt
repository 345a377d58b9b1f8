-- ===== src/Histogram/Fits.antt =====
-- Every value that is recorded has its place in the array of counts.
use native.Mathlib.Nat.{mul-le-mul_right, add-mul}
use burst_resilient_feed_han.Base.{
  ℕ, zero, suc, ◌+◌, ◌-◌, ◌*◌, ◌/◌, ◌%◌, ◌^◌, ◌<◌, ◌≤◌, ◌≡◌, refl, ap, subst, inl, inr, ltb, leb,
  arith, Bool-cases,
}
use burst_resilient_feed_han.Ring.Slots.{pow_pos}
use burst_resilient_feed_han.Histogram.{
  LatencyHistogram, init, half_magnitude, buckets_from, buckets_needed, get_bucket_index,
  get_sub_bucket_index, counts_index_for, uint64_max,
}
use burst_resilient_feed_han.Histogram.Equivalent.{sub_bucket}
use burst_resilient_feed_han.Histogram.Index.{
  IsClz, IsLaid, counts_index_exact, InBucket, bucket-InBucket, InBucket-InSubBucket, pow_mono,
  pow_next,
}

-- The test against half of the largest number tells whether 2^a is the highest bit.
highest_bit : (a : ℕ) → uint64_max / 2 < 2 ^ a → 63 ≤ a
highest_bit a h = elim (Bool-cases (leb 63 a)) [
  | inl t ↦ ground (arith, t)
  | inr f ↦ absurd (omega (arith, pow_mono a 62 (ground (arith, f))))
]

lower_bit : (a : ℕ) → 2 ^ a ≤ uint64_max / 2 → a ≤ 62
lower_bit a h = elim (Bool-cases (leb a 62)) [
  | inl t ↦ ground (arith, t)
  | inr f ↦ absurd (omega (arith, pow_mono 63 a (ground (arith, f))))
]

-- From 2^a with `n` buckets: enough rounds find so many that the value lies below the last one's end.
buckets_from_enough :
    (fuel a n value : ℕ)
    → 64 ≤ a + fuel
    → a ≤ 63
    → value < 2 ^ 64
    → let k = buckets_from fuel (2 ^ a) n value in (n ≤ k) × (value < 2 ^ (a + (k - n)))
unfolding buckets_from
buckets_from_enough zero a n value h l f = absurd (omega arith)
buckets_from_enough (suc fuel) a n value h l f = elim (Bool-cases (leb (2 ^ a) value)) [
  | inr g ↦
      let none_more : a + (n - n) ≡ a = omega arith in
      rw (g, none_more) (omega arith, ground (arith, g))
  | inl t ↦ elim (Bool-cases (ltb (uint64_max / 2) (2 ^ a))) [
    | inl far ↦
        let last : a + (n + 1 - n) ≡ 64 = omega (arith, highest_bit a (ground (arith, far))) in
        rw (t, far, last) (omega arith, f)
    | inr near ↦
        let low : a ≤ 62 = lower_bit a (ground (arith, near)) in
        let doubled : 2 ^ a * 2 % 2 ^ 64 ≡ 2 ^ (a + 1) =
          omega (arith, pow_next a, pow_mono (a + 1) 63 (omega arith)) in
        let (more, below) =
          buckets_from_enough fuel (a + 1) (n + 1) value (omega arith) (omega arith) f in
        let k = buckets_from fuel (2 ^ (a + 1)) (n + 1) value in
        let same : a + 1 + (k - (n + 1)) ≡ a + (k - n) = omega (arith, more) in
        rw (t, near, doubled) (omega (arith, more), subst (λ (x : ℕ). value < 2 ^ x) same below)
  ]
]

-- The number of buckets for a half of 2^m sub-buckets.
abbrev count_of : ℕ → ℕ → ℕ
count_of m value = buckets_needed (2 ^ (m + 1)) 0 value

buckets_needed_enough :
    (m value : ℕ)
    → m ≤ 30
    → value < 2 ^ 64
    → (1 ≤ count_of m value) × (value < 2 ^ (m + count_of m value))
unfolding buckets_needed
buckets_needed_enough m value l f =
    let whole : 2 ^ (m + 1) * 2 ^ 0 % 2 ^ 64 ≡ 2 ^ (m + 1) =
      omega (arith, pow_mono (m + 1) 31 (omega arith)) in
    let (one, below) = buckets_from_enough 64 (m + 1) 1 value (omega arith) (omega arith) f in
    let k = buckets_from 64 (2 ^ (m + 1)) 1 value in
    let same : m + 1 + (k - 1) ≡ m + k = omega (arith, one) in
    rw whole (one, subst (λ (x : ℕ). value < 2 ^ x) same below)

pub init-IsLaid :
    (highest sig : ℕ) → half_magnitude sig ≤ 24 → IsLaid (half_magnitude sig) (init highest sig)
unfolding init
init-IsLaid highest sig l =
    let m = half_magnitude sig in
    let whole : 2 ^ (m + 1) % 2 ^ 32 ≡ 2 ^ (m + 1) =
      omega (arith, pow_mono (m + 1) 31 (omega arith)) in
    record {
      small = l;
      unit = refl;
      magnitude = refl;
      base = omega arith;
      half = omega (arith, whole, pow_next m);
      mask = omega (arith, whole);
    }

module _ (highest sig : ℕ) (small : half_magnitude sig ≤ 24) (fits : highest < 2 ^ 64) where
  abbrev made : LatencyHistogram
  made = init highest sig

  abbrev m : ℕ
  m = half_magnitude sig

  whole : 2 ^ (m + 1) % 2 ^ 32 ≡ 2 ^ (m + 1)
  whole = omega (arith, pow_mono (m + 1) 31 (omega arith))

  made_highest : made.highest < 2 ^ 64
  unfolding init
  made_highest = ground arith

  made_buckets : made.bucket_count ≡ count_of m made.highest
  unfolding init
  made_buckets = ap (λ (x : ℕ). buckets_needed x 0 made.highest) whole

  made_len : made.counts_len ≡ (made.bucket_count + 1) * 2 ^ m
  unfolding init
  made_len =
      let half : 2 ^ (m + 1) % 2 ^ 32 / 2 ≡ 2 ^ m = omega (arith, whole, pow_next m) in
      ap (λ (x : ℕ). (made.bucket_count + 1) * x) half

  module _ (clz : ℕ → ℕ) (ok : IsClz clz) (v : ℕ) (tracked : v ≤ made.highest) where
    abbrev bi : ℕ
    bi = get_bucket_index clz made v

    inside : InBucket m v bi
    inside =
        bucket-InBucket clz ok m made (init-IsLaid highest sig small) v
          (omega (arith, made_highest))

    below_last : bi + 1 ≤ made.bucket_count
    below_last =
        let (one, far) = buckets_needed_enough m made.highest (omega arith) made_highest in
        elim inside.above [
          | inl e ↦ omega (arith, e, made_buckets, one)
          | inr g ↦ elim (Bool-cases (leb (bi + 1) made.bucket_count)) [
            | inl t ↦ ground (arith, t)
            | inr f ↦ absurd (
                omega (
                  arith,
                  g,
                  far,
                  pow_mono (m + count_of m made.highest) (m + bi) (ground (arith, f, made_buckets)),
                ))
          ]
        ]

    -- On a histogram as the constructor makes it for up to 2^24 sub-buckets in a half, with a
    -- 64-bit highest value and a `clz` as documented: every value up to the highest is counted
    -- inside the array.
    pub counts_index_for-lt : counts_index_for clz made v < made.counts_len
    unfolding counts_index_for
    counts_index_for-lt =
        let laid = init-IsLaid highest sig small in
        let w = InBucket-InSubBucket m v bi inside in
        let same : get_sub_bucket_index made v bi ≡ v / 2 ^ bi =
          sub_bucket clz ok m made laid v (omega (arith, made_highest)) in
        let up : (bi + 2) * 2 ^ m ≤ (made.bucket_count + 1) * 2 ^ m =
          mul-le-mul_right {m = bi + 2} {n = made.bucket_count + 1} (2 ^ m)
            (omega (arith, below_last)) in
        omega (
          arith,
          same,
          w.below,
          up,
          add-mul (bi + 1) 1 (2 ^ m),
          add-mul bi 2 (2 ^ m),
          add-mul bi 1 (2 ^ m),
          made_len,
          pow_pos m,
          counts_index_exact m made laid bi (get_sub_bucket_index made v bi) inside.low (rw same w),
        )
