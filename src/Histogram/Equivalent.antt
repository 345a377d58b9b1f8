-- ===== src/Histogram/Equivalent.antt =====
-- The values that the histogram counts alike, and how far apart they are.
use native.Mathlib.Nat.{
  div-mul-le_self, mod-eq_of_lt, lt-div-mul-add, mul-le-mul_right, mul_comm, mul_right_comm,
  add-mul,
}
use burst_resilient_feed_han.Base.{
  ℕ, ◌+◌, ◌-◌, ◌*◌, ◌/◌, ◌%◌, ◌^◌, ◌<◌, ◌≤◌, ◌≡◌, ap, ◌∙◌, inl, inr, arith,
}
use burst_resilient_feed_han.Ring.Slots.{pow_pos}
use burst_resilient_feed_han.Histogram.{
  LatencyHistogram, int_to_unsigned, get_bucket_index, get_sub_bucket_index, counts_index_for,
  value_from_sub, value_from_index, size_of_equivalent_range, lowest_equivalent, highest_equivalent,
}
use burst_resilient_feed_han.Histogram.Index.{
  IsClz, IsLaid, InBucket, bucket-InBucket, InBucket-InSubBucket, value_from_index-counts_index,
  pow_mono, pow_plus, pow_next,
}

module _ (clz : ℕ → ℕ) (ok : IsClz clz) (m : ℕ) (h : LatencyHistogram) (laid : IsLaid m h) (v : ℕ)
    (fits : v < 2 ^ 64) where
  abbrev bi : ℕ
  bi = get_bucket_index clz h v

  abbrev s : ℕ
  s = v / 2 ^ bi

  inside : InBucket m v bi
  inside = bucket-InBucket clz ok m h laid v fits

  shift : 2 ^ (bi + h.unit_magnitude) ≡ 2 ^ bi
  shift =
      let none_more : bi + h.unit_magnitude ≡ bi = omega (arith, laid.unit) in
      ap (λ (x : ℕ). 2 ^ x) none_more

  shift' : 2 ^ (h.unit_magnitude + bi) ≡ 2 ^ bi
  shift' =
      let none_more : h.unit_magnitude + bi ≡ bi = omega (arith, laid.unit) in
      ap (λ (x : ℕ). 2 ^ x) none_more

  -- The next bucket's first value is still a number of 64 bits, or 2^64.
  next_fits : s * 2 ^ bi + 2 ^ bi ≤ 2 ^ 64
  next_fits =
      let w = InBucket-InSubBucket m v bi inside in
      let up : (s + 1) * 2 ^ bi ≤ 2 ^ m * 2 * 2 ^ bi =
        mul-le-mul_right {m = s + 1} {n = 2 ^ m * 2} (2 ^ bi) (omega (arith, w.below)) in
      omega (
        arith,
        up,
        add-mul s 1 (2 ^ bi),
        mul_right_comm (2 ^ m) 2 (2 ^ bi),
        pow_plus m bi,
        pow_next (m + bi),
        pow_mono (m + bi + 1) 64 (omega (arith, inside.low)),
      )

  sub_bucket_few : s < 2 ^ 31
  sub_bucket_few =
      let w = InBucket-InSubBucket m v bi inside in omega (arith, w.below, pow_mono m 24 laid.small)

  pub sub_bucket : get_sub_bucket_index h v bi ≡ s
  unfolding get_sub_bucket_index
  sub_bucket =
      ap (λ (x : ℕ). v / x % 2 ^ 32) shift
      ∙ mod-eq_of_lt {n = s} {m = 2 ^ 32} (omega (arith, sub_bucket_few))

  not_negative : int_to_unsigned s ≡ s
  not_negative = ground (arith, sub_bucket_few)

  lowest_value : lowest_equivalent clz h v ≡ s * 2 ^ bi
  unfolding lowest_equivalent value_from_sub
  lowest_value =
      ap (λ (x : ℕ). int_to_unsigned x * 2 ^ (bi + h.unit_magnitude) % 2 ^ 64) sub_bucket
      ∙ ap (λ (x : ℕ). x * 2 ^ (bi + h.unit_magnitude) % 2 ^ 64) not_negative
      ∙ ap (λ (x : ℕ). s * x % 2 ^ 64) shift
      ∙ omega (arith, next_fits, pow_pos bi)

  highest_value : highest_equivalent clz h v ≡ s * 2 ^ bi + 2 ^ bi - 1
  unfolding highest_equivalent size_of_equivalent_range
  highest_value =
      let size : 2 ^ (h.unit_magnitude + bi) % 2 ^ 64 ≡ 2 ^ bi % 2 ^ 64 =
        ap (λ (x : ℕ). x % 2 ^ 64) shift' in
      let half : 2 ^ bi ≤ 2 ^ 63 = pow_mono bi 63 (omega (arith, inside.low)) in
      omega (arith, lowest_value, size, half, next_fits, pow_pos bi)

  narrow : (2 ^ bi - 1) * 2 ^ m ≤ v
  narrow = elim inside.above [
    | inl e ↦ let one : 2 ^ bi ≡ 1 = ap (λ (x : ℕ). 2 ^ x) e in rw one (omega arith)
    | inr g ↦
        let less : (2 ^ bi - 1) * 2 ^ m ≤ 2 ^ bi * 2 ^ m =
          mul-le-mul_right {m = 2 ^ bi - 1} {n = 2 ^ bi} (2 ^ m) (omega arith) in
        omega (arith, less, g, pow_plus m bi, mul_comm (2 ^ m) (2 ^ bi))
  ]

  index_back : value_from_index h (counts_index_for clz h v) ≡ lowest_equivalent clz h v
  unfolding counts_index_for lowest_equivalent
  index_back =
      value_from_index-counts_index m h laid bi (get_sub_bucket_index h v bi) inside.low
        (rw sub_bucket (InBucket-InSubBucket m v bi inside))

  -- With a `clz` as documented and a layout as the constructor makes it for up to 2^24 sub-buckets in
  -- a half, for a 64-bit value: the
  -- index that it is counted at leads back to the lowest value that is counted with it; the value
  -- lies between that one and the highest, and these two differ by no more than the value divided
  -- by the number of sub-buckets in an octave.
  pub value_from_index-counts_index_for :
      (value_from_index h (counts_index_for clz h v) ≡ lowest_equivalent clz h v)
      × (lowest_equivalent clz h v ≤ v)
      × (v ≤ highest_equivalent clz h v)
      × ((highest_equivalent clz h v - lowest_equivalent clz h v) * h.sub_bucket_half_count ≤ v)
  unfolding get_bucket_index
  value_from_index-counts_index_for =
      let gap : highest_equivalent clz h v - lowest_equivalent clz h v ≡ 2 ^ bi - 1 =
        omega (arith, highest_value, lowest_value, pow_pos bi) in
      (
        index_back,
        omega (arith, lowest_value, div-mul-le_self v (2 ^ bi)),
        omega (arith, highest_value, lt-div-mul-add {a = v} {b = 2 ^ bi} (pow_pos bi), pow_pos bi),
        rw (gap, laid.half) narrow,
      )
