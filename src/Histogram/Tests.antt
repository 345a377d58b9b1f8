-- ===== src/Histogram/Tests.antt =====
-- The histogram's theorems at its default configuration, with a `clz` by comparison with each power
-- of two.
use burst_resilient_feed_han.Base.{
  ℕ, zero, suc, ◌-◌, ◌*◌, ◌^◌, ◌<◌, ◌≤◌, ◌≡◌, refl, [], ◌∷◌, leb, if◌then◌else◌, arith, inl, inr,
  Bool-cases,
}
use burst_resilient_feed_han.Histogram.{
  init, half_magnitude, ceil_log2, ceil_log2_from, largest, value_from_index, counts_index_for,
  lowest_equivalent, highest_equivalent, counts_index, get_bucket_index, get_sub_bucket_index,
  value_at_percentile,
}
use burst_resilient_feed_han.Histogram.Index.{IsClz}
use burst_resilient_feed_han.Histogram.Equivalent.{value_from_index-counts_index_for}
use burst_resilient_feed_han.Histogram.Fits.{init-IsLaid, counts_index_for-lt}
use burst_resilient_feed_han.Histogram.Rank.{Ranked, target_of}
use burst_resilient_feed_han.Histogram.Recorded.{record_all, record_all-Ranked}

-- The highest bit, of the bits up to `k`.
abbrev highest_bit : ℕ → ℕ → ℕ
highest_bit zero v = 0
highest_bit (suc k) v = let rest = highest_bit k v in if leb (2 ^ suc k) v then suc k else rest

abbrev clz : ℕ → ℕ
clz v = 63 - highest_bit 63 v

highest_bit_bounds :
    (k v : ℕ)
    → 0 < v
    → v < 2 ^ suc k
    → (highest_bit k v ≤ k) × (2 ^ highest_bit k v ≤ v) × (v < 2 ^ suc (highest_bit k v))
highest_bit_bounds zero v p l = (omega arith, omega arith, l)
highest_bit_bounds (suc k) v p l = elim (Bool-cases (leb (2 ^ suc k) v)) [
  | inl t ↦ rw t (omega arith, ground (arith, t), l)
  | inr f ↦ let (a, b, c) = highest_bit_bounds k v p (ground (arith, f)) in rw f (omega arith, b, c)
]

clz-IsClz : IsClz clz
clz-IsClz v p l =
    let (a, b, c) = highest_bit_bounds 63 v p l in
    let up : 63 - clz v ≡ highest_bit 63 v = omega arith in
    let next : 64 - clz v ≡ suc (highest_bit 63 v) = omega arith in
    (omega arith, rw up b, rw next c)

abbrev minute : ℕ
minute = 60_000_000_000

ten_bits : half_magnitude 3 ≡ 10
unfolding half_magnitude ceil_log2 ceil_log2_from largest
ten_bits = refl

value_from_index-counts_index_for_example :
    let h = init minute 3 in
    (value_from_index h (counts_index_for clz h 123_456) ≡ lowest_equivalent clz h 123_456)
    × (lowest_equivalent clz h 123_456 ≤ 123_456)
    × (123_456 ≤ highest_equivalent clz h 123_456)
    × ((highest_equivalent clz h 123_456 - lowest_equivalent clz h 123_456)
          * h.sub_bucket_half_count
        ≤ 123_456)
value_from_index-counts_index_for_example =
    value_from_index-counts_index_for clz clz-IsClz (half_magnitude 3) (init minute 3)
      (init-IsLaid minute 3 (omega (arith, ten_bits))) 123_456 (omega arith)

-- With nine significant figures the shift of `counts_index` wraps: 2^33 is counted where 0 belongs.
nine_wraps : counts_index_for clz (init (2 ^ 33) 9) (2 ^ 33) ≡ 0
unfolding counts_index_for counts_index get_bucket_index get_sub_bucket_index init half_magnitude
    ceil_log2 ceil_log2_from largest
nine_wraps = refl

-- With eight it wraps to a negative `int`, and the index is none of the array.
eight_escapes : counts_index_for clz (init (2 ^ 43) 8) (2 ^ 43) ≡ 2 ^ 64 - 2 ^ 27 * 15
unfolding counts_index_for counts_index get_bucket_index get_sub_bucket_index init half_magnitude
    ceil_log2 ceil_log2_from largest
eight_escapes = refl

minute_kept : 123_456 ≤ (init minute 3).highest
unfolding init
minute_kept = omega arith

counts_index_for-lt_example :
    counts_index_for clz (init minute 3) 123_456 < (init minute 3).counts_len
counts_index_for-lt_example =
    counts_index_for-lt minute 3 (omega (arith, ten_bits)) (omega arith) clz clz-IsClz 123_456
      minute_kept

record_all-Ranked_example :
    let h = record_all clz (5 ∷ (900 ∷ (7 ∷ []))) (init minute 3) in
    (h.total_count ≡ 3) × Ranked clz h (target_of h 2) (value_at_percentile clz h 2)
record_all-Ranked_example =
    record_all-Ranked clz clz-IsClz minute 3 (omega (arith, ten_bits)) (omega arith) 5
      (900 ∷ (7 ∷ [])) 2 (omega arith)
