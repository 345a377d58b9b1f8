-- ===== src/Histogram/Recorded.antt =====
-- A histogram that has recorded a list of values.
use burst_resilient_feed_han.Base.{
  ℕ, zero, suc, ◌+◌, ◌^◌, ◌<◌, ◌≤◌, ◌≡◌, ◌≢◌, refl, List, [], ◌∷◌, length, true, false, ltb, ◌==◌,
  if◌then◌else◌, arith,
}
use burst_resilient_feed_han.Base.Word.{inc64, inc64_exact, add64}
use burst_resilient_feed_han.Histogram.{
  LatencyHistogram, init, half_magnitude, get_bucket_index, get_sub_bucket_index, counts_index,
  counts_index_for, record_value, value_at_percentile, uint64_max,
}
use burst_resilient_feed_han.Histogram.Index.{IsClz}
use burst_resilient_feed_han.Histogram.Fits.{counts_index_for-lt}
use burst_resilient_feed_han.Histogram.Rank.{
  sum_below, sum_below-one, sum_below-le, IsCounted, target_of, Ranked, value_at_percentile-Ranked,
}

-- The values recorded one after the other.
unfoldable pub record_all : (ℕ → ℕ) → List ℕ → LatencyHistogram → LatencyHistogram
record_all clz [] h = h
record_all clz (v ∷ vs) h = record_all clz vs (record_value clz v h)

-- What recording never changes is that of the histogram `made`.
abbrev with_counts : LatencyHistogram → (ℕ → ℕ) → ℕ → ℕ → ℕ → ℕ → LatencyHistogram
with_counts made counts total sum min max = record made {
  counts = counts;
  total_count = total;
  sum = sum;
  min = min;
  max = max;
}

sum_below-none : (k : ℕ) → sum_below (λ _. 0) k ≡ 0
unfolding sum_below
sum_below-none zero = refl
sum_below-none (suc k) = omega (arith, sum_below-none k)

module _ (clz : ℕ → ℕ) (ok : IsClz clz) (highest sig : ℕ) (small : half_magnitude sig ≤ 24)
    (fits : highest < 2 ^ 64) where
  abbrev made : LatencyHistogram
  made = init highest sig

  -- The value as it is counted.
  abbrev clamped : ℕ → ℕ
  clamped v = let w = if ltb v 1 then 1 else v in if ltb made.highest w then made.highest else w

  abbrev spot : ℕ → ℕ
  spot v = counts_index_for clz made (clamped v)

  spot-lt : (v : ℕ) → spot v < made.counts_len
  spot-lt v = counts_index_for-lt highest sig small fits clz ok (clamped v) (ground arith)

  abbrev counted : ℕ → (ℕ → ℕ) → ℕ → ℕ
  counted v counts j = if spot v == j then inc64 (counts j) else counts j

  sum_below-counted :
      (v total : ℕ) (counts : ℕ → ℕ)
      → sum_below counts made.counts_len ≡ total
      → total + 1 < 2 ^ 64
      → sum_below (counted v counts) made.counts_len ≡ total + 1
  sum_below-counted v total counts e l =
      let least = sum_below-le counts (spot v) made.counts_len (spot-lt v) in
      let on : (spot v == spot v) ≡ true = ground arith in
      let here : counted v counts (spot v) ≡ counts (spot v) + 1 =
        rw on (inc64_exact (counts (spot v)) (omega arith)) in
      let elsewhere : (j : ℕ) → j ≢ spot v → counted v counts j ≡ counts j =
        λ j ne. (let off : (spot v == j) ≡ false = ground (arith, ne) in rw off refl) in
      omega (
        arith,
        sum_below-one counts (counted v counts) (spot v) made.counts_len (spot-lt v) here elsewhere,
      )

  recorded :
      (vs : List ℕ) (counts : ℕ → ℕ) (total sum min max : ℕ)
      → sum_below counts made.counts_len ≡ total
      → total + length vs < 2 ^ 64
      → let h = record_all clz vs (with_counts made counts total sum min max) in
        IsCounted h × (h.total_count ≡ total + length vs)
  unfolding record_all record_value IsCounted counts_index_for get_bucket_index get_sub_bucket_index
      counts_index
  recorded [] counts total sum min max e l = (e, omega arith)
  recorded (v ∷ vs) counts total sum min max e l =
      let next : inc64 total ≡ total + 1 = inc64_exact total (omega arith) in
      let (c, t) =
        recorded vs (counted v counts) (inc64 total) (add64 sum (clamped v))
          (if ltb (clamped v) min then clamped v else min)
          (if ltb max (clamped v) then clamped v else max)
          (omega (arith, sum_below-counted v total counts e (omega arith), next))
          (omega (arith, next)) in
      (c, omega (arith, t, next))

  -- With a `clz` as documented, on a histogram as the constructor makes it for up to 2^24
  -- sub-buckets in a half and a 64-bit highest value, after any list of at least one and less than
  -- 2^64 values: `total_count` is their number, and whatever the rank asked for, brought within 1
  -- and this number, the answer is the highest value of the bucket in which the rank falls, the
  -- first up to which the array counts so many values.
  pub record_all-Ranked :
      (v : ℕ) (vs : List ℕ) (rank : ℕ)
      → length (v ∷ vs) < 2 ^ 64
      → let h = record_all clz (v ∷ vs) made in
        (h.total_count ≡ length (v ∷ vs))
        × Ranked clz h (target_of h rank) (value_at_percentile clz h rank)
  unfolding init
  record_all-Ranked v vs rank l =
      let (c, t) =
        recorded (v ∷ vs) (λ _. 0) 0 0 uint64_max 0 (sum_below-none made.counts_len)
          (omega arith) in
      (
        omega (arith, t),
        value_at_percentile-Ranked clz (record_all clz (v ∷ vs) made) rank c (omega (arith, t))
            (omega (arith, t)),
      )
