-- ===== src/Histogram.antt =====
-- LatencyHistogram of include/feedhandler/instrumentation.hpp: the buckets of an HdrHistogram. `x
-- << n` and `x >> n` are written with powers of two. The counters are relaxed atomics of one
-- writer, plain numbers here. `__builtin_clzll` is an argument, `clz`. The mean and the rank of a
-- percentile are computed in floating point: the rank is an argument.
pub mod Index
pub mod Equivalent
pub mod Fits
pub mod Rank
pub mod Recorded
pub mod Snapshot
mod Tests
use Prim.Native.Nat.{bit_or, bit_and}
use burst_resilient_feed_han.Base.{
  ℕ, zero, suc, ◌+◌, ◌-◌, ◌*◌, ◌/◌, ◌%◌, ◌^◌, ltb, leb, ◌==◌, if◌then◌else◌,
}
use burst_resilient_feed_han.Base.Word.{inc64, add64}

pub record LatencyHistogram : Type 0 where
  pub highest : ℕ
  pub unit_magnitude : ℕ
  pub sub_bucket_half_count_magnitude : ℕ
  pub leading_zero_count_base : ℕ
  pub sub_bucket_count : ℕ
  pub sub_bucket_half_count : ℕ
  pub sub_bucket_mask : ℕ
  pub bucket_count : ℕ
  pub counts_len : ℕ
  pub counts : ℕ → ℕ
  pub total_count : ℕ
  pub sum : ℕ
  pub min : ℕ
  pub max : ℕ

-- `std::numeric_limits<std::uint64_t>::max()`.
abbrev pub uint64_max : ℕ
uint64_max = 2 ^ 64 - 1

-- The loop `while (x < v) { x <<= 1; ++m; }`. 64 rounds are enough up to 2^63.
unfoldable pub ceil_log2_from : ℕ → ℕ → ℕ → ℕ → ℕ
ceil_log2_from zero x m v = m
ceil_log2_from (suc fuel) x m v =
    let rest = ceil_log2_from fuel (x * 2 % 2 ^ 64) (m + 1) v in if ltb x v then rest else m

unfoldable pub ceil_log2 : ℕ → ℕ
ceil_log2 v = ceil_log2_from 64 1 0 v

-- The loop of `buckets_needed`, which ends within 64 rounds.
unfoldable pub buckets_from : ℕ → ℕ → ℕ → ℕ → ℕ
buckets_from zero smallest needed value = needed
buckets_from (suc fuel) smallest needed value =
    let rest = buckets_from fuel (smallest * 2 % 2 ^ 64) (needed + 1) value in
    if leb smallest value
    then (if ltb (uint64_max / 2) smallest then needed + 1 else rest)
    else needed

unfoldable pub buckets_needed : ℕ → ℕ → ℕ → ℕ
buckets_needed sub_bucket_count unit_magnitude value =
    buckets_from 64 (sub_bucket_count * 2 ^ unit_magnitude % 2 ^ 64) 1 value

-- `largest *= 10`, `sig` times from 2.
unfoldable pub largest : ℕ → ℕ
largest zero = 2
largest (suc sig) = largest sig * 10 % 2 ^ 64

-- `sub_bucket_count_magnitude > 1 ? sub_bucket_count_magnitude - 1 : 0`.
unfoldable pub half_magnitude : ℕ → ℕ
half_magnitude sig = let m = ceil_log2 (largest sig) in if ltb 1 m then m - 1 else 0

unfoldable pub init : ℕ → ℕ → LatencyHistogram
init highest_ns sig =
    let highest = if ltb highest_ns 2 then 2 else highest_ns in
    let magnitude = half_magnitude sig in
    let sub_bucket_count = 2 ^ (magnitude + 1) % 2 ^ 32 in
    let bucket_count = buckets_needed sub_bucket_count 0 highest in
    record {
      highest = highest;
      unit_magnitude = 0;
      sub_bucket_half_count_magnitude = magnitude;
      leading_zero_count_base = 64 - 0 - (magnitude + 1);
      sub_bucket_count = sub_bucket_count;
      sub_bucket_half_count = sub_bucket_count / 2;
      sub_bucket_mask = (sub_bucket_count - 1) * 2 ^ 0;
      bucket_count = bucket_count;
      counts_len = (bucket_count + 1) * (sub_bucket_count / 2);
      counts = λ _. 0;
      total_count = 0;
      sum = 0;
      min = uint64_max;
      max = 0;
    }

-- An `int` that the code computes is kept as its 32 bits; this is its cast to an unsigned type of 64
-- bits, which keeps the sign.
abbrev pub int_to_unsigned : ℕ → ℕ
int_to_unsigned x = if ltb x (2 ^ 31) then x else x + (2 ^ 64 - 2 ^ 32)

unfoldable pub value_from_sub : LatencyHistogram → ℕ → ℕ → ℕ
value_from_sub h bucket_index sub_bucket_index =
    int_to_unsigned sub_bucket_index * 2 ^ (bucket_index + h.unit_magnitude) % 2 ^ 64

-- A bucket index of -1 stands for the lower half of the first bucket. An index of the array shifts to
-- no more than the number of buckets, which the casts to `int` keep.
unfoldable pub value_from_index : LatencyHistogram → ℕ → ℕ
value_from_index h index =
    let shifted = index / 2 ^ h.sub_bucket_half_count_magnitude in
    let low = bit_and index (h.sub_bucket_half_count - 1) in
    if shifted == 0
    then value_from_sub h 0 low
    else value_from_sub h (shifted - 1) (low + h.sub_bucket_half_count)

-- A shift of an `int` drops what passes its 32 bits, as C++20 has it.
unfoldable pub counts_index : LatencyHistogram → ℕ → ℕ → ℕ
counts_index h bucket_index sub_bucket_index =
    let bucket_base = (bucket_index + 1) * 2 ^ h.sub_bucket_half_count_magnitude % 2 ^ 32 in
    let offset = (sub_bucket_index + 2 ^ 32 - h.sub_bucket_half_count) % 2 ^ 32 in
    int_to_unsigned ((bucket_base + offset) % 2 ^ 32)

-- Cast to `int`.
unfoldable pub get_sub_bucket_index : LatencyHistogram → ℕ → ℕ → ℕ
get_sub_bucket_index h v bucket_index = v / 2 ^ (bucket_index + h.unit_magnitude) % 2 ^ 32

module _ (clz : ℕ → ℕ) where
  unfoldable pub get_bucket_index : LatencyHistogram → ℕ → ℕ
  get_bucket_index h v = h.leading_zero_count_base - clz (bit_or v h.sub_bucket_mask)

  unfoldable pub counts_index_for : LatencyHistogram → ℕ → ℕ
  counts_index_for h v =
      let bi = get_bucket_index h v in counts_index h bi (get_sub_bucket_index h v bi)

  unfoldable pub size_of_equivalent_range : LatencyHistogram → ℕ → ℕ
  size_of_equivalent_range h v = 2 ^ (h.unit_magnitude + get_bucket_index h v) % 2 ^ 64

  unfoldable pub lowest_equivalent : LatencyHistogram → ℕ → ℕ
  lowest_equivalent h v =
      let bi = get_bucket_index h v in value_from_sub h bi (get_sub_bucket_index h v bi)

  unfoldable pub highest_equivalent : LatencyHistogram → ℕ → ℕ
  highest_equivalent h v =
      (lowest_equivalent h v + size_of_equivalent_range h v + uint64_max) % 2 ^ 64

  -- `record`, a reserved word here.
  unfoldable pub record_value : ℕ → LatencyHistogram → LatencyHistogram
  record_value value_ns h =
      let v = if ltb value_ns 1 then 1 else value_ns in
      let v = if ltb h.highest v then h.highest else v in
      let i = counts_index_for h v in
      record h {
        counts = λ j. if i == j then inc64 (h.counts j) else h.counts j;
        total_count = inc64 h.total_count;
        sum = add64 h.sum v;
        min = if ltb v h.min then v else h.min;
        max = if ltb h.max v then v else h.max;
      }

  -- The scan of `value_at_percentile`, `k` indices from `i` up, for a rank within 1 and the total.
  unfoldable pub scan_counts : LatencyHistogram → ℕ → ℕ → ℕ → ℕ → ℕ
  scan_counts h target zero i running = h.max
  scan_counts h target (suc k) i running =
      let running = add64 running (h.counts i) in
      let rest = scan_counts h target k (i + 1) running in
      if leb target running then highest_equivalent h (value_from_index h i) else rest

  unfoldable pub value_at_percentile : LatencyHistogram → ℕ → ℕ
  value_at_percentile h rank =
      if h.total_count == 0
      then 0
      else (let target = if ltb rank 1 then 1 else rank in
          let target = if ltb h.total_count target then h.total_count else target in
          scan_counts h target h.counts_len 0 0)

unfoldable pub reset : LatencyHistogram → LatencyHistogram
reset h = record h {
  counts = λ j. if ltb j h.counts_len then 0 else h.counts j;
  total_count = 0;
  sum = 0;
  min = uint64_max;
  max = 0;
}
