-- ===== src/Histogram/Snapshot.antt =====
-- LatencyHistogram::snapshot of include/feedhandler/instrumentation.hpp. The mean, of a type `D`,
-- and the rank of a percentile, in hundredths of a percent, within a total are computed in floating
-- point: both are arguments.
use burst_resilient_feed_han.Base.{ℕ, ◌==◌, if◌then◌else◌}
use burst_resilient_feed_han.Histogram.{LatencyHistogram, value_at_percentile}

pub record LatencySnapshot (D : Type 0) : Type 0 where
  pub count : ℕ
  pub min_ns : ℕ
  pub max_ns : ℕ
  pub mean_ns : D
  pub p50_ns : ℕ
  pub p90_ns : ℕ
  pub p99_ns : ℕ
  pub p999_ns : ℕ
  pub p9999_ns : ℕ

module _ {D : Type 0} (zero_mean : D) (mean : ℕ → ℕ → D) (rank : ℕ → ℕ → ℕ) (clz : ℕ → ℕ) where
  abbrev percentile : LatencyHistogram → ℕ → ℕ
  percentile h p = value_at_percentile clz h (rank p h.total_count)

  unfoldable pub snapshot : LatencyHistogram → LatencySnapshot D
  snapshot h =
      if h.total_count == 0
      then record {
        count = 0;
        min_ns = 0;
        max_ns = 0;
        mean_ns = zero_mean;
        p50_ns = 0;
        p90_ns = 0;
        p99_ns = 0;
        p999_ns = 0;
        p9999_ns = 0;
      }
      else record {
        count = h.total_count;
        min_ns = h.min;
        max_ns = h.max;
        mean_ns = mean h.sum h.total_count;
        p50_ns = percentile h 5000;
        p90_ns = percentile h 9000;
        p99_ns = percentile h 9900;
        p999_ns = percentile h 9990;
        p9999_ns = percentile h 9999;
      }
