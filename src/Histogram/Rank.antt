-- ===== src/Histogram/Rank.antt =====
-- The percentiles: the counts add up to the number of values recorded, so that a rank always falls
-- in a bucket.
use burst_resilient_feed_han.Base.{
  ℕ, zero, suc, ◌+◌, ◌^◌, ◌<◌, ◌≤◌, ◌≡◌, ◌≢◌, refl, sym, ap, ◌∙◌, inl, inr, false, ltb, leb, ◌==◌,
  if◌then◌else◌, arith, Bool-cases,
}
use burst_resilient_feed_han.Base.Word.{add64}
use burst_resilient_feed_han.Histogram.{
  LatencyHistogram, value_from_index, highest_equivalent, scan_counts, value_at_percentile,
}

-- What is counted at the indices below `k`.
unfoldable pub sum_below : (ℕ → ℕ) → ℕ → ℕ
sum_below f zero = 0
sum_below f (suc k) = sum_below f k + f k

sum_below-next : (f : ℕ → ℕ) (i : ℕ) → sum_below f (i + 1) ≡ sum_below f i + f i
unfolding sum_below
sum_below-next f i = let next : i + 1 ≡ suc i = omega arith in rw next refl

add64_exact : (a b : ℕ) → a + b < 2 ^ 64 → add64 a b ≡ a + b
unfolding add64
add64_exact a b l = omega arith

-- Only the first `k` counts matter to the sum, and one more at one of them adds one.
sum_below-same :
    (f g : ℕ → ℕ) (k : ℕ) → ((j : ℕ) → j < k → g j ≡ f j) → sum_below g k ≡ sum_below f k
unfolding sum_below
sum_below-same f g zero h = refl
sum_below-same f g (suc k) h =
    omega (arith, sum_below-same f g k (λ j l. h j (omega arith)), h k (omega arith))

pub sum_below-one :
    (f g : ℕ → ℕ) (i k : ℕ)
    → i < k
    → g i ≡ f i + 1
    → ((j : ℕ) → j ≢ i → g j ≡ f j)
    → sum_below g k ≡ sum_below f k + 1
unfolding sum_below
sum_below-one f g i zero l e h = absurd (omega arith)
sum_below-one f g i (suc k) l e h = elim (Bool-cases (i == k)) [
  | inl t ↦
      let here : k ≡ i = ground (arith, t) in
      let last : g k ≡ f k + 1 = rw here e in
      omega (arith, last, sum_below-same f g k (λ j b. h j (omega (arith, here))))
  | inr n ↦ omega (arith, sum_below-one f g i k (ground (arith, n)) e h, h k (ground (arith, n)))
]

pub sum_below-le : (f : ℕ → ℕ) (i k : ℕ) → i < k → f i ≤ sum_below f k
unfolding sum_below
sum_below-le f i zero l = absurd (omega arith)
sum_below-le f i (suc k) l = elim (Bool-cases (i == k)) [
  | inl t ↦
      let here : k ≡ i = ground (arith, t) in
      let last : f k ≡ f i = ap f here in omega (arith, last)
  | inr n ↦ omega (arith, sum_below-le f i k (ground (arith, n)))
]

sum_below_mono : (f : ℕ → ℕ) (i k : ℕ) → i ≤ k → sum_below f i ≤ sum_below f k
unfolding sum_below
sum_below_mono f i zero l = let same : i ≡ 0 = omega arith in rw same (omega arith)
sum_below_mono f i (suc k) l = elim (Bool-cases (i == suc k)) [
  | inl t ↦ let same : i ≡ suc k = ground (arith, t) in rw same (omega arith)
  | inr n ↦ omega (arith, sum_below_mono f i k (ground (arith, n)))
]

-- The bucket in which the rank falls.
pub record Ranked (clz : ℕ → ℕ) (h : LatencyHistogram) (target answer : ℕ) : Type 0 where
  pub index : ℕ
  pub inside : index < h.counts_len
  pub fewer : sum_below h.counts index < target
  pub reached : target ≤ sum_below h.counts (index + 1)
  pub answered : answer ≡ highest_equivalent clz h (value_from_index h index)

-- The scan from an index below which the rank is not reached.
scan_counts-Ranked :
    (clz : ℕ → ℕ) (h : LatencyHistogram) (target k i : ℕ)
    → i + k ≡ h.counts_len
    → sum_below h.counts i < target
    → target ≤ sum_below h.counts h.counts_len
    → sum_below h.counts h.counts_len < 2 ^ 64
    → Ranked clz h target (scan_counts clz h target k i (sum_below h.counts i))
unfolding scan_counts
scan_counts-Ranked clz h target zero i e few enough small =
    let end : sum_below h.counts i ≡ sum_below h.counts h.counts_len =
      ap (sum_below h.counts) (omega arith) in
    absurd (omega arith)
scan_counts-Ranked clz h target (suc k) i e few enough small =
    let next : sum_below h.counts (i + 1) ≡ sum_below h.counts i + h.counts i =
      sum_below-next h.counts i in
    let exact : add64 (sum_below h.counts i) (h.counts i) ≡ sum_below h.counts (i + 1) =
      add64_exact _ _
        (omega (arith, next, sum_below_mono h.counts (i + 1) h.counts_len (omega arith)))
      ∙ sym next in
    elim (Bool-cases (leb target (sum_below h.counts (i + 1)))) [
      | inl t ↦
          rw (exact, t)
            (record {
              index = i;
              inside = omega arith;
              fewer = few;
              reached = ground (arith, t);
              answered = refl;
            })
      | inr f ↦
          rw (exact, f)
            (scan_counts-Ranked clz h target k (i + 1) (omega arith) (ground (arith, f)) enough
              small)
    ]

-- The counts of the array add up to the number of values.
unfoldable pub IsCounted : LatencyHistogram → Type 0
IsCounted h = sum_below h.counts h.counts_len ≡ h.total_count

-- The rank that the search goes for.
abbrev pub target_of : LatencyHistogram → ℕ → ℕ
target_of h rank =
    let target = if ltb rank 1 then 1 else rank in
    if ltb h.total_count target then h.total_count else target

pub value_at_percentile-Ranked :
    (clz : ℕ → ℕ) (h : LatencyHistogram) (rank : ℕ)
    → IsCounted h
    → 0 < h.total_count
    → h.total_count < 2 ^ 64
    → Ranked clz h (target_of h rank) (value_at_percentile clz h rank)
unfolding value_at_percentile IsCounted sum_below
value_at_percentile-Ranked clz h rank c some_value small =
    let off : (h.total_count == 0) ≡ false = ground arith in
    rw (off, value_at_percentile)
      (scan_counts-Ranked clz h (target_of h rank) h.counts_len 0 (omega arith) (ground arith)
        (ground (arith, c)) (omega (arith, c)))
