-- ===== src/Histogram/Index.antt =====
-- The buckets of the histogram: where a value is counted, and the values that are counted with it.
use Prim.Native.Nat.{bit_or}
use native.Mathlib.Nat.{
  pow-suc, pow-le-pow_right, div-lt_iff_lt-mul, le-div_iff_mul-le, mul_assoc, mul_right_comm,
  div-eq_of_lt, mod-eq_of_lt, add-mul-div_right, add-mul-mod_self_right, mul-le-mul_right, add-mul,
}
use burst_resilient_feed_han.Base.{
  ℕ, zero, suc, ◌+◌, ◌-◌, ◌*◌, ◌/◌, ◌%◌, ◌^◌, ◌<◌, ◌≤◌, ◌≡◌, refl, ap, subst, ◌∙◌, ◌⊎◌, inl, inr,
  false, ltb, leb, ◌==◌, arith, Bool-cases,
}
use burst_resilient_feed_han.Base.Bits.{bit_or-lt, bit_or-above}
use burst_resilient_feed_han.Ring.Slots.{pow_pos, slot-mod}
use burst_resilient_feed_han.Histogram.{
  LatencyHistogram, get_bucket_index, counts_index, value_from_sub, value_from_index,
}

-- What `__builtin_clzll` is documented to answer: the number of leading zeros of a 64-bit number
-- that is not 0.
abbrev pub IsClz : (ℕ → ℕ) → Type 0
IsClz clz =
    (v : ℕ) → 0 < v → v < 2 ^ 64 → (clz v ≤ 63) × (2 ^ (63 - clz v) ≤ v) × (v < 2 ^ (64 - clz v))

-- The layout for a half of 2^m sub-buckets, as the constructor makes it, up to 2^24, where the `int`
-- arithmetic on indices stays below 2^31.
pub record IsLaid (m : ℕ) (h : LatencyHistogram) : Type 0 where
  pub small : m ≤ 24
  pub unit : h.unit_magnitude ≡ 0
  pub magnitude : h.sub_bucket_half_count_magnitude ≡ m
  pub base : h.leading_zero_count_base ≡ 63 - m
  pub half : h.sub_bucket_half_count ≡ 2 ^ m
  pub mask : h.sub_bucket_mask ≡ 2 ^ (m + 1) - 1

pub pow_mono : (i j : ℕ) → i ≤ j → 2 ^ i ≤ 2 ^ j
pow_mono i j h = pow-le-pow_right (omega arith) h

-- The bucket of a value: the exponent that the value has over 2^m, or the first bucket for smaller
-- ones.
pub record InBucket (m v bi : ℕ) : Type 0 where
  pub low : m + bi ≤ 63
  pub below : v < 2 ^ (m + bi + 1)
  pub above : (bi ≡ 0) ⊎ (2 ^ (m + bi) ≤ v)

module _ (clz : ℕ → ℕ) (ok : IsClz clz) (m : ℕ) (h : LatencyHistogram) (laid : IsLaid m h) (v : ℕ)
    (fits : v < 2 ^ 64) where
  abbrev joined : ℕ
  joined = bit_or v (2 ^ (m + 1) - 1)

  mask_small : 2 ^ (m + 1) ≤ 2 ^ 31
  mask_small = pow_mono (m + 1) 31 (omega (arith, laid.small))

  mask_double : 2 ^ (m + 1) ≡ 2 ^ m * 2
  mask_double = subst (λ (k : ℕ). 2 ^ k ≡ 2 ^ m * 2) (omega arith) (pow-suc 2 m)

  joined_big : 2 ^ m ≤ joined
  joined_big = omega (arith, (bit_or-above v (2 ^ (m + 1) - 1)).1, mask_double, pow_pos m)

  joined_ok :
      (clz joined ≤ 63) × (2 ^ (63 - clz joined) ≤ joined) × (joined < 2 ^ (64 - clz joined))
  joined_ok =
      ok joined (omega (arith, joined_big, pow_pos m))
        (bit_or-lt 64 v (2 ^ (m + 1) - 1) fits (omega (arith, mask_small)))

  -- The exponent of the joined value is at least m.
  exponent : clz joined + m ≤ 63
  exponent =
      let (a, b, c) = joined_ok in
      elim (Bool-cases (leb (clz joined + m) 63)) [
        | inl t ↦ ground (arith, t)
        | inr f ↦
            absurd
              (omega (arith, c, joined_big, pow_mono (64 - clz joined) m (ground (arith, f, a))))
      ]

  bucket : get_bucket_index clz h v ≡ 63 - m - clz joined
  unfolding get_bucket_index
  bucket = rw (laid.base, laid.mask) refl

  pub bucket-InBucket : InBucket m v (get_bucket_index clz h v)
  bucket-InBucket =
      let (a, b, c) = joined_ok in
      let at : m + (63 - m - clz joined) ≡ 63 - clz joined = omega (arith, exponent) in
      let next : m + (63 - m - clz joined) + 1 ≡ 64 - clz joined = omega (arith, exponent) in
      rw bucket (record {
        low = omega arith;
        below = rw next (omega (arith, c, (bit_or-above v (2 ^ (m + 1) - 1)).0));
        above = rw at (elim (Bool-cases (leb (2 ^ (63 - clz joined)) v)) [
          | inl t ↦ inr (ground (arith, t))
          | inr f ↦ elim (Bool-cases (leb (m + 1) (63 - clz joined))) [
            | inl t ↦ absurd (
                omega (
                  arith,
                  b,
                  bit_or-lt (63 - clz joined) v (2 ^ (m + 1) - 1) (ground (arith, f)) (
                      omega (
                        arith,
                        pow_mono (m + 1) (63 - clz joined) (ground (arith, t)),
                        pow_pos (m + 1),
                      )),
                ))
            | inr g ↦ inl (ground (arith, g, exponent))
          ]
        ]);
      })

pub pow_next : (k : ℕ) → 2 ^ (k + 1) ≡ 2 ^ k * 2
pow_next k = let next : k + 1 ≡ suc k = omega arith in ap (λ (x : ℕ). 2 ^ x) next ∙ pow-suc 2 k

pub pow_plus : (m n : ℕ) → 2 ^ (m + n) ≡ 2 ^ m * 2 ^ n
pow_plus m zero =
    let none_more : m + 0 ≡ m = omega arith in ap (λ (x : ℕ). 2 ^ x) none_more ∙ omega arith
pow_plus m (suc n) =
    let next : m + suc n ≡ suc (m + n) = omega arith in
    let step : 2 ^ (m + suc n) ≡ 2 ^ (m + n) * 2 = ap (λ (x : ℕ). 2 ^ x) next ∙ pow-suc 2 (m + n) in
    omega (
      arith,
      step,
      ap (λ (x : ℕ). x * 2) (pow_plus m n),
      ap (λ (x : ℕ). 2 ^ m * x) (pow-suc 2 n),
      mul_assoc (2 ^ m) (2 ^ n) 2,
    )

-- The sub-bucket of a value: below 2^(m+1), and in the upper half but for the first bucket.
pub record InSubBucket (m bi s : ℕ) : Type 0 where
  pub below : s < 2 ^ m * 2
  pub above : (bi ≡ 0) ⊎ (2 ^ m ≤ s)

pub InBucket-InSubBucket : (m v bi : ℕ) → InBucket m v bi → InSubBucket m bi (v / 2 ^ bi)
InBucket-InSubBucket m v bi w = record {
  below =
      (div-lt_iff_lt-mul {k = 2 ^ bi} {x = v} {y = 2 ^ m * 2} (pow_pos bi)).1 (
        omega
          (arith, w.below, pow_next (m + bi), pow_plus m bi, mul_right_comm (2 ^ m) 2 (2 ^ bi)));
  above = elim w.above [
    | inl e ↦ inl e
    | inr g ↦
        inr
          ((le-div_iff_mul-le {x = 2 ^ m} {y = v} (pow_pos bi)).1 (omega (arith, g, pow_plus m bi)))
  ];
}

module _ (m : ℕ) (h : LatencyHistogram) (laid : IsLaid m h) where
  low_product : (bi : ℕ) → m + bi ≤ 63 → (bi + 1) * 2 ^ m ≤ 2 ^ 30
  low_product bi l =
      let factor : (bi + 1) * 2 ^ m ≤ 64 * 2 ^ m =
        mul-le-mul_right {m = bi + 1} {n = 64} (2 ^ m) (omega arith) in
      omega (arith, factor, pow_mono m 24 laid.small)

  -- Up to this many sub-buckets no step of the index wraps.
  pub counts_index_exact :
      (bi s : ℕ)
      → m + bi ≤ 63
      → InSubBucket m bi s
      → counts_index h bi s ≡ (bi + 1) * 2 ^ m + s - 2 ^ m
  unfolding counts_index
  counts_index_exact bi s l w =
      rw (laid.magnitude, laid.half)
        (let base = low_product bi l in
          let least : 2 ^ m ≤ (bi + 1) * 2 ^ m = omega (arith, add-mul bi 1 (2 ^ m)) in
          let few = pow_mono m 24 laid.small in ground (arith, base, least, few, w.below))

  -- The index of a sub-bucket leads back to it.
  pub value_from_index-counts_index :
      (bi s : ℕ)
      → m + bi ≤ 63
      → InSubBucket m bi s
      → value_from_index h (counts_index h bi s) ≡ value_from_sub h bi s
  unfolding value_from_index
  value_from_index-counts_index bi s l w =
      let p = 2 ^ m in
      let x = (bi + 1) * p + s - p in
      rw (counts_index_exact bi s l w, laid.magnitude, laid.half, slot-mod m x)
        (elim (Bool-cases (ltb s p)) [
          | inl t ↦
              let first : bi ≡ 0 = elim w.above [
                | inl e ↦ e
                | inr g ↦ absurd (ground (arith, t, g))
              ] in
              let here : x ≡ s = rw first (omega arith) in
              rw
                (
                  here,
                  div-eq_of_lt {n = s} {m = p} (ground (arith, t)),
                  mod-eq_of_lt {n = s} {m = p} (ground (arith, t)),
                  first,
                )
                refl
          | inr f ↦
              let small : s - p < p = omega (arith, w.below, pow_pos m) in
              let here : x ≡ s - p + (bi + 1) * p = ground (arith, f) in
              let quotient : x / p ≡ bi + 1 =
                ap (λ (y : ℕ). y / p) here
                ∙ add-mul-div_right (s - p) (bi + 1) {z = p} (pow_pos m)
                ∙ omega (arith, div-eq_of_lt small) in
              let remainder : x % p ≡ s - p =
                ap (λ (y : ℕ). y % p) here
                ∙ add-mul-mod_self_right (s - p) (bi + 1) p
                ∙ mod-eq_of_lt small in
              let top : s - p + p ≡ s = ground (arith, f) in
              let at : bi + 1 - 1 ≡ bi = omega arith in
              let off : (bi + 1 == 0) ≡ false = ground arith in
              rw (quotient, remainder, off, at, top) refl
        ])
