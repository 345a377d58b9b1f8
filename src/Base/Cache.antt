-- ===== src/Base/Cache.antt =====
-- A cached result of a scan, when the test changes at one index.
use burst_resilient_feed_han.Base.{
  ℕ, ◌+◌, ◌-◌, ◌<◌, ◌≡◌, ◌≢◌, sym, ap, ◌∙◌, Bool, true, false, Option, none, some, inl, inr, ltb,
  if◌then◌else◌, arith, Option-cases,
}
use native.Mathlib.Decide.{dec_lt, ℕ_discrete}
use burst_resilient_feed_han.Base.Scan.{
  highest, highest_sound, highest-above, highest-none, highest-ext, highest-skip, highest-some,
  lowest, lowest_sound, lowest-below, lowest-none, lowest-ext, lowest-skip, lowest-some,
}

-- `best < 0 || idx > best`, and its mirror image.
abbrev pub higher : Option ℕ → ℕ → Option ℕ
higher none i = some i
higher (some k) i = if ltb k i then some i else some k

abbrev pub lower : Option ℕ → ℕ → Option ℕ
lower none i = some i
lower (some k) i = if ltb i k then some i else some k

module _ (p q : ℕ → Bool) (n idx : ℕ) (inside : idx < n)
    (same : (j : ℕ) → j ≢ idx → p j ≡ q j) where
  pub highest-gain : q idx ≡ true → highest q n ≡ higher (highest p n) idx
  highest-gain t = elim (Option-cases (highest p n)) [
    | inl e ↦ rw e (
        highest-some q n idx inside t
          (λ j a b. sym (same j (omega arith)) ∙ highest-none p n j e b))
    | inr (k, e) ↦ rw e (elim (dec_lt k idx) [
      | yes over ↦
          let r =
            highest-some q n idx inside t
              (λ j a b. sym (same j (omega arith)) ∙ highest-above p n k j e (omega arith) b) in
          ground arith
      | no under ↦
          let s = highest_sound p n k e in
          let hit : q k ≡ true = elim (ℕ_discrete k idx) [
            | yes at_idx ↦ rw at_idx t
            | no off ↦ sym (same k off) ∙ s.0
          ] in
          let r =
            highest-some q n k s.1 hit
              (λ j a b. sym (same j (omega arith)) ∙ highest-above p n k j e a b) in
          ground arith
    ])
  ]

  pub highest-lose : q idx ≡ false → highest p n ≢ some idx → highest q n ≡ highest p n
  highest-lose f ne = elim (Option-cases (highest p n)) [
    | inl e ↦ highest-ext q p n (λ j b. elim (ℕ_discrete j idx) [
      | yes at_idx ↦ rw at_idx (f ∙ sym (highest-none p n idx e inside))
      | no off ↦ sym (same j off)
    ])
    | inr (k, e) ↦
        let s = highest_sound p n k e in
        let off : k ≢ idx = λ h. ne (ground arith) in
        rw e (
          highest-some q n k s.1 (sym (same k off) ∙ s.0) (λ j a b. elim (ℕ_discrete j idx) [
            | yes at_idx ↦ rw at_idx f
            | no away ↦ sym (same j away) ∙ highest-above p n k j e a b
          ]))
  ]

  pub highest-rescan : q idx ≡ false → highest p n ≡ some idx → highest q n ≡ highest q idx
  highest-rescan f e =
      let split : n ≡ idx + (n - idx) = omega arith in
      rw split (
        highest-skip q idx (n - idx) (λ j a b. elim (ℕ_discrete j idx) [
          | yes at_idx ↦ rw at_idx f
          | no away ↦ sym (same j away) ∙ highest-above p n idx j e (omega arith) (omega arith)
        ]))

  pub lowest-gain : q idx ≡ true → lowest q n 0 ≡ lower (lowest p n 0) idx
  lowest-gain t = elim (Option-cases (lowest p n 0)) [
    | inl e ↦ rw e (
        lowest-some q n 0 idx (omega arith) (omega arith) t
          (λ j a b. sym (same j (omega arith)) ∙ lowest-none p n 0 j e a (omega arith)))
    | inr (k, e) ↦ rw e (elim (dec_lt idx k) [
      | yes under ↦
          let r =
            lowest-some q n 0 idx (omega arith) (omega arith) t
              (λ j a b. sym (same j (omega arith)) ∙ lowest-below p n 0 k j e a (omega arith)) in
          ground arith
      | no over ↦
          let s = lowest_sound p n 0 k e in
          let hit : q k ≡ true = elim (ℕ_discrete k idx) [
            | yes at_idx ↦ rw at_idx t
            | no off ↦ sym (same k off) ∙ s.0
          ] in
          let r =
            lowest-some q n 0 k s.1 s.2 hit
              (λ j a b. sym (same j (omega arith)) ∙ lowest-below p n 0 k j e a b) in
          ground arith
    ])
  ]

  pub lowest-lose : q idx ≡ false → lowest p n 0 ≢ some idx → lowest q n 0 ≡ lowest p n 0
  lowest-lose f ne = elim (Option-cases (lowest p n 0)) [
    | inl e ↦ lowest-ext q p n 0 (λ j a b. elim (ℕ_discrete j idx) [
      | yes at_idx ↦ rw at_idx (f ∙ sym (lowest-none p n 0 idx e (omega arith) (omega arith)))
      | no off ↦ sym (same j off)
    ])
    | inr (k, e) ↦
        let s = lowest_sound p n 0 k e in
        let off : k ≢ idx = λ h. ne (ground arith) in
        rw e (
          lowest-some q n 0 k s.1 s.2 (sym (same k off) ∙ s.0) (λ j a b. elim (ℕ_discrete j idx) [
            | yes at_idx ↦ rw at_idx f
            | no away ↦ sym (same j away) ∙ lowest-below p n 0 k j e a b
          ]))
  ]

  pub lowest-rescan :
      q idx ≡ false → lowest p n 0 ≡ some idx → lowest q n 0 ≡ lowest q (n - (idx + 1)) (idx + 1)
  lowest-rescan f e =
      let split : n ≡ idx + 1 + (n - (idx + 1)) = omega arith in
      let start : 0 + (idx + 1) ≡ idx + 1 = omega arith in
      let skipped = lowest-skip q (idx + 1) (n - (idx + 1)) 0 (λ j a b. elim (ℕ_discrete j idx) [
        | yes at_idx ↦ rw at_idx f
        | no away ↦ sym (same j away) ∙ lowest-below p n 0 idx j e a (omega arith)
      ]) in
      ap (λ k. lowest q k 0) split ∙ (rw start at skipped)
