-- ===== src/OrderBook/View/Depth.antt =====
-- The depth walks against the list of all levels of a side, best first.
use burst_resilient_feed_han.Base.{
  ℕ, zero, suc, ◌+◌, ◌-◌, ◌≤◌, ◌<◌, ◌≡◌, refl, sym, ap, ◌∙◌, Option, none, some, List, [], ◌∷◌,
  false, inl, inr, arith, take, Bool-cases, Option-cases, if◌then◌else◌,
}
use burst_resilient_feed_han.Base.Scan.{
  highest_sound, highest-above, highest-none, lowest_sound, lowest-below, lowest-none,
}
use burst_resilient_feed_han.Event.{buy, sell}
use burst_resilient_feed_han.OrderBook.Types.{OrderBook, BookLevel}
use burst_resilient_feed_han.OrderBook.Best.{holds}
use burst_resilient_feed_han.OrderBook.Top.{IsTop}
use burst_resilient_feed_han.OrderBook.View.{level_at, walk_down, walk_up, depth_bids, depth_asks}

-- The levels below `k` that hold something for buyers, from the highest price down.
abbrev pub all_bids : OrderBook → ℕ → List BookLevel
all_bids b zero = []
all_bids b (suc k) =
    let rest = all_bids b k in if holds buy (b.levels k) then level_at b k ∷ rest else rest

-- The `k` levels from `i` up that hold something for sellers, from the lowest price up.
abbrev pub all_asks : OrderBook → ℕ → ℕ → List BookLevel
all_asks b zero i = []
all_asks b (suc k) i =
    let rest = all_asks b k (i + 1) in if holds sell (b.levels i) then level_at b i ∷ rest else rest

module _ (b : OrderBook) where
  walk_down-take : (k n : ℕ) → walk_down b k n ≡ take n (all_bids b k)
  unfolding walk_down
  walk_down-take zero zero = refl
  walk_down-take zero (suc n) = refl
  walk_down-take (suc k) zero = refl
  walk_down-take (suc k) (suc n) = elim (Bool-cases (holds buy (b.levels k))) [
    | inl t ↦ rw t (ap (λ l. level_at b k ∷ l) (walk_down-take k n))
    | inr f ↦ rw f (walk_down-take k (suc n))
  ]

  walk_up-take : (k i n : ℕ) → walk_up b k i n ≡ take n (all_asks b k i)
  unfolding walk_up
  walk_up-take zero i zero = refl
  walk_up-take zero i (suc n) = refl
  walk_up-take (suc k) i zero = refl
  walk_up-take (suc k) i (suc n) = elim (Bool-cases (holds sell (b.levels i))) [
    | inl t ↦ rw t (ap (λ l. level_at b i ∷ l) (walk_up-take k (i + 1) n))
    | inr f ↦ rw f (walk_up-take k (i + 1) (suc n))
  ]

  -- Levels that hold nothing for the side add nothing.
  all_bids-above :
      (d m : ℕ)
      → ((j : ℕ) → m ≤ j → j < d + m → holds buy (b.levels j) ≡ false)
      → all_bids b (d + m) ≡ all_bids b m
  all_bids-above zero m h = ap (all_bids b) (omega arith)
  all_bids-above (suc d) m h =
      let a : suc d + m ≡ suc (d + m) = omega arith in
      rw a (
        rw (h (d + m) (omega arith) (omega arith))
          (all_bids-above d m (λ j x y. h j x (omega arith))))

  all_asks-below :
      (d k i : ℕ)
      → ((j : ℕ) → i ≤ j → j < i + d → holds sell (b.levels j) ≡ false)
      → all_asks b (d + k) i ≡ all_asks b k (i + d)
  all_asks-below zero k i h =
      let a : zero + k ≡ k = omega arith in let c : i + zero ≡ i = omega arith in rw (a, c) refl
  all_asks-below (suc d) k i h =
      let a : suc d + k ≡ suc (d + k) = omega arith in
      let c : i + suc d ≡ i + 1 + d = omega arith in
      rw (a, c)
        (rw (h i (omega arith) (omega arith))
          (all_asks-below d k (i + 1) (λ j x y. h j (omega arith) (omega arith))))

  take-nothing : (n : ℕ) {l : List BookLevel} → l ≡ [] → [] ≡ take n l
  take-nothing zero e = refl
  take-nothing (suc n) e = sym (ap (take (suc n)) e)

  bids_from_best :
      (i : ℕ) → b.best_bid_idx ≡ some i → IsTop b → all_bids b b.num_levels ≡ all_bids b (suc i)
  bids_from_best i e v =
      let found = sym v.bid ∙ e in
      let inside = highest_sound _ b.num_levels i found in
      let whole : b.num_levels ≡ (b.num_levels - suc i) + suc i = omega (arith, inside.1) in
      ap (all_bids b) whole
      ∙ all_bids-above (b.num_levels - suc i) (suc i)
          (λ j x y. highest-above _ b.num_levels i j found (omega arith) (omega (arith, inside.1)))

  asks_from_best :
      (i : ℕ)
      → b.best_ask_idx ≡ some i
      → IsTop b
      → all_asks b b.num_levels 0 ≡ all_asks b (b.num_levels - i) i
  asks_from_best i e v =
      let found = sym v.ask ∙ e in
      let inside = lowest_sound _ b.num_levels 0 i found in
      let whole : b.num_levels ≡ i + (b.num_levels - i) = omega (arith, inside.1) in
      let start : 0 + i ≡ i = omega arith in
      ap (λ (k : ℕ). all_asks b k 0) whole
      ∙ all_asks-below i (b.num_levels - i) 0
          (λ j x y. lowest-below _ b.num_levels 0 i j found (omega arith) (omega arith))
      ∙ ap (all_asks b (b.num_levels - i)) start

  no_bids : b.best_bid_idx ≡ none → IsTop b → all_bids b b.num_levels ≡ []
  no_bids e v =
      let found = sym v.bid ∙ e in
      let whole : b.num_levels ≡ b.num_levels + 0 = omega arith in
      ap (all_bids b) whole
      ∙ all_bids-above b.num_levels 0 (λ j x y. highest-none _ b.num_levels j found (omega arith))

  no_asks : b.best_ask_idx ≡ none → IsTop b → all_asks b b.num_levels 0 ≡ []
  no_asks e v =
      let found = sym v.ask ∙ e in
      let whole : b.num_levels ≡ b.num_levels + 0 = omega arith in
      ap (λ (k : ℕ). all_asks b k 0) whole
      ∙ all_asks-below b.num_levels 0 0
          (λ j x y. lowest-none _ b.num_levels 0 j found (omega arith) (omega arith))

  depth_bids-take : (n : ℕ) → IsTop b → depth_bids b n ≡ take n (all_bids b b.num_levels)
  unfolding depth_bids
  depth_bids-take n v =
      let from : Option ℕ → List BookLevel =
        λ x. elim x [ none ↦ [] | some i ↦ walk_down b (suc i) n ] in
      elim (Option-cases b.best_bid_idx) [
        | inl e ↦ ap from e ∙ take-nothing n (no_bids e v)
        | inr (i, e) ↦
            ap from e ∙ walk_down-take (suc i) n ∙ ap (take n) (sym (bids_from_best i e v))
      ]

  depth_asks-take : (n : ℕ) → IsTop b → depth_asks b n ≡ take n (all_asks b b.num_levels 0)
  unfolding depth_asks
  depth_asks-take n v =
      let from : Option ℕ → List BookLevel =
        λ x. elim x [ none ↦ [] | some i ↦ walk_up b (b.num_levels - i) i n ] in
      elim (Option-cases b.best_ask_idx) [
        | inl e ↦ ap from e ∙ take-nothing n (no_asks e v)
        | inr (i, e) ↦
            ap from e
            ∙ walk_up-take (b.num_levels - i) i n
            ∙ ap (take n) (sym (asks_from_best i e v))
      ]

  -- On a book whose cached best indices are those of a full scan, the depth of either side is the
  -- list of all levels of that side, best price first, cut off after `n`.
  pub depth-take :
      (n : ℕ)
      → IsTop b
      → (depth_bids b n ≡ take n (all_bids b b.num_levels))
        × (depth_asks b n ≡ take n (all_asks b b.num_levels 0))
  depth-take n v = (depth_bids-take n v, depth_asks-take n v)
