-- ===== src/OrderBook/Top.antt =====
-- The cached best indices against a full scan of the levels, when one level is written.
use native.Mathlib.Decide.{ℕ_discrete}
use burst_resilient_feed_han.Base.{
  ℕ, ◌+◌, ◌-◌, ◌<◌, ◌≡◌, ◌≢◌, sym, ap, ◌∙◌, Bool, true, false, Option, none, some, inl, inr, arith,
  Bool-cases, if◌then◌else◌, ◌&&◌,
}
use burst_resilient_feed_han.Base.Scan.{
  highest, lowest, highest_sound, lowest_sound, highest-ext, lowest-ext,
}
use burst_resilient_feed_han.Base.Cache.{
  higher, lower, highest-gain, highest-lose, highest-rescan, lowest-gain, lowest-lose,
  lowest-rescan,
}
use burst_resilient_feed_han.Event.{Side, nobody, buy, sell, side_eq}
use burst_resilient_feed_han.OrderBook.Types.{OrderBook, PriceLevel, update, update_self, update-ne}
use burst_resilient_feed_han.OrderBook.Best.{
  holds, is_best, rescan_after, rescan_best_bid_from, rescan_best_ask_from,
}

-- The index that a full scan from the top, or from the bottom, finds for a side.
abbrev pub top_bid : (ℕ → PriceLevel) → ℕ → Option ℕ
top_bid levels n = highest (λ i. holds buy (levels i)) n

abbrev pub top_ask : (ℕ → PriceLevel) → ℕ → Option ℕ
top_ask levels n = lowest (λ i. holds sell (levels i)) n 0

-- The cached indices are what the full scans find.
pub record IsTop (b : OrderBook) : Type 0 where
  pub bid : b.best_bid_idx ≡ top_bid b.levels b.num_levels
  pub ask : b.best_ask_idx ≡ top_ask b.levels b.num_levels

-- What `rescan_after` and `raise_best` leave alone, and the indices that they set.
pub bid-rescan_after :
    (s : Side) (idx : ℕ) (b : OrderBook)
    → (rescan_after s idx b).best_bid_idx ≡ (
        if side_eq s buy && is_best b.best_bid_idx idx
        then highest (λ i. holds buy (b.levels i)) idx
        else b.best_bid_idx)
unfolding rescan_after rescan_best_bid_from rescan_best_ask_from
bid-rescan_after s idx b = ground arith

pub ask-rescan_after :
    (s : Side) (idx : ℕ) (b : OrderBook)
    → (rescan_after s idx b).best_ask_idx ≡ (
        if side_eq s sell && is_best b.best_ask_idx idx
        then lowest (λ i. holds sell (b.levels i)) (b.num_levels - (idx + 1)) (idx + 1)
        else b.best_ask_idx)
unfolding rescan_after rescan_best_bid_from rescan_best_ask_from
ask-rescan_after nobody idx b = ground arith
ask-rescan_after buy idx b = ground arith
ask-rescan_after sell idx b = ground arith

is_best_sound : (o : Option ℕ) (i : ℕ) → is_best o i ≡ true → o ≡ some i
is_best_sound none i h = cc
is_best_sound (some k) i h = ground arith

best_test :
    (s t : Side) (o : Option ℕ) (i : ℕ) → s ≡ t → o ≡ some i → (side_eq s t && is_best o i) ≡ true
best_test nobody nobody o i e h = ground arith
best_test buy buy o i e h = ground arith
best_test sell sell o i e h = ground arith
best_test _ _ o i e h = absurd (ground arith)

best_test_sound :
    (s t : Side) (o : Option ℕ) (i : ℕ) → (side_eq s t && is_best o i) ≡ true → o ≡ some i
best_test_sound s t o i h = is_best_sound o i (ground arith)

module _ (levels : ℕ → PriceLevel) (n idx : ℕ) (l : PriceLevel) (inside : idx < n) where
  elsewhere : (t : Side) (j : ℕ) → j ≢ idx → holds t (levels j) ≡ holds t (update levels idx l j)
  elsewhere t j ne = ap (holds t) (sym (update-ne levels idx j l ne))

  here : (t : Side) {v : Bool} → holds t l ≡ v → holds t (update levels idx l idx) ≡ v
  here t e = ap (holds t) (update_self levels idx l) ∙ e

  -- The level at `idx` holds nothing for buyers now: the cached index after the rescan, if the old
  -- owner `s` was the buyers' whenever the level held anything for them.
  pub bid_lost :
      (s : Side)
      → holds buy l ≡ false
      → (holds buy (levels idx) ≡ true → s ≡ buy)
      → (if side_eq s buy && is_best (top_bid levels n) idx
          then highest (λ i. holds buy (update levels idx l i)) idx
          else top_bid levels n)
        ≡ top_bid (update levels idx l) n
  bid_lost s f owner = elim (Bool-cases (side_eq s buy && is_best (top_bid levels n) idx)) [
    | inl t ↦ rw t (
        sym (
          highest-rescan _ _ n idx inside (elsewhere buy) (here buy f)
            (best_test_sound s buy (top_bid levels n) idx t)))
    | inr t ↦ rw t (
        sym (
          highest-lose _ _ n idx inside (elsewhere buy) (here buy f) (λ e.
            let hit = highest_sound _ n idx e in
            let on = best_test s buy (top_bid levels n) idx (owner hit.0) e in cc)))
  ]

  pub ask_lost :
      (s : Side)
      → holds sell l ≡ false
      → (holds sell (levels idx) ≡ true → s ≡ sell)
      → (if side_eq s sell && is_best (top_ask levels n) idx
          then lowest (λ i. holds sell (update levels idx l i)) (n - (idx + 1)) (idx + 1)
          else top_ask levels n)
        ≡ top_ask (update levels idx l) n
  ask_lost s f owner = elim (Bool-cases (side_eq s sell && is_best (top_ask levels n) idx)) [
    | inl t ↦ rw t (
        sym (
          lowest-rescan _ _ n idx inside (elsewhere sell) (here sell f)
            (best_test_sound s sell (top_ask levels n) idx t)))
    | inr t ↦ rw t (
        sym (
          lowest-lose _ _ n idx inside (elsewhere sell) (here sell f) (λ e.
            let hit = lowest_sound _ n 0 idx e in
            let on = best_test s sell (top_ask levels n) idx (owner hit.0) e in cc)))
  ]

  -- The level holds size for a side now.
  pub bid_gained :
      holds buy l ≡ true → higher (top_bid levels n) idx ≡ top_bid (update levels idx l) n
  bid_gained t = sym (highest-gain _ _ n idx inside (elsewhere buy) (here buy t))

  pub ask_gained :
      holds sell l ≡ true → lower (top_ask levels n) idx ≡ top_ask (update levels idx l) n
  ask_gained t = sym (lowest-gain _ _ n idx inside (elsewhere sell) (here sell t))

  -- The level holds for a side what it held.
  same_holds :
      (t : Side)
      → holds t l ≡ holds t (levels idx)
      → (j : ℕ) → holds t (levels j) ≡ holds t (update levels idx l j)
  same_holds t e j = elim (ℕ_discrete j idx) [
    | yes at_idx ↦ rw at_idx (sym (here t e))
    | no off ↦ elsewhere t j off
  ]

  pub bid_kept :
      holds buy l ≡ holds buy (levels idx) → top_bid levels n ≡ top_bid (update levels idx l) n
  bid_kept e = highest-ext _ _ n (λ j h. same_holds buy e j)

  pub ask_kept :
      holds sell l ≡ holds sell (levels idx) → top_ask levels n ≡ top_ask (update levels idx l) n
  ask_kept e = lowest-ext _ _ n 0 (λ j a h. same_holds sell e j)
