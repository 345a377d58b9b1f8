-- ===== src/OrderBook/Best.antt =====
-- The cached best indices: the scans that recompute them, and the tests that move them.
use burst_resilient_feed_han.Base.{
  ℕ, ◌+◌, ◌-◌, Bool, false, Option, none, some, ltb, leb, ◌==◌, if◌then◌else◌, ◌&&◌,
}
use burst_resilient_feed_han.Base.Scan.{highest, lowest}
use burst_resilient_feed_han.Base.Cache.{higher, lower}
use burst_resilient_feed_han.Event.{Side, nobody, buy, sell, side_eq}
use burst_resilient_feed_han.OrderBook.Types.{OrderBook, PriceLevel}

-- The test of both scans: `order_count > 0 && side == ...`.
abbrev pub holds : Side → PriceLevel → Bool
holds s lvl = ltb 0 lvl.order_count && side_eq lvl.side s

-- The loop from `n - 1` down to 0.
unfoldable pub rescan_best_bid_from : ℕ → OrderBook → OrderBook
rescan_best_bid_from n b = record b { best_bid_idx = highest (λ i. holds buy (b.levels i)) n }

-- The loop from `i` up to the last level.
unfoldable pub rescan_best_ask_from : ℕ → OrderBook → OrderBook
rescan_best_ask_from i b = record b {
  best_ask_idx = lowest (λ j. holds sell (b.levels j)) (b.num_levels - i) i;
}

-- `idx == best`, where -1 equals no index.
abbrev pub is_best : Option ℕ → ℕ → Bool
is_best none i = false
is_best (some k) i = i == k

-- After a level is emptied, or changes sides, that had `s` before.
unfoldable pub rescan_after : Side → ℕ → OrderBook → OrderBook
rescan_after s idx b =
    if side_eq s buy && is_best b.best_bid_idx idx
    then rescan_best_bid_from idx b
    else if side_eq s sell && is_best b.best_ask_idx idx
    then rescan_best_ask_from (idx + 1) b
    else b

-- After the side `s` has gained size at `idx`.
unfoldable pub raise_best : Side → ℕ → OrderBook → OrderBook
raise_best buy idx b = record b { best_bid_idx = higher b.best_bid_idx idx }
raise_best sell idx b = record b { best_ask_idx = lower b.best_ask_idx idx }
raise_best nobody idx b = b

unfoldable pub is_crossed : OrderBook → Bool
is_crossed b = elim b.best_bid_idx [
  | none ↦ false
  | some bid ↦ elim b.best_ask_idx [ none ↦ false | some ask ↦ leb ask bid ]
]
