-- ===== src/OrderBook/View.antt =====
-- What a client reads of a book: the best levels, the depth of either side and the spread.
pub mod Depth
use burst_resilient_feed_han.Base.{
  ℕ, zero, suc, ◌+◌, ◌-◌, true, none, some, List, [], ◌∷◌, if◌then◌else◌,
}
use burst_resilient_feed_han.Base.Int.{ℤ, negsuc, ◌-ℤ◌}
use burst_resilient_feed_han.Event.{buy, sell}
use burst_resilient_feed_han.OrderBook.Types.{OrderBook, BookLevel, no_level}
use burst_resilient_feed_han.OrderBook.Price.{to_price}
use burst_resilient_feed_han.OrderBook.Best.{holds}

-- `{to_price(i), lvl.aggregate_size, lvl.order_count, true}`.
unfoldable pub level_at : OrderBook → ℕ → BookLevel
level_at b i = record {
  price_ticks = to_price b.cfg i;
  aggregate_size = (b.levels i).aggregate_size;
  order_count = (b.levels i).order_count;
  valid = true;
}

unfoldable pub best_bid : OrderBook → BookLevel
best_bid b = elim b.best_bid_idx [ none ↦ no_level | some i ↦ level_at b i ]

unfoldable pub best_ask : OrderBook → BookLevel
best_ask b = elim b.best_ask_idx [ none ↦ no_level | some i ↦ level_at b i ]

-- The loop of `depth_bids` over the indices below `k`, with room for `n` levels in `out`.
unfoldable pub walk_down : OrderBook → ℕ → ℕ → List BookLevel
walk_down b zero n = []
walk_down b (suc k) zero = []
walk_down b (suc k) (suc n) =
    let rest = walk_down b k n in
    let skip = walk_down b k (suc n) in if holds buy (b.levels k) then level_at b k ∷ rest else skip

unfoldable pub depth_bids : OrderBook → ℕ → List BookLevel
depth_bids b n = elim b.best_bid_idx [ none ↦ [] | some i ↦ walk_down b (suc i) n ]

-- The loop of `depth_asks` over `k` indices from `i` up.
unfoldable pub walk_up : OrderBook → ℕ → ℕ → ℕ → List BookLevel
walk_up b zero i n = []
walk_up b (suc k) i zero = []
walk_up b (suc k) i (suc n) =
    let rest = walk_up b k (i + 1) n in
    let skip = walk_up b k (i + 1) (suc n) in
    if holds sell (b.levels i) then level_at b i ∷ rest else skip

unfoldable pub depth_asks : OrderBook → ℕ → List BookLevel
depth_asks b n = elim b.best_ask_idx [ none ↦ [] | some i ↦ walk_up b (b.num_levels - i) i n ]

unfoldable pub spread_ticks : OrderBook → ℤ
spread_ticks b = elim b.best_bid_idx [
  | none ↦ negsuc 0
  | some bid ↦ elim b.best_ask_idx [
    | none ↦ negsuc 0
    | some ask ↦ to_price b.cfg ask -ℤ to_price b.cfg bid
  ]
]
