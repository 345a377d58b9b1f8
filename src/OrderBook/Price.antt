-- ===== src/OrderBook/Price.antt =====
-- The constructor of OrderBook, and the map between prices and indices of `levels_`. Prices are
-- exact integers: that a difference of two prices of the band fits int64_t is assumed of the
-- configuration.
pub mod Laws
use burst_resilient_feed_han.Base.{
  ℕ, ◌+◌, ◌/◌, Bool, false, Option, none, some, if◌then◌else◌, ◌||◌,
}
use burst_resilient_feed_han.Base.Int.{ℤ, pos, pos_part, ◌+ℤ◌, ◌-ℤ◌, ◌*ℤ◌, ltb_ℤ}
use burst_resilient_feed_han.OrderBook.Types.{
  OrderBook, OrderBookConfig, OrderBookStats, empty_level, no_stats,
}
use burst_resilient_feed_han.OrderBook.Pool

-- `if (cfg_.tick < 1) ...` and `if (cfg_.max_price_ticks < cfg_.min_price_ticks) ...`
unfoldable pub normalise : OrderBookConfig → OrderBookConfig
normalise c = record c {
  tick = if ltb_ℤ c.tick (pos 1) then pos 1 else c.tick;
  max_price_ticks =
      if ltb_ℤ c.max_price_ticks c.min_price_ticks then c.min_price_ticks else c.max_price_ticks;
}

unfoldable pub level_count : OrderBookConfig → ℕ
level_count c = pos_part (c.max_price_ticks -ℤ c.min_price_ticks) / pos_part c.tick + 1

unfoldable pub init : OrderBookConfig → OrderBook
init config =
    let c = normalise config in
    record {
      cfg = c;
      num_levels = level_count c;
      levels = λ _. empty_level;
      index = λ _. none;
      pool = Pool.init config.pool_chunk;
      best_bid_idx = none;
      best_ask_idx = none;
      live_orders = 0;
      stats = no_stats;
      crossed_at_last_boundary = false;
    }

-- `none` is -1, a price out of the band.
unfoldable pub to_index : OrderBookConfig → ℤ → Option ℕ
to_index c price =
    if ltb_ℤ price c.min_price_ticks || ltb_ℤ c.max_price_ticks price
    then none
    else some (pos_part (price -ℤ c.min_price_ticks) / pos_part c.tick)

unfoldable pub to_price : OrderBookConfig → ℕ → ℤ
to_price c i = c.min_price_ticks +ℤ pos i *ℤ c.tick
