-- ===== src/OrderBook/Levels.antt =====
-- The price-level path of src/order_book.cpp (set_level and the event boundary), and reset.
pub mod Top
pub mod Shown
use burst_resilient_feed_han.Base.{
  ℕ, Bool, false, Option, none, some, ◌==◌, ltb, if◌then◌else◌, ◌&&◌, not,
}
use burst_resilient_feed_han.Base.Int.{ℤ}
use burst_resilient_feed_han.Base.Word.{inc64, dec64}
use burst_resilient_feed_han.Event.{Side, nobody, side_eq}
use burst_resilient_feed_han.OrderBook.Types.{OrderBook, PriceLevel, empty_level, update}
use burst_resilient_feed_han.OrderBook.Pool
use burst_resilient_feed_han.OrderBook.Price.{to_index}
use burst_resilient_feed_han.OrderBook.Best.{raise_best, rescan_after, is_crossed}

-- The branch `total_size == 0`.
unfoldable pub clear_level : ℕ → OrderBook → OrderBook
clear_level idx b =
    let lvl = b.levels idx in
    if ltb 0 lvl.order_count
    then rescan_after lvl.side idx (record b {
      levels =
          update b.levels idx (record lvl { aggregate_size = 0; order_count = 0; side = nobody });
      live_orders = dec64 b.live_orders;
    })
    else b

-- The other branch: a level with no size yet, a resize, or a change of sides.
unfoldable pub fill_level : Side → ℕ → ℕ → OrderBook → OrderBook
fill_level side idx total_size b =
    let lvl = b.levels idx in
    if lvl.order_count == 0
    then record b {
      levels =
          update b.levels idx
            (record lvl { side = side; order_count = 1; aggregate_size = total_size });
      live_orders = inc64 b.live_orders;
    }
    else if side_eq lvl.side side
    then record b { levels = update b.levels idx (record lvl { aggregate_size = total_size }) }
    else rescan_after lvl.side idx (record b {
      levels = update b.levels idx (record lvl { side = side; aggregate_size = total_size });
    })

unfoldable pub count_applied : OrderBook → OrderBook
count_applied b = record b { stats = record (b.stats) { applied = inc64 b.stats.applied } }

unfoldable pub set_level : Side → ℤ → ℕ → OrderBook → OrderBook
set_level side price_ticks total_size b = elim (to_index b.cfg price_ticks) [
  | none ↦ count_applied (record b {
    stats = record (b.stats) { rejected_out_of_band = inc64 b.stats.rejected_out_of_band };
  })
  | some idx ↦ count_applied (
      if total_size == 0
      then (let c = clear_level idx b in
          record c { stats = record (c.stats) { deletes = inc64 c.stats.deletes } })
      else (let c = raise_best side idx (fill_level side idx total_size b) in
          record c { stats = record (c.stats) { adds = inc64 c.stats.adds } }))
]

unfoldable pub observe_event_boundary : OrderBook → OrderBook
observe_event_boundary b =
    let crossed = is_crossed b in
    let counted =
      if crossed && not b.crossed_at_last_boundary
      then record (b.stats) { crossed_observed = inc64 b.stats.crossed_observed }
      else b.stats in
    record b { stats = counted; crossed_at_last_boundary = crossed }

unfoldable pub reset : OrderBook → OrderBook
reset b = record b {
  index = λ _. none;
  levels = λ _. empty_level;
  pool = Pool.reset_all b.pool;
  best_bid_idx = none;
  best_ask_idx = none;
  live_orders = 0;
  crossed_at_last_boundary = false;
}
