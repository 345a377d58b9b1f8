-- ===== src/OrderBook/Orders/Tests.antt =====
-- A book with one buy order, at the second level: the theorems on the order path at it.
use burst_resilient_feed_han.Base.{ℕ, ◌<◌, ◌≡◌, refl, inr, none, some, false, [], ◌∷◌, take, arith}
use burst_resilient_feed_han.Base.Int.{pos, ◌-ℤ◌}
use burst_resilient_feed_han.Base.Cache.{lower}
use burst_resilient_feed_han.Base.Scan.{highest, lowest}
use burst_resilient_feed_han.Event
use burst_resilient_feed_han.Event.{MarketEvent, Side, buy, sell, default_event}
use burst_resilient_feed_han.OrderBook.Types.{
  OrderBook, OrderBookConfig, Order, blank_order, empty_level, update,
}
use burst_resilient_feed_han.OrderBook.Pool.FreeList.{IsPool}
use burst_resilient_feed_han.OrderBook.Price.{init, normalise, level_count, to_index}
use burst_resilient_feed_han.OrderBook.Best.{holds}
use burst_resilient_feed_han.OrderBook.Top.{IsTop}
use burst_resilient_feed_han.OrderBook.Levels.Top.{IsBanded, init-IsBanded}
use burst_resilient_feed_han.OrderBook.View.{depth_bids, depth_asks}
use burst_resilient_feed_han.OrderBook.View.Depth.{all_bids, all_asks, depth-take}
use burst_resilient_feed_han.OrderBook.Orders.{on_add, remove_order}
use burst_resilient_feed_han.OrderBook.Orders.Top.{Welcomes, on_add-IsTop, remove_order-IsTop}
use burst_resilient_feed_han.OrderBook.Orders.Mixed.{on_add-mixed}

abbrev band : OrderBookConfig
band = record { min_price_ticks = pos 100; max_price_ticks = pos 120; tick = pos 5; pool_chunk = 2 }

abbrev resting : Order
resting = record blank_order {
  order_ref = 7;
  price_ticks = pos 105;
  size = 30;
  level_idx = 1;
  side = buy;
}

abbrev one_bid : OrderBook
one_bid = record (init band) {
  levels =
      update (λ _. empty_level) 1
        (record empty_level {
          aggregate_size = 30;
          order_count = 1;
          side = buy;
          head = some 1;
          tail = some 1;
        });
  index = update (λ _. none) 7 (some 1);
  pool = record {
    chunk = 2;
    chunks = 1;
    free_head = some 0;
    node = update (λ _. blank_order) 1 resting;
  };
  best_bid_idx = some 1;
  live_orders = 1;
}

one_bid-IsTop : IsTop one_bid
unfolding init highest lowest normalise level_count ◌-ℤ◌
one_bid-IsTop = record { bid = refl; ask = refl }

one_bid-IsBanded : IsBanded one_bid
unfolding init
one_bid-IsBanded = record {
  config = (init-IsBanded band).config;
  sized = (init-IsBanded band).sized;
}

one_bid-IsPool : IsPool one_bid.pool (1 ∷ []) (0 ∷ [])
one_bid-IsPool = record {
  listed = (refl, refl);
  distinct = (tt, tt);
  apart = ((omega arith, tt), tt);
  free_within = (omega arith, tt);
  live_within = (omega arith, tt);
  roomy = omega arith;
}

-- An order of the side `s` with the reference 8, at the price 107.
abbrev order_of : Side → MarketEvent
order_of s = record default_event {
  type = Event.add;
  order_ref = 8;
  side = s;
  size = 5;
  price_ticks = pos 107;
}

second_level : to_index one_bid.cfg (pos 107) ≡ some 1
unfolding init normalise to_index ◌-ℤ◌
second_level = refl

welcome : (idx : ℕ) → to_index one_bid.cfg (pos 107) ≡ some idx → Welcomes buy (one_bid.levels idx)
welcome idx e =
    let at : idx ≡ 1 = ground (arith, second_level) in
    rw at (record { owned = inr refl; countable = omega arith })

on_add-IsTop_example : IsTop (on_add (order_of buy) one_bid)
on_add-IsTop_example = on_add-IsTop (order_of buy) one_bid welcome one_bid-IsBanded one_bid-IsTop

inside : 1 < one_bid.num_levels
unfolding init normalise level_count ◌-ℤ◌
inside = omega arith

remove_order-IsTop_example : IsTop (remove_order 1 one_bid)
remove_order-IsTop_example = remove_order-IsTop 1 one_bid inside refl (omega arith) one_bid-IsTop

sell_is_best : lower one_bid.best_ask_idx 1 ≡ some 1
unfolding init
sell_is_best = refl

on_add-mixed_example :
    let c = on_add (order_of sell) one_bid in
    (c.best_ask_idx ≡ some 1) × (holds sell (c.levels 1) ≡ false) × ¬ IsTop c
on_add-mixed_example =
    on_add-mixed (order_of sell) 1 one_bid (1 ∷ []) (0 ∷ []) one_bid-IsPool refl second_level refl
      refl (omega arith) sell_is_best

depth-take_example :
    (depth_bids one_bid 3 ≡ take 3 (all_bids one_bid one_bid.num_levels))
    × (depth_asks one_bid 3 ≡ take 3 (all_asks one_bid one_bid.num_levels 0))
depth-take_example = depth-take one_bid 3 one_bid-IsTop
