-- ===== src/OrderBook/Spec/Tests.antt =====
-- The theorems of Spec at a stream of five events.
use burst_resilient_feed_han.Base.{ℕ, ◌≡◌, ◌≤◌, ◌<◌, ◌^◌, refl, List, [], ◌∷◌, length, arith}
use burst_resilient_feed_han.Base.Int.{pos, ◌-ℤ◌}
use burst_resilient_feed_han.Event
use burst_resilient_feed_han.Event.{MarketEvent, Side, buy, sell, default_event}
use burst_resilient_feed_han.OrderBook.Types.{OrderBookConfig}
use burst_resilient_feed_han.OrderBook.Links.Fifo.{Entry}
use burst_resilient_feed_han.OrderBook.Price.{init, normalise, level_count, to_index}
use burst_resilient_feed_han.OrderBook.Orders.{apply}
use burst_resilient_feed_han.OrderBook.Spec.{add, replace, reduce, remove, lookup, change}
use burst_resilient_feed_han.OrderBook.Spec.Shows.{Shows, init-Shows}
use burst_resilient_feed_han.OrderBook.Spec.Apply.{apply-Shows, apply_all, AllFit, change_all}
use burst_resilient_feed_han.OrderBook.Spec.Level.{level_of, apply_all-level_of}
use burst_resilient_feed_han.OrderBook.View.{level_at}

abbrev band : OrderBookConfig
band = record { min_price_ticks = pos 100; max_price_ticks = pos 120; tick = pos 5; pool_chunk = 2 }

abbrev add_order : ℕ → Side → ℕ → ℕ → MarketEvent
add_order ref side price size = record default_event {
  type = Event.add;
  order_ref = ref;
  side = side;
  size = size;
  price_ticks = pos price;
}

-- Three orders, of which the first is executed in part and the second replaced.
abbrev session : List MarketEvent
session =
    add_order 1 buy 105 30
    ∷ add_order 2 buy 105 20
    ∷ add_order 3 sell 115 10
    ∷ record default_event { type = Event.execute; order_ref = 1; size = 25 }
    ∷ record default_event {
      type = Event.replace;
      order_ref = 2;
      new_order_ref = 4;
      size = 7;
      price_ticks = pos 110;
    }
    ∷ []

abbrev order_left : ℕ → Side → ℕ → ℕ → ℕ → Entry
order_left ref side price size idx = record {
  order_ref = ref;
  price_ticks = pos price;
  size = size;
  level_idx = idx;
  side = side;
}

session_shows :
    change_all (normalise band) session []
    ≡ order_left 1 buy 105 5 1 ∷ order_left 3 sell 115 10 3 ∷ order_left 4 buy 110 7 2 ∷ []
unfolding change_all change add replace reduce remove lookup to_index normalise ◌-ℤ◌
session_shows = refl

levels_small : level_count (normalise band) ≤ 2 ^ 32
unfolding level_count normalise ◌-ℤ◌
levels_small = omega arith

all_fit : AllFit session
all_fit = (omega arith, (omega arith, (omega arith, (omega arith, (omega arith, tt)))))

apply-Shows_example :
    Shows 3
      (normalise band)
      (apply (add_order 1 buy 105 30) (init band))
      (change (normalise band) Event.add (add_order 1 buy 105 30) [])
apply-Shows_example =
    apply-Shows 3 (normalise band) [] (add_order 1 buy 105 30) (omega arith) (init band)
      (init-Shows 4 band (omega arith) levels_small)

session_few : length session < 2 ^ 32
session_few = omega arith

apply_all-level_of_example :
    let b = apply_all session (init band) in
    let es = change_all (normalise band) session [] in
    (b.live_orders ≡ length es) × (level_at b 1 ≡ level_of (normalise band) es 1)
apply_all-level_of_example = apply_all-level_of band session 1 all_fit session_few levels_small
