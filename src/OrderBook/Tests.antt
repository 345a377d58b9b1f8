-- ===== src/OrderBook/Tests.antt =====
-- Runs of the book on small inputs, and its theorems at such inputs.
use burst_resilient_feed_han.Base.{ℕ, ◌≡◌, refl, some, [], ◌∷◌, arith}
use burst_resilient_feed_han.Base.Int.{pos, ◌-ℤ◌}
use burst_resilient_feed_han.Base.Scan.{highest, lowest}
use burst_resilient_feed_han.Event.{buy, sell}
use burst_resilient_feed_han.OrderBook.Types.{
  Order, OrderBook, OrderBookConfig, OrderPool, PriceLevel, blank_order, empty_level, update,
}
use burst_resilient_feed_han.OrderBook.Pool
use burst_resilient_feed_han.OrderBook.Pool.FreeList.{IsPool}
use burst_resilient_feed_han.OrderBook.Pool.Nodes.{
  Handed, init-IsPool, alloc-IsPool, release-IsPool,
}
use burst_resilient_feed_han.OrderBook.Links.{link_back, unlink}
use burst_resilient_feed_han.OrderBook.Links.Fifo.{IsFifo, link_back-IsFifo, unlink-IsFifo}
use burst_resilient_feed_han.OrderBook.Price.{normalise, level_count, init, to_index, to_price}
use burst_resilient_feed_han.OrderBook.Price.Laws.{IsConfig, to_index-to_price}
use burst_resilient_feed_han.OrderBook.Best.{
  rescan_after, rescan_best_bid_from, rescan_best_ask_from, raise_best,
}
use burst_resilient_feed_han.OrderBook.Top.{IsTop}
use burst_resilient_feed_han.OrderBook.Levels.{set_level, clear_level, fill_level, count_applied}
use burst_resilient_feed_han.OrderBook.Levels.Top.{init-IsBanded, set_level-IsTop}

abbrev band : OrderBookConfig
band = record { min_price_ticks = pos 100; max_price_ticks = pos 120; tick = pos 5; pool_chunk = 2 }

empty_book : OrderBook
unfolding init
empty_book = init band

band-IsConfig : IsConfig band
band-IsConfig = omega arith

to_index-to_price_example : to_index band (to_price band 3) ≡ some 3
unfolding level_count ◌-ℤ◌
to_index-to_price_example = to_index-to_price band 3 band-IsConfig (omega arith)

empty_book-IsTop : IsTop (init band)
unfolding init highest lowest normalise level_count ◌-ℤ◌
empty_book-IsTop = record { bid = refl; ask = refl }

set_level-IsTop_example : IsTop (set_level buy (pos 107) 30 (init band))
set_level-IsTop_example =
    set_level-IsTop buy (pos 107) 30 (init band) (init-IsBanded band) empty_book-IsTop

two_levels :
    (set_level sell (pos 110) 7 (set_level buy (pos 107) 30 empty_book)).best_ask_idx ≡ some 2
unfolding empty_book init set_level clear_level fill_level count_applied raise_best rescan_after
    rescan_best_bid_from rescan_best_ask_from highest lowest to_index normalise level_count ◌-ℤ◌
two_levels = refl

-- A level with the nodes 1 and 2, in this order.
abbrev linked : ℕ → Order
linked =
    update (update (λ _. blank_order) 1 (record blank_order { next = some 2 })) 2
      (record blank_order { prev = some 1 })

abbrev pair_level : PriceLevel
pair_level = record empty_level { order_count = 2; head = some 1; tail = some 2 }

pair-IsFifo : IsFifo linked pair_level (1 ∷ 2 ∷ [])
pair-IsFifo = record { chained = (refl, refl, (refl, refl, tt)); front = refl; back = refl }

link_back-IsFifo_example :
    let (lvl, node) = link_back pair_level 5 linked in IsFifo node lvl (1 ∷ 2 ∷ 5 ∷ [])
link_back-IsFifo_example =
    link_back-IsFifo linked pair_level (1 ∷ 2 ∷ []) 5 pair-IsFifo ((omega arith, tt), (tt, tt))
      (omega arith, (omega arith, tt))

unlink-IsFifo_example : let (lvl, node) = unlink pair_level 1 linked in IsFifo node lvl (2 ∷ [])
unlink-IsFifo_example =
    unlink-IsFifo linked pair_level [] (2 ∷ []) 1 pair-IsFifo ((omega arith, tt), (tt, tt))

alloc-IsPool_example : Handed (Pool.init 2) []
alloc-IsPool_example = alloc-IsPool (Pool.init 2) [] [] (init-IsPool 2)

-- A pool of one chunk of two nodes, the second one in use.
abbrev half_used : OrderPool
half_used = record { chunk = 2; chunks = 1; free_head = some 0; node = λ _. blank_order }

half_used-IsPool : IsPool half_used (1 ∷ []) (0 ∷ [])
half_used-IsPool = record {
  listed = (refl, refl);
  distinct = (tt, tt);
  apart = ((omega arith, tt), tt);
  free_within = (omega arith, tt);
  live_within = (omega arith, tt);
  roomy = omega arith;
}

release-IsPool_example : IsPool (Pool.release 1 half_used) [] (1 ∷ 0 ∷ [])
release-IsPool_example = release-IsPool half_used [] [] (0 ∷ []) 1 half_used-IsPool (tt, tt)
