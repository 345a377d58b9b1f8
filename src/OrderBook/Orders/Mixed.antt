-- ===== src/OrderBook/Orders/Mixed.antt =====
-- An order that joins a level of the other side: nothing of on_add stops it, and the level keeps
-- its side.
use burst_resilient_feed_han.Base.{ℕ, ◌<◌, ◌≡◌, refl, sym, ap, ◌∙◌, none, some, false, List, arith}
use burst_resilient_feed_han.Base.Scan.{lowest_sound}
use burst_resilient_feed_han.Base.Cache.{lower}
use burst_resilient_feed_han.Event.{MarketEvent, buy, sell}
use burst_resilient_feed_han.OrderBook.Types.{OrderBook, Order, OrderPool, update, update_self}
use burst_resilient_feed_han.OrderBook.Pool
use burst_resilient_feed_han.OrderBook.Pool.FreeList.{IsPool}
use burst_resilient_feed_han.OrderBook.Pool.Nodes.{alloc-IsPool}
use burst_resilient_feed_han.OrderBook.Links.{link_back}
use burst_resilient_feed_han.OrderBook.Price.{to_index}
use burst_resilient_feed_han.OrderBook.Best.{holds, raise_best}
use burst_resilient_feed_han.OrderBook.Top.{IsTop}
use burst_resilient_feed_han.OrderBook.Orders.{join_level, place, on_add, new_order}

module _ (ev : MarketEvent) (idx : ℕ) (b : OrderBook) where
  placed_ask :
      (o : ℕ) (pool : OrderPool)
      → ev.side ≡ sell
      → (place ev idx o pool b).best_ask_idx ≡ lower b.best_ask_idx idx
  unfolding place raise_best
  placed_ask o pool e = rw e refl

  placed_level :
      (o : ℕ) (pool : OrderPool)
      → ev.side ≡ sell
      → (place ev idx o pool b).levels idx
        ≡ (join_level ev o (b.levels idx) (update pool.node o (new_order ev idx))).0
  unfolding place raise_best
  placed_level o pool e = rw e (update_self b.levels idx _)

  joined_other :
      (o : ℕ) (node : ℕ → Order)
      → (b.levels idx).side ≡ buy
      → 0 < (b.levels idx).order_count
      → holds sell (join_level ev o (b.levels idx) node).0 ≡ false
  unfolding join_level link_back
  joined_other o node e h = ground (arith, e)

  -- A sell order whose price falls at a level of buy orders, below the best ask, makes that level
  -- the best ask although it still counts as the buyers': the cached best ask is no longer what a
  -- scan finds.
  pub on_add-mixed :
      (live free : List ℕ)
      → IsPool b.pool live free
      → ev.side ≡ sell
      → to_index b.cfg ev.price_ticks ≡ some idx
      → b.index ev.order_ref ≡ none
      → (b.levels idx).side ≡ buy
      → 0 < (b.levels idx).order_count
      → lower b.best_ask_idx idx ≡ some idx
      → let c = on_add ev b in
        (c.best_ask_idx ≡ some idx) × (holds sell (c.levels idx) ≡ false) × ¬ IsTop c
  unfolding on_add
  on_add-mixed live free v s e i own n low =
      let (given, pool) = Pool.alloc b.pool in
      let o = (alloc-IsPool b.pool live free v).o in
      let same : on_add ev b ≡ place ev idx o pool b =
        rw (e, i, (alloc-IsPool b.pool live free v).given, on_add) refl in
      let best : (on_add ev b).best_ask_idx ≡ some idx =
        ap (λ (c : OrderBook). c.best_ask_idx) same ∙ placed_ask o pool s ∙ low in
      let empty : holds sell ((on_add ev b).levels idx) ≡ false =
        ap (λ (c : OrderBook). holds sell (c.levels idx)) same
        ∙ ap (holds sell) (placed_level o pool s)
        ∙ joined_other o _ own n in
      (
        best,
        empty,
        λ top. let hit = lowest_sound _ (on_add ev b).num_levels 0 idx (sym top.ask ∙ best) in cc,
      )
