-- ===== src/OrderBook/Spec/Level.antt =====
-- What the price levels tell of the orders that the book shows.
use burst_resilient_feed_han.Base.{
  ℕ, ◌+◌, ◌^◌, ◌<◌, ◌≤◌, ◌≡◌, true, refl, sym, ◌∙◌, List, [], ◌∷◌, ◌==◌, if◌then◌else◌, length, inl,
  inr, Bool-cases,
}
use burst_resilient_feed_han.OrderBook.Types.{OrderBook, OrderBookConfig, Order, BookLevel}
use burst_resilient_feed_han.OrderBook.Links.Fifo.{Entry}
use burst_resilient_feed_han.OrderBook.Heap.{orders_at, total, entries}
use burst_resilient_feed_han.OrderBook.Spec.Shows.{Shows, init-Shows}
use burst_resilient_feed_han.OrderBook.Spec.Apply.{apply_all, AllFit, change_all, apply_all-Shows}
use burst_resilient_feed_han.OrderBook.Price.{init, normalise, level_count, to_price}
use burst_resilient_feed_han.OrderBook.View.{level_at}
use burst_resilient_feed_han.Event.{MarketEvent}

-- The orders of one level.
unfoldable pub queue_at : ℕ → List Entry → List Entry
queue_at i [] = []
queue_at i (e ∷ es) = let rest = queue_at i es in if e.level_idx == i then e ∷ rest else rest

unfoldable pub shares : List Entry → ℕ
shares [] = 0
shares (e ∷ es) = e.size + shares es

module _ (node : ℕ → Order) where
  queue_at-entries :
      (i : ℕ) (l : List ℕ) → queue_at i (entries node l) ≡ entries node (orders_at node i l)
  unfolding queue_at
  queue_at-entries i [] = refl
  queue_at-entries i (o ∷ l) = elim (Bool-cases ((node o).level_idx == i)) [
    | inl t ↦ rw (t, queue_at-entries i l) refl
    | inr f ↦ rw (f, queue_at-entries i l) refl
  ]

  shares-entries : (l : List ℕ) → shares (entries node l) ≡ total node l
  unfolding shares
  shares-entries [] = refl
  shares-entries (o ∷ l) = rw (shares-entries l) refl

  length-entries : (l : List ℕ) → length (entries node l) ≡ length l
  length-entries [] = refl
  length-entries (o ∷ l) = rw (length-entries l) refl

-- A book that shows the orders `es` counts them, and each of its levels has the number and the
-- total size of those of them that stand at it.
Shows-level :
    (n : ℕ) (c : OrderBookConfig) (b : OrderBook) (es : List Entry) (i : ℕ)
    → Shows n c b es
    → (b.live_orders ≡ length es)
      × ((b.levels i).order_count ≡ length (queue_at i es))
      × ((b.levels i).aggregate_size ≡ shares (queue_at i es))
Shows-level n c b es i v =
    let node = b.pool.node in
    let w = v.ok.level_ok i in
    rw (← v.seen, queue_at-entries node i v.live)
      (
        v.ok.counted ∙ sym (length-entries node v.live),
        w.counted ∙ sym (length-entries node (orders_at node i v.live)),
        w.aggregated ∙ sym (shares-entries node (orders_at node i v.live)),
      )

-- The answer about the level `i` when the orders `es` are live.
abbrev pub level_of : OrderBookConfig → List Entry → ℕ → BookLevel
level_of c es i = record {
  price_ticks = to_price c i;
  aggregate_size = shares (queue_at i es);
  order_count = length (queue_at i es);
  valid = true;
}

level_at-level_of :
    (c : OrderBookConfig) (b : OrderBook) (es : List Entry) (i : ℕ)
    → Shows 0 c b es
    → (b.live_orders ≡ length es) × (level_at b i ≡ level_of c es i)
unfolding level_at
level_at-level_of c b es i v =
    let (live, count, sum) = Shows-level 0 c b es i v in (live, rw (count, sum, v.same) refl)

-- After a stream of less than 2^32 order events of any types, whose sizes fit 32 bits, on a fresh
-- book with a price band of at most 2^32 levels: the book counts exactly the orders that the events,
-- each in turn, make of an empty list, and for each level it answers with the level's price, the
-- number of these orders that stand at the level and the sum of their sizes.
pub apply_all-level_of :
    (cfg : OrderBookConfig) (evs : List MarketEvent) (i : ℕ)
    → AllFit evs
    → length evs < 2 ^ 32
    → level_count (normalise cfg) ≤ 2 ^ 32
    → let b = apply_all evs (init cfg) in
      let es = change_all (normalise cfg) evs [] in
      (b.live_orders ≡ length es) × (level_at b i ≡ level_of (normalise cfg) es i)
apply_all-level_of cfg evs i fit few levels =
    let c = normalise cfg in
    level_at-level_of c (apply_all evs (init cfg)) (change_all c evs []) i
      (apply_all-Shows c evs (init cfg) [] fit (init-Shows (length evs) cfg few levels))
