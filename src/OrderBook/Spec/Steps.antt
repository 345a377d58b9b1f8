-- ===== src/OrderBook/Spec/Steps.antt =====
-- What an order that joins, leaves or shrinks makes of the orders that a book shows.
use burst_resilient_feed_han.Base.{
  ℕ, suc, ◌-◌, ◌^◌, ◌<◌, ◌≤◌, ◌≡◌, refl, ap, ◌∙◌, none, List, [], ◌∷◌, ◌++◌, ◌==◌, arith, inl, inr,
  Bool-cases,
}
use burst_resilient_feed_han.Event.{MarketEvent, Side, nobody, buy, sell}
use burst_resilient_feed_han.OrderBook.Types.{OrderBook, OrderBookConfig, OrderPool}
use burst_resilient_feed_han.OrderBook.Pool.FreeList.{IsPool}
use burst_resilient_feed_han.OrderBook.Pool.Nodes.{Distinct-middle}
use burst_resilient_feed_han.OrderBook.Links.Chain.{NotIn}
use burst_resilient_feed_han.OrderBook.Links.Fifo.{Entry, entry}
use burst_resilient_feed_han.OrderBook.Best.{
  raise_best, rescan_after, rescan_best_bid_from, rescan_best_ask_from,
}
use burst_resilient_feed_han.OrderBook.Orders.{place, remove_order, shrink, new_order}
use burst_resilient_feed_han.OrderBook.Heap.{IsBook, entries}
use burst_resilient_feed_han.OrderBook.Heap.Place.{place-IsBook, place-entries}
use burst_resilient_feed_han.OrderBook.Heap.Remove.{departed, remove-IsBook, remove-entries}
use burst_resilient_feed_han.OrderBook.Heap.Shrink.{shrink-IsBook, entries-resized}
use burst_resilient_feed_han.OrderBook.Heap.Depart.{left}
use burst_resilient_feed_han.OrderBook.Heap.Frame.{SameNodes}
use burst_resilient_feed_han.OrderBook.Price.{level_count}
use burst_resilient_feed_han.OrderBook.Price.Laws.{IsConfig}
use burst_resilient_feed_han.OrderBook.Spec.Shows.{Shows}

-- Two books with the same nodes and the same configuration.
record Alike (b b' : OrderBook) : Type 0 where
  pool : b'.pool ≡ b.pool
  cfg : b'.cfg ≡ b.cfg
  levels : b'.num_levels ≡ b.num_levels

raise_best-Alike : (s : Side) (i : ℕ) (b : OrderBook) → Alike b (raise_best s i b)
unfolding raise_best
raise_best-Alike nobody i b = record { pool = refl; cfg = refl; levels = refl }
raise_best-Alike buy i b = record { pool = refl; cfg = refl; levels = refl }
raise_best-Alike sell i b = record { pool = refl; cfg = refl; levels = refl }

rescan_after-Alike : (s : Side) (i : ℕ) (b : OrderBook) → Alike b (rescan_after s i b)
unfolding rescan_after rescan_best_bid_from rescan_best_ask_from
rescan_after-Alike s i b = record { pool = ground arith; cfg = ground arith; levels = ground arith }

Shows-Alike :
    (n : ℕ) (c : OrderBookConfig) (b b' : OrderBook) (live free : List ℕ) (es : List Entry)
    → Alike b b'
    → IsBook n b' live free
    → entries b.pool.node live ≡ es
    → b.cfg ≡ c
    → b.num_levels ≡ level_count c
    → IsConfig c
    → Shows n c b' es
Shows-Alike n c b b' live free es a v seen same sized config = record {
  live = live;
  free = free;
  ok = v;
  seen = ap (λ (p : OrderPool). entries p.node live) a.pool ∙ seen;
  config = config;
  same = a.cfg ∙ same;
  sized = a.levels ∙ sized;
}

-- The new order stands behind the others.
pub place-Shows :
    (n : ℕ) (c : OrderBookConfig) (ev : MarketEvent) (idx : ℕ) (b : OrderBook) (es : List Entry)
    (v : Shows (suc n) c b es) (o : ℕ) (pool : OrderPool) (free : List ℕ)
    → SameNodes b.pool.node pool.node v.live
    → NotIn o v.live
    → IsPool pool (v.live ++ (o ∷ [])) free
    → idx < 2 ^ 32
    → ev.size < 2 ^ 32
    → b.index ev.order_ref ≡ none
    → Shows n c (place ev idx o pool b) (es ++ (entry (new_order ev idx) ∷ []))
unfolding place
place-Shows n c ev idx b es v o pool free kept fresh ok within small unused =
    Shows-Alike n c _ _ (v.live ++ (o ∷ [])) free (es ++ (entry (new_order ev idx) ∷ []))
      (raise_best-Alike ev.side idx _)
      (place-IsBook n ev idx b v.live v.free v.ok o pool free kept fresh ok within small unused)
      (place-entries n ev idx b v.live v.free v.ok o pool free kept fresh ok within small unused
        ∙ ap (λ l. l ++ (entry (new_order ev idx) ∷ [])) v.seen)
      v.same v.sized v.config

remove_order-Alike :
    (n : ℕ) (b : OrderBook) (before after free : List ℕ) (o : ℕ)
    (v : IsBook n b (before ++ (o ∷ after)) free)
    → Alike (departed n b before after free o v) (remove_order o b)
unfolding remove_order
remove_order-Alike n b before after free o v =
    let lvl = left n b before after free o v in
    elim (Bool-cases (lvl.order_count == 0)) [
      | inl t ↦ rw t (rescan_after-Alike (b.pool.node o).side (b.pool.node o).level_idx _)
      | inr f ↦ rw f (record { pool = refl; cfg = refl; levels = refl })
    ]

module _ (n : ℕ) (c : OrderBookConfig) (b : OrderBook) (before after free : List ℕ) (o : ℕ)
    (v : IsBook n b (before ++ (o ∷ after)) free) (same : b.cfg ≡ c)
    (sized : b.num_levels ≡ level_count c) (config : IsConfig c) where
  pub remove-Shows :
      (m : ℕ) → m ≤ suc n → Shows m c (remove_order o b) (entries b.pool.node (before ++ after))
  remove-Shows m le =
      Shows-Alike m c _ (remove_order o b) (before ++ after) (o ∷ free) _
        (remove_order-Alike n b before after free o v)
        (remove-IsBook n b before after free o v m le) (remove-entries n b before after free o v)
        same sized config

  pub shrink-Shows :
      (dec : ℕ)
      → dec ≤ (b.pool.node o).size
      → Shows n c (shrink o dec b) (
          entries b.pool.node before
          ++ (record (entry (b.pool.node o)) { size = (b.pool.node o).size - dec }
              ∷ entries b.pool.node after))
  unfolding shrink
  shrink-Shows dec h = record {
    live = before ++ (o ∷ after);
    free = free;
    ok = shrink-IsBook n b before after free o dec v h;
    seen =
        entries-resized b.pool.node o ((b.pool.node o).size - dec) before after
          (Distinct-middle before after o v.distinct);
    config = config;
    same = same;
    sized = sized;
  }
