-- ===== src/OrderBook/Heap/Join.antt =====
-- What join_level does to the level that an order joins, and to the other levels.
use burst_resilient_feed_han.Base.{
  ℕ, ◌+◌, ◌*◌, ◌^◌, ◌<◌, ◌≤◌, ◌≡◌, refl, sym, ◌∙◌, none, some, List, [], ◌∷◌, ◌++◌, ◌==◌,
  if◌then◌else◌, length, length-append, arith,
}
use burst_resilient_feed_han.Base.Word.{add64, inc32}
use burst_resilient_feed_han.Event.{MarketEvent}
use burst_resilient_feed_han.OrderBook.Types.{Order, PriceLevel, update}
use burst_resilient_feed_han.OrderBook.Links.{link_back}
use burst_resilient_feed_han.OrderBook.Links.Chain.{NotIn, Distinct, Outside}
use burst_resilient_feed_han.OrderBook.Links.Fifo.{IsFifo, entry, entry-link_back, link_back-IsFifo}
use burst_resilient_feed_han.OrderBook.Orders.{join_level}
use burst_resilient_feed_han.OrderBook.Heap.{orders_at, AllSmall, IsLevel}
use burst_resilient_feed_han.OrderBook.Heap.Lists.{
  SameEntries-all, total-same, total-append, total-le, AllSmall-at, length-orders_at,
}
use burst_resilient_feed_han.OrderBook.Heap.Frame.{
  SameNodes, SameNodes-trans, SameNodes-SameEntries, IsFifo-same, IsFifo-link_back,
  SameNodes-update, SameNodes-set_next,
}

-- A level's sums over the orders of the book fit their words.
pub IsLevel-total :
    (node : ℕ → Order) (lvl : PriceLevel) (i : ℕ) (live : List ℕ)
    → IsLevel node lvl (orders_at node i live)
    → AllSmall node live
    → lvl.aggregate_size ≤ length live * 2 ^ 32
IsLevel-total node lvl i live v a = omega (
  arith,
  v.aggregated,
  total-le node (orders_at node i live) (AllSmall-at node i live a),
  length-orders_at node i live,
)

-- The queue after the update, and what of a level's record is no queue.
pub IsFifo-record :
    (node : ℕ → Order) (l m : PriceLevel) (q : List ℕ)
    → m.head ≡ l.head
    → m.tail ≡ l.tail
    → IsFifo node l q
    → IsFifo node m q
IsFifo-record node l m q h t v = record {
  chained = v.chained;
  front = h ∙ v.front;
  back = t ∙ v.back;
}

module _ (ev : MarketEvent) (o : ℕ) (lvl : PriceLevel) (node : ℕ → Order) where
  pub entry-join_level : (a : ℕ) → entry ((join_level ev o lvl node).1 a) ≡ entry (node a)
  unfolding join_level
  entry-join_level a = entry-link_back _ o node a

  -- The level that the order joins.
  pub join_level-IsLevel :
      (q : List ℕ)
      → IsLevel node lvl q
      → Distinct q
      → NotIn o q
      → (node o).size ≡ ev.size
      → lvl.aggregate_size + ev.size < 2 ^ 64
      → length q + 1 < 2 ^ 32
      → let (l, node') = join_level ev o lvl node in IsLevel node' l (q ++ (o ∷ []))
  unfolding join_level link_back add64 inc32
  join_level-IsLevel q v d n e sum count =
      let claimed = record lvl { side = if lvl.order_count == 0 then ev.side else lvl.side } in
      let (l, node') = link_back claimed o node in
      let same =
        total-same node node' (q ++ (o ∷ []))
          (SameEntries-all node node' (q ++ (o ∷ [])) (entry-link_back claimed o node)) in
      record {
        fifo = IsFifo-record node' l _ (q ++ (o ∷ [])) refl refl (
            link_back-IsFifo node claimed q o (IsFifo-record node lvl claimed q refl refl v.fifo) d
              n);
        aggregated = omega (arith, same, total-append node q (o ∷ []), e, v.aggregated);
        counted = omega (arith, v.counted, length-append q (o ∷ []));
      }

  -- Another level, none of whose orders is in the queue.
  pub join_level-other :
      (m : PriceLevel) (q : List ℕ)
      → NotIn o q
      → Outside lvl.tail q
      → IsLevel node m q
      → IsLevel (join_level ev o lvl node).1 m q
  unfolding join_level
  join_level-other m q n out v =
      let claimed = record lvl { side = if lvl.order_count == 0 then ev.side else lvl.side } in
      record {
        fifo = IsFifo-link_back node claimed m o q n out v.fifo;
        aggregated =
            v.aggregated
            ∙ sym (
                total-same node (link_back claimed o node).1 q (
                  SameEntries-all node (link_back claimed o node).1 q
                    (entry-link_back claimed o node)));
        counted = v.counted;
      }

  pub SameNodes-join_level :
      (f : List ℕ) → NotIn o f → Outside lvl.tail f → SameNodes node (join_level ev o lvl node).1 f
  unfolding join_level link_back
  SameNodes-join_level f n out =
      let linked = record (node o) { prev = lvl.tail; next = none } in
      SameNodes-trans node (update node o linked) _ f (SameNodes-update node o linked f n)
        (SameNodes-set_next (update node o linked) lvl.tail (some o) f out)

pub IsLevel-same :
    (node node' : ℕ → Order) (lvl : PriceLevel) (q : List ℕ)
    → SameNodes node node' q
    → IsLevel node lvl q
    → IsLevel node' lvl q
IsLevel-same node node' lvl q s v = record {
  fifo = IsFifo-same node node' lvl q s v.fifo;
  aggregated = v.aggregated ∙ sym (total-same node node' q (SameNodes-SameEntries node node' q s));
  counted = v.counted;
}
