-- ===== src/OrderBook/Heap/Leave.antt =====
-- What leave_level does to the level that an order leaves, and to the other levels.
use burst_resilient_feed_han.Base.{
  ℕ, ◌+◌, ◌^◌, ◌<◌, ◌≡◌, refl, sym, ◌∙◌, none, List, [], ◌∷◌, ◌++◌, length, length-append, arith,
}
use burst_resilient_feed_han.Base.Word.{sub64, dec32}
use burst_resilient_feed_han.OrderBook.Types.{Order, PriceLevel}
use burst_resilient_feed_han.OrderBook.Links.{unlink, set_next, set_prev}
use burst_resilient_feed_han.OrderBook.Links.Chain.{Distinct, Outside, Chain-split, last_of, first}
use burst_resilient_feed_han.OrderBook.Links.Fifo.{entry, entry-unlink, unlink-IsFifo}
use burst_resilient_feed_han.OrderBook.Pool.FreeList.{Apart}
use burst_resilient_feed_han.OrderBook.Orders.{leave_level, vacate}
use burst_resilient_feed_han.OrderBook.Heap.{total, IsLevel}
use burst_resilient_feed_han.OrderBook.Heap.Lists.{SameEntries-all, total-same, total-append}
use burst_resilient_feed_han.OrderBook.Heap.Frame.{
  SameNodes, SameNodes-trans, SameNodes-set_next, SameNodes-set_prev, IsFifo-unlink, last_of-Apart,
  first-Apart, Apart-split,
}
use burst_resilient_feed_han.OrderBook.Heap.Join.{IsFifo-record}

head-vacate : (l : PriceLevel) → (vacate l).head ≡ l.head
head-vacate l = ground arith

tail-vacate : (l : PriceLevel) → (vacate l).tail ≡ l.tail
tail-vacate l = ground arith

count-vacate : (l : PriceLevel) → (vacate l).order_count ≡ l.order_count
count-vacate l = ground arith

size-vacate :
    (l : PriceLevel)
    → (l.order_count ≡ 0 → l.aggregate_size ≡ 0)
    → (vacate l).aggregate_size ≡ l.aggregate_size
size-vacate l h = ground (arith, h)

total-empty : (node : ℕ → Order) (q : List ℕ) → length q ≡ 0 → total node q ≡ 0
total-empty node [] e = refl
total-empty node (o ∷ q) e = absurd (omega arith)

module _ (node : ℕ → Order) (o : ℕ) (lvl : PriceLevel) (q r : List ℕ)
    (v : IsLevel node lvl (q ++ (o ∷ r))) where
  -- The order's links lead to its neighbours in the queue.
  pub neighbours : ((node o).prev ≡ last_of none q) × ((node o).next ≡ first r none)
  neighbours = let (_, mid) = Chain-split node none q (o ∷ r) none v.fifo.chained in (mid.0, mid.1)

  pub neighbours-Outside :
      (x : List ℕ) → Apart (q ++ (o ∷ r)) x → Outside (node o).prev x × Outside (node o).next x
  neighbours-Outside x a =
      let (l, _, m) = Apart-split q r x o a in
      (rw (neighbours.0) (last_of-Apart q x none l tt), rw (neighbours.1) (first-Apart r x m))

  pub entry-leave_level : (size a : ℕ) → entry ((leave_level o size lvl node).1 a) ≡ entry (node a)
  unfolding leave_level
  entry-leave_level size a = entry-unlink lvl o node a

  pub SameNodes-leave_level :
      (size : ℕ) (x : List ℕ)
      → Apart (q ++ (o ∷ r)) x
      → SameNodes node (leave_level o size lvl node).1 x
  unfolding leave_level unlink
  SameNodes-leave_level size x a =
      let out = neighbours-Outside x a in
      let mid = set_next (node o).prev (node o).next node in
      SameNodes-trans node mid (set_prev (node o).next (node o).prev mid) x
        (SameNodes-set_next node (node o).prev (node o).next x out.0)
        (SameNodes-set_prev mid (node o).next (node o).prev x out.1)

  total-middle : total node (q ++ (o ∷ r)) ≡ total node (q ++ r) + (node o).size
  total-middle = omega (arith, total-append node q (o ∷ r), total-append node q r)

  pub leave_level-IsLevel :
      Distinct (q ++ (o ∷ r))
      → lvl.aggregate_size < 2 ^ 64
      → length (q ++ (o ∷ r)) < 2 ^ 32
      → let (l, node') = leave_level o (node o).size lvl node in IsLevel node' l (q ++ r)
  unfolding leave_level sub64 dec32 unlink
  leave_level-IsLevel d sum count =
      let (l, node') = unlink lvl o node in
      let left = record l {
        aggregate_size = sub64 l.aggregate_size (node o).size;
        order_count = dec32 l.order_count;
      } in
      let same : total node' (q ++ r) ≡ total node (q ++ r) =
        total-same node node' (q ++ r)
          (SameEntries-all node node' (q ++ r) (entry-unlink lvl o node)) in
      let lengths : length (q ++ (o ∷ r)) ≡ length (q ++ r) + 1 =
        omega (arith, length-append q (o ∷ r), length-append q r) in
      let counted : left.order_count ≡ length (q ++ r) = omega (arith, v.counted) in
      let sized : left.aggregate_size ≡ total node (q ++ r) =
        omega (arith, v.aggregated, total-middle) in
      record {
        fifo =
            IsFifo-record node' l (vacate left) (q ++ r) (head-vacate left) (tail-vacate left)
              (unlink-IsFifo node lvl q r o v.fifo d);
        aggregated =
            size-vacate left (λ e. sized ∙ total-empty node (q ++ r) (sym counted ∙ e))
            ∙ sized
            ∙ sym same;
        counted = count-vacate left ∙ counted;
      }

  -- Another level, which shares no order with this one.
  pub leave_level-other :
      (size : ℕ) (m : PriceLevel) (x : List ℕ)
      → Apart (q ++ (o ∷ r)) x
      → IsLevel node m x
      → IsLevel (leave_level o size lvl node).1 m x
  unfolding leave_level
  leave_level-other size m x a w =
      let out = neighbours-Outside x a in
      record {
        fifo = IsFifo-unlink node lvl m o x out.0 out.1 w.fifo;
        aggregated =
            w.aggregated
            ∙ sym (
                total-same node (unlink lvl o node).1 x
                  (SameEntries-all node (unlink lvl o node).1 x (entry-unlink lvl o node)));
        counted = w.counted;
      }
