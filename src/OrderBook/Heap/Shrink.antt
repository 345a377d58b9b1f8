-- ===== src/OrderBook/Heap/Shrink.antt =====
-- An order that loses part of its size keeps its place.
use burst_resilient_feed_han.Base.{
  ℕ, ◌+◌, ◌-◌, ◌≤◌, ◌≡◌, ◌≢◌, refl, sym, ap, subst, ◌∙◌, Option, none, some, true, false, List, [],
  ◌∷◌, ◌++◌, ◌==◌, arith,
}
use native.Mathlib.Decide.{ℕ_discrete}
use burst_resilient_feed_han.Base.Word.{sub64}
use burst_resilient_feed_han.OrderBook.Types.{Order, PriceLevel, OrderBook, update, update_self}
use burst_resilient_feed_han.OrderBook.Links.Chain.{Chain, NotIn, Distinct}
use burst_resilient_feed_han.OrderBook.Links.Fifo.{IsFifo, entry}
use burst_resilient_feed_han.OrderBook.Pool.Nodes.{Distinct-middle}
use burst_resilient_feed_han.OrderBook.Orders.{shrink}
use burst_resilient_feed_han.OrderBook.Heap.{
  orders_at, total, refs, find_ref, AllSmall, entries, IsLevel, IsBook,
}
use burst_resilient_feed_han.OrderBook.Heap.Lists.{
  SameEntries-update, orders_at-append, total-append, entries-append, entries-same, total-same,
  NotIn-other, Distinct-orders_at,
}
use burst_resilient_feed_han.OrderBook.Heap.Frame.{
  SameNodes-update, Apart-sym, Apart-split, IsPool-same,
}
use burst_resilient_feed_han.OrderBook.Heap.Join.{IsLevel-total, IsFifo-record}
use burst_resilient_feed_han.OrderBook.Links.Chain.{NotIn-append}

-- The memory with another size in the node `o`.
abbrev pub resized : (ℕ → Order) → ℕ → ℕ → ℕ → Order
resized node o s = update node o (record (node o) { size = s })

module _ (node : ℕ → Order) (o s : ℕ) where
  level_idx-resized : (a : ℕ) → (resized node o s a).level_idx ≡ (node a).level_idx
  level_idx-resized a = ground arith

  order_ref-resized : (a : ℕ) → (resized node o s a).order_ref ≡ (node a).order_ref
  order_ref-resized a = ground arith

  prev-resized : (a : ℕ) → (resized node o s a).prev ≡ (node a).prev
  prev-resized a = ground arith

  next-resized : (a : ℕ) → (resized node o s a).next ≡ (node a).next
  next-resized a = ground arith

  orders_at-resized : (i : ℕ) (l : List ℕ) → orders_at (resized node o s) i l ≡ orders_at node i l
  orders_at-resized i [] = refl
  orders_at-resized i (a ∷ l) = rw (level_idx-resized a, orders_at-resized i l)

  refs-resized : (l : List ℕ) → refs (resized node o s) l ≡ refs node l
  refs-resized [] = refl
  refs-resized (a ∷ l) = rw (order_ref-resized a, refs-resized l)

  find_ref-resized : (r : ℕ) (l : List ℕ) → find_ref (resized node o s) r l ≡ find_ref node r l
  find_ref-resized r [] = refl
  find_ref-resized r (a ∷ l) = rw (order_ref-resized a, find_ref-resized r l)

  AllSmall-resized :
      (l : List ℕ) → s ≤ (node o).size → AllSmall node l → AllSmall (resized node o s) l
  AllSmall-resized [] h v = tt
  AllSmall-resized (a ∷ l) h v = (ground (arith, v.0), AllSmall-resized l h v.1)

  Chain-resized :
      (p : Option ℕ) (q : List ℕ) (z : Option ℕ) → Chain node p q z → Chain (resized node o s) p q z
  Chain-resized p [] z c = tt
  Chain-resized p (a ∷ q) z c =
      (prev-resized a ∙ c.0, next-resized a ∙ c.1, Chain-resized (some a) q z c.2)

  IsFifo-resized :
      (lvl : PriceLevel) (q : List ℕ) → IsFifo node lvl q → IsFifo (resized node o s) lvl q
  IsFifo-resized lvl q v = record {
    chained = Chain-resized none q none v.chained;
    front = v.front;
    back = v.back;
  }

  total-resized :
      (q r : List ℕ)
      → NotIn o (q ++ r)
      → total (resized node o s) (q ++ (o ∷ r)) + (node o).size ≡ total node (q ++ (o ∷ r)) + s
  total-resized q r h =
      let (l, m) = NotIn-append o q r h in
      let v = record (node o) { size = s } in
      let here : (resized node o s o).size ≡ s =
        ap (λ (x : Order). x.size) (update_self node o v) in
      omega (
        arith,
        here,
        total-append (resized node o s) q (o ∷ r),
        total-append node q (o ∷ r),
        total-same node (resized node o s) q (SameEntries-update node o v q l),
        total-same node (resized node o s) r (SameEntries-update node o v r m),
      )

  pub entries-resized :
      (q r : List ℕ)
      → NotIn o (q ++ r)
      → entries (resized node o s) (q ++ (o ∷ r))
        ≡ entries node q ++ (record (entry (node o)) { size = s } ∷ entries node r)
  entries-resized q r h =
      let (l, m) = NotIn-append o q r h in
      let v = record (node o) { size = s } in
      let here : entry (resized node o s o) ≡ record (entry (node o)) { size = s } =
        ap entry (update_self node o v) in
      entries-append (resized node o s) q (o ∷ r)
      ∙ rw
          (
            entries-same node (resized node o s) q (SameEntries-update node o v q l),
            entries-same node (resized node o s) r (SameEntries-update node o v r m),
            here,
          )
          refl

module _ (n : ℕ) (b : OrderBook) (before after free : List ℕ) (o dec : ℕ)
    (v : IsBook n b (before ++ (o ∷ after)) free) (within : dec ≤ (b.pool.node o).size) where
  abbrev memory : ℕ → Order
  memory = b.pool.node

  abbrev live : List ℕ
  live = before ++ (o ∷ after)

  abbrev pub shrunk : ℕ → Order
  shrunk = resized memory o ((memory o).size - dec)

  alone : NotIn o (before ++ after)
  alone = Distinct-middle before after o v.distinct

  -- The orders of the level around this one.
  around :
      orders_at memory (memory o).level_idx live
      ≡ orders_at memory (memory o).level_idx before
        ++ (o ∷ orders_at memory (memory o).level_idx after)
  around =
      let here : ((memory o).level_idx == (memory o).level_idx) ≡ true = ground arith in
      orders_at-append memory (memory o).level_idx before (o ∷ after) ∙ rw here refl

  total_here :
      total shrunk (orders_at memory (memory o).level_idx live) + dec
      ≡ total memory (orders_at memory (memory o).level_idx live)
  total_here =
      let q = orders_at memory (memory o).level_idx before in
      let r = orders_at memory (memory o).level_idx after in
      let distinct =
        subst Distinct around (Distinct-orders_at memory (memory o).level_idx live v.distinct) in
      let step =
        total-resized memory o ((memory o).size - dec) q r (Distinct-middle q r o distinct) in
      subst (λ (l : List ℕ). total shrunk l + dec ≡ total memory l) (sym around) (omega arith)

  abbrev smaller : PriceLevel
  smaller = record (b.levels (memory o).level_idx) {
    aggregate_size = sub64 (b.levels (memory o).level_idx).aggregate_size dec;
  }

  shrunk_here : IsLevel shrunk smaller (orders_at memory (memory o).level_idx live)
  unfolding sub64
  shrunk_here =
      let w = v.level_ok (memory o).level_idx in
      record {
        fifo =
            IsFifo-resized memory o ((memory o).size - dec) smaller
              (orders_at memory (memory o).level_idx live)
              (IsFifo-record memory (b.levels (memory o).level_idx) smaller
                (orders_at memory (memory o).level_idx live) refl refl w.fifo);
        aggregated = omega (
          arith,
          w.aggregated,
          total_here,
          IsLevel-total memory (b.levels (memory o).level_idx) (memory o).level_idx live w v.small,
          v.countable,
        );
        counted = w.counted;
      }

  shrunk_elsewhere :
      (i : ℕ) → (memory o).level_idx ≢ i → IsLevel shrunk (b.levels i) (orders_at memory i live)
  shrunk_elsewhere i ne =
      let w = v.level_ok i in
      record {
        fifo =
            IsFifo-resized memory o ((memory o).size - dec) (b.levels i) (orders_at memory i live)
              w.fifo;
        aggregated =
            w.aggregated
            ∙ sym (
                total-same memory shrunk (orders_at memory i live) (
                  SameEntries-update memory o _ (orders_at memory i live)
                    (NotIn-other memory i o live ne)));
        counted = w.counted;
      }

  level_shrunk :
      (i : ℕ)
      → IsLevel shrunk (update b.levels (memory o).level_idx smaller i) (orders_at shrunk i live)
  level_shrunk i = elim (ℕ_discrete (memory o).level_idx i) [
    | yes same ↦
        let here : ((memory o).level_idx == i) ≡ true = ground (arith, same) in
        rw (here, orders_at-resized memory o ((memory o).size - dec) i live)
          (rw (← same) shrunk_here)
    | no other ↦
        let off : ((memory o).level_idx == i) ≡ false = ground (arith, other) in
        rw (off, orders_at-resized memory o ((memory o).size - dec) i live)
          (shrunk_elsewhere i other)
  ]

  pub shrink-IsBook : IsBook n (shrink o dec b) live free
  unfolding shrink
  shrink-IsBook =
      let s = (memory o).size - dec in
      record {
        pool_ok =
            IsPool-same b.pool shrunk live free
              (SameNodes-update memory o _ free
                ((Apart-split before after free o (Apart-sym free live v.pool_ok.apart)).1))
              v.pool_ok;
        distinct = v.distinct;
        distinct_refs = rw (refs-resized memory o s live) (v.distinct_refs);
        indexed = λ r. v.indexed r ∙ sym (find_ref-resized memory o s r live);
        level_ok = level_shrunk;
        small = AllSmall-resized memory o s live (omega arith) v.small;
        counted = v.counted;
        countable = v.countable;
        numbered = v.numbered;
      }
