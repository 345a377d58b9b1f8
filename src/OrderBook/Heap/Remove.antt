-- ===== src/OrderBook/Heap/Remove.antt =====
-- An order that is removed: the others stay, in their order.
use burst_resilient_feed_han.Base.{
  ℕ, suc, ◌+◌, ◌≤◌, ◌≡◌, sym, subst, ◌∙◌, none, true, false, List, ◌∷◌, ◌++◌, ◌==◌, length,
  length-append, inl, inr, arith, Bool-cases,
}
use native.Mathlib.Decide.{ℕ_discrete}
use burst_resilient_feed_han.Base.Word.{dec64}
use burst_resilient_feed_han.OrderBook.Types.{Order, OrderBook, update}
use burst_resilient_feed_han.OrderBook.Pool.{release}
use burst_resilient_feed_han.OrderBook.Pool.FreeList.{IsPool}
use burst_resilient_feed_han.OrderBook.Pool.Nodes.{release-IsPool, Distinct-middle}
use burst_resilient_feed_han.OrderBook.Links.Chain.{NotIn}
use burst_resilient_feed_han.OrderBook.Links.Fifo.{Distinct-without}
use burst_resilient_feed_han.OrderBook.Orders.{remove_order}
use burst_resilient_feed_han.OrderBook.Heap.{orders_at, refs, find_ref, entries, IsLevel, IsBook}
use burst_resilient_feed_han.OrderBook.Heap.Lists.{
  SameEntries, SameEntries-all, SameEntries-trans, orders_at-same, refs-same, find_ref-same,
  AllSmall-same, entries-same, refs-append, AllSmall-without, NotIn-orders_at,
}
use burst_resilient_feed_han.OrderBook.Heap.Find.{find_ref-without_ne, find_ref-without_self}
use burst_resilient_feed_han.OrderBook.Heap.Frame.{
  SameNodes, SameNodes-SameEntries, SameNodes-update, Apart-sym, Apart-orders_at, IsPool-same,
}
use burst_resilient_feed_han.OrderBook.Heap.Join.{IsLevel-same}
use burst_resilient_feed_han.OrderBook.Heap.Leave.{entry-leave_level, SameNodes-leave_level}
use burst_resilient_feed_han.OrderBook.Heap.Depart.{
  IsBook-rescan_after, left, unlinked, shares_nothing, left_here, left_elsewhere, here_ok,
}

module _ (n : ℕ) (b : OrderBook) (before after free : List ℕ) (o : ℕ)
    (v : IsBook n b (before ++ (o ∷ after)) free) where
  abbrev pub memory : ℕ → Order
  memory = b.pool.node

  abbrev pub apart_node : ℕ → Order
  apart_node = unlinked n b before after free o v

  abbrev pub released : ℕ → Order
  released = (release o (record (b.pool) { node = apart_node })).node

  alone : NotIn o (before ++ after)
  alone = Distinct-middle before after o v.distinct

  SameNodes-released : SameNodes apart_node released (before ++ after)
  unfolding release
  SameNodes-released = SameNodes-update apart_node o _ (before ++ after) alone

  SameEntries-unlinked : (l : List ℕ) → SameEntries memory apart_node l
  SameEntries-unlinked l = SameEntries-all memory apart_node l (
      entry-leave_level memory o (b.levels (memory o).level_idx)
        (orders_at memory (memory o).level_idx before) (orders_at memory (memory o).level_idx after)
        (here_ok n b before after free o v) (memory o).size)

  SameEntries-released : SameEntries memory released (before ++ after)
  SameEntries-released =
      SameEntries-trans memory apart_node released (before ++ after)
        (SameEntries-unlinked (before ++ after))
        (SameNodes-SameEntries apart_node released (before ++ after) SameNodes-released)

  -- What a client sees: the others, in their order.
  pub remove-entries : entries released (before ++ after) ≡ entries memory (before ++ after)
  remove-entries = entries-same memory released (before ++ after) SameEntries-released

  level_left :
      (i : ℕ)
      → IsLevel apart_node
          (update b.levels (memory o).level_idx (left n b before after free o v) i)
          (orders_at memory i (before ++ after))
  level_left i = elim (ℕ_discrete (memory o).level_idx i) [
    | yes same ↦
        let here : ((memory o).level_idx == i) ≡ true = ground (arith, same) in
        rw here (rw (← same) (left_here n b before after free o v))
    | no other ↦
        let off : ((memory o).level_idx == i) ≡ false = ground (arith, other) in
        rw off (left_elsewhere n b before after free o v i other)
  ]

  SameNodes-level : (i : ℕ) → SameNodes apart_node released (orders_at memory i (before ++ after))
  unfolding release
  SameNodes-level i =
      SameNodes-update apart_node o _ (orders_at memory i (before ++ after))
        (NotIn-orders_at memory i o (before ++ after) alone)

  level_released :
      (i : ℕ)
      → IsLevel released
          (update b.levels (memory o).level_idx (left n b before after free o v) i)
          (orders_at released i (before ++ after))
  level_released i = rw (orders_at-same memory released i (before ++ after) SameEntries-released) (
      IsLevel-same apart_node released _ (orders_at memory i (before ++ after)) (SameNodes-level i)
        (level_left i))

  indexed_released :
      (r : ℕ) → update b.index (memory o).order_ref none r ≡ find_ref released r (before ++ after)
  indexed_released r = elim (ℕ_discrete (memory o).order_ref r) [
    | yes same ↦
        let here : ((memory o).order_ref == r) ≡ true = ground (arith, same) in
        rw here (
          sym (
            find_ref-same memory released r (before ++ after) SameEntries-released
            ∙ subst (λ (k : ℕ). find_ref memory k (before ++ after) ≡ none) same
                (find_ref-without_self memory o before after v.distinct_refs)))
    | no other ↦
        let off : ((memory o).order_ref == r) ≡ false = ground (arith, other) in
        rw off (
          v.indexed r
          ∙ find_ref-without_ne memory r o before after other
          ∙ sym (find_ref-same memory released r (before ++ after) SameEntries-released))
  ]

  fewer : length (before ++ (o ∷ after)) ≡ length (before ++ after) + 1
  fewer = omega (arith, length-append before (o ∷ after), length-append before after)

  one_less : dec64 b.live_orders ≡ length (before ++ after)
  unfolding dec64
  one_less = omega (arith, fewer, v.counted, v.countable)

  pool_unlinked : IsPool (record (b.pool) { node = apart_node }) (before ++ (o ∷ after)) free
  pool_unlinked =
      IsPool-same b.pool apart_node (before ++ (o ∷ after)) free
        (SameNodes-leave_level memory o (b.levels (memory o).level_idx)
          (orders_at memory (memory o).level_idx before)
          (orders_at memory (memory o).level_idx after) (here_ok n b before after free o v)
          (memory o).size free
          (shares_nothing n b before after free o v free (
            Apart-orders_at memory (memory o).level_idx (before ++ (o ∷ after)) free
              (Apart-sym free (before ++ (o ∷ after)) v.pool_ok.apart))))
        v.pool_ok

  refs_released : refs released (before ++ after) ≡ refs memory before ++ refs memory after
  refs_released =
      refs-same memory released (before ++ after) SameEntries-released
      ∙ refs-append memory before after

  -- The book before the scan for a new best index.
  abbrev pub departed : OrderBook
  departed = record b {
    levels = update b.levels (memory o).level_idx (left n b before after free o v);
    index = update b.index (memory o).order_ref none;
    pool = release o (record (b.pool) { node = apart_node });
    live_orders = dec64 b.live_orders;
  }

  departed-IsBook : (m : ℕ) → m ≤ suc n → IsBook m departed (before ++ after) (o ∷ free)
  departed-IsBook m le = record {
    pool_ok =
        release-IsPool (record (b.pool) { node = apart_node }) before after free o pool_unlinked
          v.distinct;
    distinct = Distinct-without before after o v.distinct;
    distinct_refs = rw refs_released (
        Distinct-without (refs memory before) (refs memory after) (memory o).order_ref
          (rw (refs-append memory before (o ∷ after)) at (v.distinct_refs)));
    indexed = indexed_released;
    level_ok = level_released;
    small =
        AllSmall-same memory released (before ++ after) SameEntries-released
          (AllSmall-without memory before after o v.small);
    counted = one_less;
    countable = omega (arith, fewer, v.countable);
    numbered = v.numbered;
  }

  pub remove-IsBook : (m : ℕ) → m ≤ suc n → IsBook m (remove_order o b) (before ++ after) (o ∷ free)
  unfolding remove_order
  remove-IsBook m le =
      let lvl = left n b before after free o v in
      elim (Bool-cases (lvl.order_count == 0)) [
        | inl t ↦ rw t (
            IsBook-rescan_after m (memory o).side (memory o).level_idx departed (before ++ after)
              (o ∷ free) (departed-IsBook m le))
        | inr f ↦ rw f (departed-IsBook m le)
      ]
