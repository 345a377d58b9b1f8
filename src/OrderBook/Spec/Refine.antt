-- ===== src/OrderBook/Spec/Refine.antt =====
-- Each operation of src/order_book.cpp does to the book what Spec says of its list of live orders.
use burst_resilient_feed_han.Base.{
  ℕ, suc, ◌-◌, ◌%◌, ◌^◌, ◌<◌, ◌≤◌, ◌≡◌, refl, sym, ap, subst, ◌∙◌, none, some, List, ◌∷◌, ◌++◌,
  ◌==◌, min, arith, inl, inr, Bool-cases, Option-cases,
}
use burst_resilient_feed_han.Event.{MarketEvent}
use burst_resilient_feed_han.OrderBook.Types.{OrderBook, OrderBookConfig, Order, update_self}
use burst_resilient_feed_han.OrderBook.Links.Chain.{NotIn}
use burst_resilient_feed_han.OrderBook.Price.{level_count, to_index}
use burst_resilient_feed_han.OrderBook.Price.Laws.{IsConfig, to_index-lt-level_count}
use burst_resilient_feed_han.OrderBook.Pool.Nodes.{Distinct-middle, alloc-IsPool}
use burst_resilient_feed_han.OrderBook.Links.Fifo.{Entry, entry}
use burst_resilient_feed_han.OrderBook.Orders.{
  on_add, reject, remove_order, shrink, reduce_order, new_order, with_order, replace_order,
  replacement,
}
use burst_resilient_feed_han.OrderBook.Heap.{IsBook, entries, find_ref, refs}
use burst_resilient_feed_han.OrderBook.Heap.Lists.{SameEntries-update, entries-same, entries-append}
use burst_resilient_feed_han.OrderBook.Heap.Find.{find_ref-Found}
use burst_resilient_feed_han.OrderBook.Heap.Frame.{SameNodes-alloc}
use burst_resilient_feed_han.OrderBook.Heap.Shrink.{resized, shrink-IsBook}
use burst_resilient_feed_han.OrderBook.Spec.{lookup, remove, reduce, asked, add, replace}
use burst_resilient_feed_han.OrderBook.Spec.Entries.{
  lookup-none, lookup-some, first_of, remove-middle, reduce-middle, remove-absent, reduce-absent,
}
use burst_resilient_feed_han.OrderBook.Spec.Shows.{Shows, Shows-fewer, Shows-stats}
use burst_resilient_feed_han.OrderBook.Spec.Steps.{place-Shows, remove-Shows, shrink-Shows}

module _ (n : ℕ) (c : OrderBookConfig) (b : OrderBook) (es : List Entry)
    (v : Shows (suc n) c b es) where
  looked_none : (r : ℕ) → find_ref b.pool.node r v.live ≡ none → lookup r es ≡ none
  looked_none r e = ap (λ l. lookup r l) (sym v.seen) ∙ lookup-none b.pool.node r v.live e

  looked_some :
      (r o : ℕ)
      → find_ref b.pool.node r v.live ≡ some o
      → lookup r es ≡ some (entry (b.pool.node o))
  looked_some r o e = ap (λ l. lookup r l) (sym v.seen) ∙ lookup-some b.pool.node r o v.live e

  new_entry :
      (ev : MarketEvent) (idx : ℕ)
      → to_index b.cfg ev.price_ticks ≡ some idx
      → (idx < 2 ^ 32) × (entry (new_order ev idx) ≡ asked ev ev.side ev.order_ref idx)
  new_entry ev idx e =
      let small : idx < 2 ^ 32 = omega (
        arith,
        to_index-lt-level_count c ev.price_ticks idx v.config
            (ap (λ (k : OrderBookConfig). to_index k ev.price_ticks) (sym v.same) ∙ e),
        v.sized,
        v.ok.numbered,
      ) in
      let cut : idx % 2 ^ 32 ≡ idx = omega arith in
      (small, ap (λ (i : ℕ). asked ev ev.side ev.order_ref i) cut)

  pub on_add-Shows :
      (ev : MarketEvent)
      → ev.size < 2 ^ 32
      → Shows n c (on_add ev b) (add c ev ev.side ev.order_ref es)
  unfolding on_add add reject
  on_add-Shows ev small = elim (Option-cases (to_index b.cfg ev.price_ticks)) [
    | inl e ↦
        let e' : to_index c ev.price_ticks ≡ none =
          ap (λ (k : OrderBookConfig). to_index k ev.price_ticks) (sym v.same) ∙ e in
        rw (e, e', on_add, add) (Shows-stats n c b es _ (Shows-fewer n c b es v))
    | inr (idx, e) ↦
        let e' : to_index c ev.price_ticks ≡ some idx =
          ap (λ (k : OrderBookConfig). to_index k ev.price_ticks) (sym v.same) ∙ e in
        elim (Option-cases (find_ref b.pool.node ev.order_ref v.live)) [
          | inl f ↦
              let unused = v.ok.indexed ev.order_ref ∙ f in
              let h = alloc-IsPool b.pool v.live v.free v.ok.pool_ok in
              let (within, same) = new_entry ev idx e in
              rw (e, e', unused, looked_none ev.order_ref f, h.given, ← same, on_add, add)
                (place-Shows n c ev idx b es v h.o _ h.free
                  (SameNodes-alloc b.pool v.live v.ok.pool_ok.live_within) h.fresh h.pool within
                  small unused)
          | inr (o, f) ↦
              rw (e, e', v.ok.indexed ev.order_ref ∙ f, looked_some ev.order_ref o f, on_add, add)
                (Shows-fewer n c b es v)
        ]
  ]

-- A live order of the book, with what stands before and after it.
module _ (n : ℕ) (c : OrderBookConfig) (b : OrderBook) (before after free : List ℕ) (o : ℕ)
    (v : IsBook n b (before ++ (o ∷ after)) free) (same : b.cfg ≡ c)
    (sized : b.num_levels ≡ level_count c) (config : IsConfig c) where
  abbrev here : Order
  here = b.pool.node o

  abbrev shown : List Entry
  shown = entries b.pool.node (before ++ (o ∷ after))

  first : NotIn here.order_ref (refs b.pool.node before)
  first = first_of b.pool.node before after o v.distinct_refs

  pub removed-Shows :
      (m : ℕ) → m ≤ suc n → Shows m c (remove_order o b) (remove here.order_ref shown)
  removed-Shows m le =
      rw (remove-middle b.pool.node before after o first)
        (remove-Shows n c b before after free o v same sized config m le)

  -- After a reduction by `dec` that leaves nothing of the order, the rest stay as they are.
  emptied-Shows :
      (dec : ℕ)
      → dec ≤ here.size
      → Shows n c
          (remove_order o (shrink o dec b))
          (entries b.pool.node before ++ entries b.pool.node after)
  unfolding shrink
  emptied-Shows dec h =
      let alone = Distinct-middle before after o v.distinct in
      subst (Shows n c (remove_order o (shrink o dec b)))
        (entries-same b.pool.node (resized b.pool.node o (here.size - dec)) (before ++ after)
            (SameEntries-update b.pool.node o _ (before ++ after) alone)
          ∙ entries-append b.pool.node before after)
        (remove-Shows n c (shrink o dec b) before after free o
          (shrink-IsBook n b before after free o dec v h) same sized config n (omega arith))

  left_over : (dec : ℕ) → ((shrink o dec b).pool.node o).size ≡ here.size - dec
  unfolding shrink
  left_over dec = ap (λ (x : Order). x.size) (update_self b.pool.node o _)

  pub reduced-Shows :
      (shares : ℕ) → Shows n c (reduce_order o shares b) (reduce here.order_ref shares shown)
  unfolding reduce_order
  reduced-Shows shares =
      let dec = min shares here.size in
      let within : dec ≤ here.size = ground arith in
      rw (reduce-middle b.pool.node shares before after o first, left_over dec)
        (elim (Bool-cases (here.size - dec == 0)) [
          | inl t ↦ rw t (emptied-Shows dec within)
          | inr f ↦ rw f (shrink-Shows n c b before after free o v same sized config dec within)
        ])

-- A lookup that misses changes nothing of the list; one that hits acts on the order that it found.
with_order-Shows :
    (n : ℕ) (c : OrderBookConfig) (b : OrderBook) (es : List Entry) (r : ℕ)
    (act : ℕ → OrderBook → OrderBook) (f : List Entry → List Entry)
    → Shows (suc n) c b es
    → (lookup r es ≡ none → f es ≡ es)
    → ((before after free : List ℕ) (o : ℕ)
        → IsBook (suc n) b (before ++ (o ∷ after)) free
        → IsConfig c
        → (b.pool.node o).order_ref ≡ r
        → lookup r es ≡ some (entry (b.pool.node o))
        → es ≡ entries b.pool.node (before ++ (o ∷ after))
        → b.cfg ≡ c
        → b.num_levels ≡ level_count c
        → Shows n c (act o b) (f es))
    → Shows n c (with_order r act b) (f es)
unfolding with_order
with_order-Shows n c b es r act f v miss hit = elim (Option-cases (find_ref b.pool.node r v.live)) [
  | inl e ↦
      rw (v.ok.indexed r ∙ e, miss (looked_none n c b es v r e), with_order)
        (Shows-stats n c b es _ (Shows-fewer n c b es v))
  | inr (o, e) ↦
      let w = find_ref-Found b.pool.node r o v.live e in
      rw (v.ok.indexed r ∙ e, with_order)
        (hit w.before w.after v.free o (subst (λ l. IsBook (suc n) b l v.free) w.split v.ok)
          v.config w.same_ref (looked_some n c b es v r o e)
          (sym v.seen ∙ ap (λ l. entries b.pool.node l) w.split) v.same v.sized)
]

module _ (n : ℕ) (c : OrderBookConfig) (b : OrderBook) (es : List Entry)
    (v : Shows (suc n) c b es) where
  pub remove_order-Shows : (r : ℕ) → Shows n c (with_order r remove_order b) (remove r es)
  remove_order-Shows r =
      with_order-Shows n c b es r remove_order (remove r) v (remove-absent r es)
        (λ before after free o w config at_ref found shown same sized.
          rw (shown, ← at_ref)
            (removed-Shows (suc n) c b before after free o w same sized config n (omega arith)))

  pub reduce_order-Shows :
      (r shares : ℕ) → Shows n c (with_order r (λ o. reduce_order o shares) b) (reduce r shares es)
  reduce_order-Shows r shares =
      with_order-Shows n c b es r (λ o. reduce_order o shares) (reduce r shares) v
        (reduce-absent r shares es)
        (λ before after free o w config at_ref found shown same sized.
          rw (shown, ← at_ref)
            (Shows-fewer n c _ _
              (reduced-Shows (suc n) c b before after free o w same sized config shares)))

  pub replace_order-Shows :
      (ev : MarketEvent)
      → ev.size < 2 ^ 32
      → Shows n c (with_order ev.order_ref (replace_order ev) b) (replace c ev es)
  unfolding replace replace_order add
  replace_order-Shows ev small =
      with_order-Shows n c b es ev.order_ref (replace_order ev) (replace c ev) v
        (λ e. rw (e, replace) refl)
        (λ before after free o w config at_ref found shown same sized.
          rw (found, replace)
            (on_add-Shows n c (remove_order o b) (remove ev.order_ref es)
              (rw (shown, ← at_ref)
                (removed-Shows (suc n) c b before after free o w same sized config (suc n)
                  (omega arith)))
              (replacement ev (b.pool.node o).side) small))
