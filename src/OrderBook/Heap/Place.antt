-- ===== src/OrderBook/Heap/Place.antt =====
-- An order that on_add accepts: it joins the live orders as the newest one.
use burst_resilient_feed_han.Base.{
  ℕ, suc, ◌^◌, ◌<◌, ◌≡◌, ◌≢◌, refl, sym, ap, subst, ◌∙◌, none, some, true, false, List, [], ◌∷◌,
  ◌++◌, ◌==◌, if◌then◌else◌, length, length-append, arith,
}
use mathlib.Core.List.{append-nil}
use native.Mathlib.Decide.{ℕ_discrete}
use burst_resilient_feed_han.Base.Word.{inc64_exact}
use burst_resilient_feed_han.Event.{MarketEvent, Side, nobody, buy, sell}
use burst_resilient_feed_han.OrderBook.Types.{Order, OrderBook, OrderPool, update, update_self}
use burst_resilient_feed_han.OrderBook.Pool.FreeList.{IsPool, Apart}
use burst_resilient_feed_han.OrderBook.Links.Chain.{NotIn, Outside}
use burst_resilient_feed_han.OrderBook.Links.Fifo.{Entry, entry}
use burst_resilient_feed_han.OrderBook.Best.{raise_best}
use burst_resilient_feed_han.OrderBook.Orders.{place, join_level, new_order}
use burst_resilient_feed_han.OrderBook.Heap.{orders_at, refs, find_ref, entries, IsLevel, IsBook}
use burst_resilient_feed_han.OrderBook.Heap.Lists.{
  SameEntries, SameEntries-all, SameEntries-trans, orders_at-same, refs-same, find_ref-same,
  AllSmall-same, entries-same, orders_at-append, refs-append, entries-append, AllSmall-append,
  length-orders_at, NotIn-orders_at, Distinct-orders_at,
}
use burst_resilient_feed_han.OrderBook.Heap.Find.{
  Distinct-snoc, NotIn-refs, find_ref-snoc_ne, find_ref-snoc_self,
}
use burst_resilient_feed_han.OrderBook.Heap.Frame.{
  SameNodes, SameNodes-trans, SameNodes-SameEntries, SameNodes-at, last_of-Apart, Apart-split,
  Apart-sym, Apart-orders_at, Apart-levels, SameNodes-update, IsPool-same,
}
use burst_resilient_feed_han.OrderBook.Heap.Join.{
  entry-join_level, join_level-IsLevel, join_level-other, SameNodes-join_level, IsLevel-same,
  IsLevel-total,
}

-- The best indices are no part of what the book holds.
pub IsBook-raise_best :
    (n : ℕ) (s : Side) (idx : ℕ) (b : OrderBook) (live free : List ℕ)
    → IsBook n b live free
    → IsBook n (raise_best s idx b) live free
unfolding raise_best
IsBook-raise_best n nobody idx b live free v = v
IsBook-raise_best n buy idx b live free v = record {
  pool_ok = v.pool_ok;
  distinct = v.distinct;
  distinct_refs = v.distinct_refs;
  indexed = v.indexed;
  level_ok = v.level_ok;
  small = v.small;
  counted = v.counted;
  countable = v.countable;
  numbered = v.numbered;
}
IsBook-raise_best n sell idx b live free v = record {
  pool_ok = v.pool_ok;
  distinct = v.distinct;
  distinct_refs = v.distinct_refs;
  indexed = v.indexed;
  level_ok = v.level_ok;
  small = v.small;
  counted = v.counted;
  countable = v.countable;
  numbered = v.numbered;
}

module _ (n : ℕ) (ev : MarketEvent) (idx : ℕ) (b : OrderBook) (live free : List ℕ)
    (v : IsBook (suc n) b live free) (o : ℕ) (pool : OrderPool) (free' : List ℕ)
    (kept : SameNodes b.pool.node pool.node live) (fresh : NotIn o live)
    (pool_ok : IsPool pool (live ++ (o ∷ [])) free') where
  abbrev given : ℕ → Order
  given = update pool.node o (new_order ev idx)

  abbrev joined : ℕ → Order
  joined = (join_level ev o (b.levels idx) given).1

  SameNodes-given : SameNodes b.pool.node given live
  SameNodes-given =
      SameNodes-trans b.pool.node pool.node given live kept
        (SameNodes-update pool.node o (new_order ev idx) live fresh)

  SameEntries-joined : SameEntries b.pool.node joined live
  SameEntries-joined =
      SameEntries-trans b.pool.node given joined live
        (SameNodes-SameEntries b.pool.node given live SameNodes-given)
        (SameEntries-all given joined live (entry-join_level ev o (b.levels idx) given))

  pub entry-joined : entry (joined o) ≡ entry (new_order ev idx)
  entry-joined =
      entry-join_level ev o (b.levels idx) given o
      ∙ ap entry (update_self pool.node o (new_order ev idx))

  before : (i : ℕ) → IsLevel given (b.levels i) (orders_at b.pool.node i live)
  before i =
      IsLevel-same b.pool.node given (b.levels i) (orders_at b.pool.node i live)
        (SameNodes-at b.pool.node given i live SameNodes-given) (v.level_ok i)

  tail-Outside :
      (x : List ℕ) → Apart (orders_at b.pool.node idx live) x → Outside (b.levels idx).tail x
  tail-Outside x a =
      subst (λ t. Outside t x) (sym (v.level_ok idx).fifo.back)
        (last_of-Apart (orders_at b.pool.node idx live) x none a tt)

  module _ (within : idx < 2 ^ 32) (small : ev.size < 2 ^ 32)
      (unused : b.index ev.order_ref ≡ none) where
    level-joined : (joined o).level_idx ≡ idx
    level-joined = ap (λ (e : Entry). e.level_idx) entry-joined ∙ omega arith

    ref-joined : (joined o).order_ref ≡ ev.order_ref
    ref-joined = ap (λ (e : Entry). e.order_ref) entry-joined

    orders_at-joined :
        (i : ℕ)
        → orders_at joined i (live ++ (o ∷ []))
          ≡ orders_at b.pool.node i live ++ (if idx == i then o ∷ [] else [])
    orders_at-joined i =
        orders_at-append joined i live (o ∷ [])
        ∙ rw (orders_at-same b.pool.node joined i live SameEntries-joined, level-joined) refl

    joined_here :
        IsLevel joined
          (join_level ev o (b.levels idx) given).0
          (orders_at b.pool.node idx live ++ (o ∷ []))
    joined_here =
        join_level-IsLevel ev o (b.levels idx) given (orders_at b.pool.node idx live) (before idx)
          (Distinct-orders_at b.pool.node idx live v.distinct)
          (NotIn-orders_at b.pool.node idx o live fresh)
          (ap (λ (x : Order). x.size) (update_self pool.node o (new_order ev idx)))
          (omega (
            arith,
            IsLevel-total b.pool.node (b.levels idx) idx live (v.level_ok idx) v.small,
            v.countable,
          ))
          (omega (arith, length-orders_at b.pool.node idx live, v.countable))

    joined_elsewhere :
        (i : ℕ) → idx ≢ i → IsLevel joined (b.levels i) (orders_at b.pool.node i live)
    joined_elsewhere i ne =
        join_level-other ev o (b.levels idx) given (b.levels i) (orders_at b.pool.node i live)
          (NotIn-orders_at b.pool.node i o live fresh)
          (tail-Outside (orders_at b.pool.node i live)
            (Apart-levels b.pool.node idx i live live ne))
          (before i)

    level_joined_ok :
        (i : ℕ)
        → IsLevel joined
            (update b.levels idx (join_level ev o (b.levels idx) given).0 i)
            (orders_at joined i (live ++ (o ∷ [])))
    level_joined_ok i = elim (ℕ_discrete idx i) [
      | yes same ↦
          let here : (idx == i) ≡ true = ground (arith, same) in
          rw (orders_at-joined i, here) (rw (← same) joined_here)
      | no other ↦
          let off : (idx == i) ≡ false = ground (arith, other) in
          rw (orders_at-joined i, off, append-nil) (joined_elsewhere i other)
    ]

    fresh_ref : NotIn (joined o).order_ref (refs joined live)
    fresh_ref =
        rw (refs-same b.pool.node joined live SameEntries-joined, ref-joined)
          (NotIn-refs b.pool.node ev.order_ref live (sym (v.indexed ev.order_ref) ∙ unused))

    indexed_joined :
        (r : ℕ) → update b.index ev.order_ref (some o) r ≡ find_ref joined r (live ++ (o ∷ []))
    indexed_joined r = elim (ℕ_discrete ev.order_ref r) [
      | yes same ↦
          let here : (ev.order_ref == r) ≡ true = ground (arith, same) in
          rw here (
            sym (
              subst (λ (k : ℕ). find_ref joined k (live ++ (o ∷ [])) ≡ some o) (ref-joined ∙ same)
                (find_ref-snoc_self joined o live fresh_ref)))
      | no other ↦
          let off : (ev.order_ref == r) ≡ false = ground (arith, other) in
          rw off (
            v.indexed r
            ∙ sym (find_ref-same b.pool.node joined r live SameEntries-joined)
            ∙ sym (find_ref-snoc_ne joined r o live (λ e. other (sym ref-joined ∙ e))))
    ]

    -- The pool's free nodes are none of the live ones.
    off_free : Apart live free' × NotIn o free'
    off_free =
        let (a, n', _) =
          Apart-split live [] free' o (Apart-sym free' (live ++ (o ∷ [])) pool_ok.apart) in
        (a, n')

    pub place-IsBook : IsBook n (place ev idx o pool b) (live ++ (o ∷ [])) free'
    unfolding place
    place-IsBook = IsBook-raise_best n ev.side idx _ (live ++ (o ∷ [])) free' (record {
      pool_ok =
          IsPool-same pool joined (live ++ (o ∷ [])) free'
            (SameNodes-trans pool.node given joined free'
              (SameNodes-update pool.node o (new_order ev idx) free' off_free.1)
              (SameNodes-join_level ev o (b.levels idx) given free' off_free.1
                (tail-Outside free' (Apart-orders_at b.pool.node idx live free' off_free.0))))
            pool_ok;
      distinct = Distinct-snoc live o fresh v.distinct;
      distinct_refs = rw (refs-append joined live (o ∷ [])) (
          Distinct-snoc (refs joined live) (joined o).order_ref fresh_ref
            (rw (refs-same b.pool.node joined live SameEntries-joined) v.distinct_refs));
      indexed = indexed_joined;
      level_ok = level_joined_ok;
      small =
          AllSmall-append joined live (o ∷ [])
            (AllSmall-same b.pool.node joined live SameEntries-joined v.small)
            (rw (ap (λ (e : Entry). e.size) entry-joined) small, tt);
      counted =
          ground
            (arith, v.counted, length-append live (o ∷ []), inc64_exact (length live), v.countable);
      countable = omega (arith, length-append live (o ∷ []), v.countable);
      numbered = v.numbered;
    })

    -- What a client sees: the new order behind the others.
    pub place-entries :
        entries joined (live ++ (o ∷ []))
        ≡ entries b.pool.node live ++ (entry (new_order ev idx) ∷ [])
    place-entries =
        entries-append joined live (o ∷ [])
        ∙ rw (entries-same b.pool.node joined live SameEntries-joined, entry-joined) refl
