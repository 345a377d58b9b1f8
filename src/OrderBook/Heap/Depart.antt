-- ===== src/OrderBook/Heap/Depart.antt =====
-- The levels of the book when an order is taken out of its level.
use burst_resilient_feed_han.Base.{
  ℕ, ◌^◌, ◌<◌, ◌≡◌, ◌≢◌, refl, sym, subst, ◌∙◌, Option, true, false, List, ◌∷◌, ◌++◌, ◌==◌, ◌&&◌,
  length, inl, inr, arith, Bool-cases,
}
use burst_resilient_feed_han.Event.{Side, buy, sell, side_eq}
use burst_resilient_feed_han.OrderBook.Types.{Order, PriceLevel, OrderBook}
use burst_resilient_feed_han.OrderBook.Pool.FreeList.{Apart}
use burst_resilient_feed_han.OrderBook.Links.Chain.{Distinct}
use burst_resilient_feed_han.OrderBook.Best.{
  rescan_after, rescan_best_bid_from, rescan_best_ask_from, is_best,
}
use burst_resilient_feed_han.OrderBook.Orders.{leave_level}
use burst_resilient_feed_han.OrderBook.Heap.{orders_at, IsLevel, IsBook}
use burst_resilient_feed_han.OrderBook.Heap.Lists.{
  orders_at-append, length-orders_at, Distinct-orders_at,
}
use burst_resilient_feed_han.OrderBook.Heap.Frame.{Apart-levels}
use burst_resilient_feed_han.OrderBook.Heap.Join.{IsLevel-total}
use burst_resilient_feed_han.OrderBook.Heap.Leave.{leave_level-IsLevel, leave_level-other}

-- The best indices are no part of what the book holds.
IsBook-tops :
    (n : ℕ) (b : OrderBook) (live free : List ℕ) (bid ask : Option ℕ)
    → IsBook n b live free
    → IsBook n (record b { best_bid_idx = bid; best_ask_idx = ask }) live free
IsBook-tops n b live free bid ask v = record {
  pool_ok = v.pool_ok;
  distinct = v.distinct;
  distinct_refs = v.distinct_refs;
  indexed = v.indexed;
  level_ok = v.level_ok;
  small = v.small;
  counted = v.counted;
  countable = v.countable;
  numbered = v.numbered;
}

pub IsBook-rescan_after :
    (n : ℕ) (s : Side) (idx : ℕ) (b : OrderBook) (live free : List ℕ)
    → IsBook n b live free
    → IsBook n (rescan_after s idx b) live free
unfolding rescan_after rescan_best_bid_from rescan_best_ask_from
IsBook-rescan_after n s idx b live free v =
    elim (Bool-cases (side_eq s buy && is_best b.best_bid_idx idx)) [
      | inl t ↦ rw t (IsBook-tops n b live free _ b.best_ask_idx v)
      | inr f ↦ rw f (elim (Bool-cases (side_eq s sell && is_best b.best_ask_idx idx)) [
        | inl t ↦ rw t (IsBook-tops n b live free b.best_bid_idx _ v)
        | inr g ↦ rw g v
      ])
    ]

module _ (n : ℕ) (b : OrderBook) (before after free : List ℕ) (o : ℕ)
    (v : IsBook n b (before ++ (o ∷ after)) free) where
  abbrev pub memory : ℕ → Order
  memory = b.pool.node

  abbrev pub place_of : ℕ
  place_of = (memory o).level_idx

  abbrev pub left : PriceLevel
  left = (leave_level o (memory o).size (b.levels place_of) memory).0

  abbrev pub unlinked : ℕ → Order
  unlinked = (leave_level o (memory o).size (b.levels place_of) memory).1

  -- The level's orders, around the one that goes.
  pub orders_here :
      orders_at memory place_of (before ++ (o ∷ after))
      ≡ orders_at memory place_of before ++ (o ∷ orders_at memory place_of after)
  orders_here =
      let here : (place_of == place_of) ≡ true = ground arith in
      orders_at-append memory place_of before (o ∷ after) ∙ rw here refl

  orders_left :
      (i : ℕ)
      → orders_at memory i (before ++ after) ≡ orders_at memory i before ++ orders_at memory i after
  orders_left i = orders_at-append memory i before after

  orders_elsewhere :
      (i : ℕ)
      → place_of ≢ i
      → orders_at memory i (before ++ (o ∷ after)) ≡ orders_at memory i (before ++ after)
  orders_elsewhere i ne =
      let off : (place_of == i) ≡ false = ground (arith, ne) in
      orders_at-append memory i before (o ∷ after) ∙ rw off (sym (orders_left i))

  pub here_ok :
      IsLevel memory
        (b.levels place_of)
        (orders_at memory place_of before ++ (o ∷ orders_at memory place_of after))
  here_ok = subst (IsLevel memory (b.levels place_of)) orders_here (v.level_ok place_of)

  pub left_here : IsLevel unlinked left (orders_at memory place_of (before ++ after))
  left_here = rw (orders_left place_of) (
      leave_level-IsLevel memory o (b.levels place_of) (orders_at memory place_of before)
        (orders_at memory place_of after) here_ok
        (subst Distinct orders_here
          (Distinct-orders_at memory place_of (before ++ (o ∷ after)) v.distinct))
        (omega (
          arith,
          IsLevel-total memory (b.levels place_of) place_of (before ++ (o ∷ after))
              (v.level_ok place_of) v.small,
          v.countable,
        ))
        (subst (λ (q : List ℕ). length q < 2 ^ 32) orders_here
          (omega (arith, length-orders_at memory place_of (before ++ (o ∷ after)), v.countable))))

  pub shares_nothing :
      (x : List ℕ)
      → Apart (orders_at memory place_of (before ++ (o ∷ after))) x
      → Apart (orders_at memory place_of before ++ (o ∷ orders_at memory place_of after)) x
  shares_nothing x a = subst (λ q. Apart q x) orders_here a

  pub left_elsewhere :
      (i : ℕ) → place_of ≢ i → IsLevel unlinked (b.levels i) (orders_at memory i (before ++ after))
  left_elsewhere i ne =
      let others : IsLevel memory (b.levels i) (orders_at memory i (before ++ after)) =
        subst (IsLevel memory (b.levels i)) (orders_elsewhere i ne) (v.level_ok i) in
      leave_level-other memory o (b.levels place_of) (orders_at memory place_of before)
        (orders_at memory place_of after) here_ok (memory o).size (b.levels i)
        (orders_at memory i (before ++ after))
        (shares_nothing (orders_at memory i (before ++ after))
          (Apart-levels memory place_of i (before ++ (o ∷ after)) (before ++ after) ne))
        others
