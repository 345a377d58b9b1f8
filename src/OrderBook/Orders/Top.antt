-- ===== src/OrderBook/Orders/Top.antt =====
-- The cached best indices on the order path: right as long as each level has orders of one side only.
use burst_resilient_feed_han.Base.{
  ℕ, ◌+◌, ◌^◌, ◌<◌, ◌≡◌, ◌≢◌, ◌⊎◌, inl, inr, refl, sym, ◌∙◌, some, false, arith, Bool-cases,
  Option-cases, ◌==◌, if◌then◌else◌,
}
use burst_resilient_feed_han.Base.Word.{inc32}
use burst_resilient_feed_han.Event.{MarketEvent, Side, buy, sell}
use burst_resilient_feed_han.OrderBook.Types.{OrderBook, PriceLevel, Order, OrderPool, update}
use burst_resilient_feed_han.OrderBook.Pool
use burst_resilient_feed_han.OrderBook.Links.{link_back, unlink}
use burst_resilient_feed_han.OrderBook.Price.{to_index}
use burst_resilient_feed_han.OrderBook.Price.Laws.{to_index-lt-level_count}
use burst_resilient_feed_han.OrderBook.Best.{holds}
use burst_resilient_feed_han.OrderBook.Top.{IsTop}
use burst_resilient_feed_han.OrderBook.TopWrite.{
  raised-IsTop, kept-IsTop, lost-IsTop, holds_owner, holds_empty, holds_other,
}
use burst_resilient_feed_han.OrderBook.Levels.Top.{IsBanded}
use burst_resilient_feed_han.OrderBook.Orders.{
  join_level, leave_level, place, reject, on_add, remove_order, new_order, node_of,
}

-- The level is empty, or holds orders of this side, and its count does not wrap.
pub record Welcomes (side : Side) (lvl : PriceLevel) : Type 0 where
  pub owned : (lvl.order_count ≡ 0) ⊎ (lvl.side ≡ side)
  pub countable : lvl.order_count + 1 < 2 ^ 32

module _ (ev : MarketEvent) (o : ℕ) (lvl : PriceLevel) (node : ℕ → Order) where
  count-join_level : (join_level ev o lvl node).0.order_count ≡ inc32 lvl.order_count
  unfolding join_level link_back
  count-join_level = refl

  side-join_level :
      (join_level ev o lvl node).0.side ≡ (if lvl.order_count == 0 then ev.side else lvl.side)
  unfolding join_level link_back
  side-join_level = refl

  joined_count : Welcomes ev.side lvl → 0 < (join_level ev o lvl node).0.order_count
  unfolding inc32
  joined_count w = omega (arith, count-join_level, w.countable)

  joined_side : Welcomes ev.side lvl → (join_level ev o lvl node).0.side ≡ ev.side
  joined_side w = elim w.owned [
    | inl e ↦ side-join_level ∙ rw e refl
    | inr e ↦ side-join_level ∙ ground (arith, e)
  ]

  others_hold_nothing : Welcomes ev.side lvl → (t : Side) → t ≢ ev.side → holds t lvl ≡ false
  others_hold_nothing w t ne = elim w.owned [
    | inl e ↦ holds_empty t lvl e
    | inr e ↦ holds_other t lvl (λ p. ne (sym p ∙ e))
  ]

pub place-IsTop :
    (ev : MarketEvent) (idx o : ℕ) (pool : OrderPool) (b : OrderBook)
    → idx < b.num_levels
    → Welcomes ev.side (b.levels idx)
    → IsTop b
    → IsTop (place ev idx o pool b)
unfolding place
place-IsTop ev idx o pool b h w v =
    let node = update pool.node o (new_order ev idx) in
    raised-IsTop b idx (join_level ev o (b.levels idx) node).0 _
      (record { written = refl; sized = refl; same_bid = refl; same_ask = refl }) v h ev.side
      (joined_side ev o (b.levels idx) node w) (joined_count ev o (b.levels idx) node w)
      (others_hold_nothing ev o (b.levels idx) node w)

-- On a book whose array is the one its configuration asks for: adding an order, accepted or not,
-- keeps both cached best indices equal to what a scan over the whole array finds, if the level at
-- its price is empty or holds orders of the same side (fewer than 2^32 - 1).
pub on_add-IsTop :
    (ev : MarketEvent) (b : OrderBook)
    → ((idx : ℕ) → to_index b.cfg ev.price_ticks ≡ some idx → Welcomes ev.side (b.levels idx))
    → IsBanded b
    → IsTop b
    → IsTop (on_add ev b)
unfolding on_add reject
on_add-IsTop ev b welcome w v = elim (Option-cases (to_index b.cfg ev.price_ticks)) [
  | inl e ↦ rw (e, on_add) (record { bid = v.bid; ask = v.ask })
  | inr (idx, e) ↦ elim (Option-cases (b.index ev.order_ref)) [
    | inr (_, i) ↦ rw (e, i, on_add) v
    | inl i ↦ elim (Option-cases (Pool.alloc b.pool).0) [
      | inl a ↦ rw (e, i, a, on_add) (record { bid = v.bid; ask = v.ask })
      | inr (o, a) ↦
          rw (e, i, a, on_add)
            (place-IsTop ev idx o (Pool.alloc b.pool).1 b
              (rw w.sized (to_index-lt-level_count b.cfg ev.price_ticks idx w.config e))
              (welcome idx e) v)
    ]
  ]
]

module _ (o size : ℕ) (lvl : PriceLevel) (node : ℕ → Order) where
  left_side :
      (leave_level o size lvl node).0.order_count ≢ 0
      → (leave_level o size lvl node).0.side ≡ lvl.side
  unfolding leave_level unlink
  left_side h = ground arith

  holds_left :
      (t : Side)
      → 0 < lvl.order_count
      → (leave_level o size lvl node).0.order_count ≢ 0
      → holds t (leave_level o size lvl node).0 ≡ holds t lvl
  holds_left t h ne = rw (left_side ne) (ground arith)

-- Taking out an order that lies at a level of its own side, in the array and not counted as empty,
-- keeps both cached best indices equal to what a scan over the whole array finds.
pub remove_order-IsTop :
    (o : ℕ) (b : OrderBook)
    → let lvl = b.levels (node_of b o).level_idx in
      (node_of b o).level_idx < b.num_levels
      → lvl.side ≡ (node_of b o).side
      → 0 < lvl.order_count
      → IsTop b
      → IsTop (remove_order o b)
unfolding remove_order
remove_order-IsTop o b h e n v =
    let order = node_of b o in
    let lvl = b.levels order.level_idx in
    let left = (leave_level o order.size lvl b.pool.node).0 in
    elim (Bool-cases (left.order_count == 0)) [
      | inl z ↦ rw z (
          lost-IsTop b order.level_idx left _
            (record { written = refl; sized = refl; same_bid = refl; same_ask = refl }) v h
            order.side (holds_empty buy left (ground arith)) (holds_empty sell left (ground arith))
            (λ t. sym e ∙ holds_owner buy lvl t) (λ t. sym e ∙ holds_owner sell lvl t))
      | inr p ↦ rw p (
          kept-IsTop b order.level_idx left _
            (record { written = refl; sized = refl; same_bid = refl; same_ask = refl }) v h
            (holds_left o order.size lvl b.pool.node buy n (ground arith))
            (holds_left o order.size lvl b.pool.node sell n (ground arith)))
    ]
