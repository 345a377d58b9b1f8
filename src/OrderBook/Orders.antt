-- ===== src/OrderBook/Orders.antt =====
-- The order-by-order path of src/order_book.cpp: on_add, remove_order, reduce_order and apply.
pub mod Top
pub mod Mixed
mod Tests
use burst_resilient_feed_han.Base.{ℕ, ◌%◌, ◌^◌, ◌-◌, none, some, ◌==◌, if◌then◌else◌, min}
use burst_resilient_feed_han.Base.Word.{add64, sub64, inc64, dec64, inc32, dec32}
use burst_resilient_feed_han.Event
use burst_resilient_feed_han.Event.{MarketEvent, Side, nobody, EventType}
use burst_resilient_feed_han.OrderBook.Types.{OrderBook, PriceLevel, Order, OrderPool, update}
use burst_resilient_feed_han.OrderBook.Pool
use burst_resilient_feed_han.OrderBook.Links.{link_back, unlink}
use burst_resilient_feed_han.OrderBook.Price.{to_index}
use burst_resilient_feed_han.OrderBook.Best.{raise_best, rescan_after, is_crossed}

-- `*o`.
abbrev pub node_of : OrderBook → ℕ → Order
node_of b o = b.pool.node o

-- The fields that `on_add` writes into the new node.
abbrev pub new_order : MarketEvent → ℕ → Order
new_order ev idx = record {
  order_ref = ev.order_ref;
  price_ticks = ev.price_ticks;
  size = ev.size;
  level_idx = idx % 2 ^ 32;
  side = ev.side;
  prev = none;
  next = none;
}

-- The level that gains the node `o`: an empty one is claimed for the event's side.
unfoldable pub join_level : MarketEvent → ℕ → PriceLevel → (ℕ → Order) → PriceLevel × (ℕ → Order)
join_level ev o lvl node =
    let claimed = record lvl { side = if lvl.order_count == 0 then ev.side else lvl.side } in
    let (l, node') = link_back claimed o node in
    (
      record l {
        aggregate_size = add64 l.aggregate_size ev.size;
        order_count = inc32 l.order_count;
      },
      node',
    )

-- The part of `on_add` after the checks, with the node in hand.
unfoldable pub place : MarketEvent → ℕ → ℕ → OrderPool → OrderBook → OrderBook
place ev idx o pool b =
    let (lvl, node') = join_level ev o (b.levels idx) (update pool.node o (new_order ev idx)) in
    raise_best ev.side idx (record b {
      levels = update b.levels idx lvl;
      index = update b.index ev.order_ref (some o);
      pool = record pool { node = node' };
      live_orders = inc64 b.live_orders;
    })

unfoldable pub reject : OrderBook → OrderBook
reject b = record b {
  stats = record (b.stats) { rejected_out_of_band = inc64 b.stats.rejected_out_of_band };
}

unfoldable pub on_add : MarketEvent → OrderBook → OrderBook
on_add ev b = elim (to_index b.cfg ev.price_ticks) [
  | none ↦ reject b
  | some idx ↦ elim (b.index ev.order_ref) [
    | some _ ↦ b
    | none ↦
        let (o, pool) = Pool.alloc b.pool in
        elim o [ none ↦ record b { pool = pool } | some a ↦ place ev idx a pool b ]
  ]
]

-- `lvl.side = Side::None; lvl.aggregate_size = 0;` of a level that its last order has left.
abbrev pub vacate : PriceLevel → PriceLevel
vacate lvl = if lvl.order_count == 0 then record lvl { side = nobody; aggregate_size = 0 } else lvl

-- The level that loses the node `o`, whose size is `size`.
unfoldable pub leave_level : ℕ → ℕ → PriceLevel → (ℕ → Order) → PriceLevel × (ℕ → Order)
leave_level o size lvl node =
    let (l, node') = unlink lvl o node in
    (
      vacate (record l {
        aggregate_size = sub64 l.aggregate_size size;
        order_count = dec32 l.order_count;
      }),
      node',
    )

unfoldable pub remove_order : ℕ → OrderBook → OrderBook
remove_order o b =
    let order = node_of b o in
    let idx = order.level_idx in
    let (lvl, node') = leave_level o order.size (b.levels idx) b.pool.node in
    let removed = record b {
      levels = update b.levels idx lvl;
      index = update b.index order.order_ref none;
      pool = Pool.release o (record (b.pool) { node = node' });
      live_orders = dec64 b.live_orders;
    } in
    if lvl.order_count == 0 then rescan_after order.side idx removed else removed

-- `levels_[o->level_idx].aggregate_size -= dec; o->size -= dec;`. `dec` is at most the size.
unfoldable pub shrink : ℕ → ℕ → OrderBook → OrderBook
shrink o dec b =
    let order = node_of b o in
    let lvl = b.levels order.level_idx in
    record b {
      levels =
          update b.levels order.level_idx
            (record lvl { aggregate_size = sub64 lvl.aggregate_size dec });
      pool = record (b.pool) {
        node = update b.pool.node o (record order { size = order.size - dec });
      };
    }

unfoldable pub reduce_order : ℕ → ℕ → OrderBook → OrderBook
reduce_order o shares b =
    let s = shrink o (min shares (node_of b o).size) b in
    if (node_of s o).size == 0 then remove_order o s else s

unfoldable pub note_crossed : OrderBook → OrderBook
note_crossed b =
    if is_crossed b
    then record b { stats = record (b.stats) { crossed_observed = inc64 b.stats.crossed_observed } }
    else b

-- `index_.find(ev.order_ref)`: count a reference that is not there, or go on with its node.
unfoldable pub with_order : ℕ → (ℕ → OrderBook → OrderBook) → OrderBook → OrderBook
with_order ref act b = elim (b.index ref) [
  | none ↦ record b { stats = record (b.stats) { unknown_ref = inc64 b.stats.unknown_ref } }
  | some o ↦ act o b
]

-- The add that a replace makes: at the new price and size, on the side of the order it replaces.
abbrev pub replacement : MarketEvent → Side → MarketEvent
replacement ev s = record ev { type = EventType.add; order_ref = ev.new_order_ref; side = s }

unfoldable pub replace_order : MarketEvent → ℕ → OrderBook → OrderBook
replace_order ev o b = on_add (replacement ev (node_of b o).side) (remove_order o b)

-- The switch of `apply`.
unfoldable pub dispatch : EventType → MarketEvent → OrderBook → OrderBook
dispatch Event.add ev b =
    on_add ev (record b { stats = record (b.stats) { adds = inc64 b.stats.adds } })
dispatch Event.cancel ev b =
    with_order ev.order_ref (λ o. reduce_order o ev.size)
      (record b { stats = record (b.stats) { cancels = inc64 b.stats.cancels } })
dispatch Event.execute ev b =
    with_order ev.order_ref (λ o. reduce_order o ev.size)
      (record b { stats = record (b.stats) { executes = inc64 b.stats.executes } })
dispatch Event.execute_with_price ev b =
    with_order ev.order_ref (λ o. reduce_order o ev.size)
      (record b { stats = record (b.stats) { executes = inc64 b.stats.executes } })
dispatch Event.delete ev b =
    with_order ev.order_ref remove_order
      (record b { stats = record (b.stats) { deletes = inc64 b.stats.deletes } })
dispatch Event.replace ev b =
    with_order ev.order_ref (replace_order ev)
      (record b { stats = record (b.stats) { replaces = inc64 b.stats.replaces } })
dispatch Event.trade ev b = record b { stats = record (b.stats) { trades = inc64 b.stats.trades } }
dispatch Event.system_event ev b = b
dispatch Event.unknown ev b = b
dispatch Event.l2_set_level ev b = b
dispatch Event.l2_event_header ev b = b

unfoldable pub apply : MarketEvent → OrderBook → OrderBook
apply ev b =
    let d = dispatch ev.type ev b in
    note_crossed (record d { stats = record (d.stats) { applied = inc64 d.stats.applied } })
