-- ===== src/OrderBook/Spec.antt =====
-- The order-by-order book as its clients see it: the list of live orders, oldest first, and what each
-- event makes of it. Nothing here knows of nodes, levels, indices or words.
pub mod Entries
pub mod Shows
pub mod Steps
pub mod Refine
pub mod Apply
pub mod Level
mod Tests
use burst_resilient_feed_han.Base.{
  ℕ, ◌-◌, Option, none, some, List, [], ◌∷◌, ◌++◌, ◌==◌, if◌then◌else◌, min,
}
use burst_resilient_feed_han.Event
use burst_resilient_feed_han.Event.{MarketEvent, EventType, Side}
use burst_resilient_feed_han.OrderBook.Types.{OrderBookConfig}
use burst_resilient_feed_han.OrderBook.Links.Fifo.{Entry}
use burst_resilient_feed_han.OrderBook.Price.{to_index}

unfoldable pub lookup : ℕ → List Entry → Option Entry
lookup r [] = none
lookup r (e ∷ es) = let rest = lookup r es in if e.order_ref == r then some e else rest

unfoldable pub remove : ℕ → List Entry → List Entry
remove r [] = []
remove r (e ∷ es) = let rest = remove r es in if e.order_ref == r then es else e ∷ rest

-- An order that loses `shares` keeps its place, or goes if nothing is left of it.
abbrev pub lose : ℕ → Entry → List Entry → List Entry
lose shares e es =
    let left = e.size - min shares e.size in if left == 0 then es else record e { size = left } ∷ es

unfoldable pub reduce : ℕ → ℕ → List Entry → List Entry
reduce r shares [] = []
reduce r shares (e ∷ es) =
    let rest = reduce r shares es in if e.order_ref == r then lose shares e es else e ∷ rest

-- The order that an event asks for, at the level `idx`.
abbrev pub asked : MarketEvent → Side → ℕ → ℕ → Entry
asked ev side ref idx = record {
  order_ref = ref;
  price_ticks = ev.price_ticks;
  size = ev.size;
  level_idx = idx;
  side = side;
}

-- A new order goes to the back, if its price is in the band and its reference not in use.
unfoldable pub add : OrderBookConfig → MarketEvent → Side → ℕ → List Entry → List Entry
add c ev side ref es = elim (to_index c ev.price_ticks) [
  | none ↦ es
  | some idx ↦ elim (lookup ref es) [ some _ ↦ es | none ↦ es ++ (asked ev side ref idx ∷ []) ]
]

-- A replace takes the old order out, and adds another on its side, which has lost its place.
unfoldable pub replace : OrderBookConfig → MarketEvent → List Entry → List Entry
replace c ev es = elim (lookup ev.order_ref es) [
  | none ↦ es
  | some e ↦ add c ev e.side ev.new_order_ref (remove ev.order_ref es)
]

unfoldable pub change : OrderBookConfig → EventType → MarketEvent → List Entry → List Entry
change c Event.add ev es = add c ev ev.side ev.order_ref es
change c Event.execute ev es = reduce ev.order_ref ev.size es
change c Event.execute_with_price ev es = reduce ev.order_ref ev.size es
change c Event.cancel ev es = reduce ev.order_ref ev.size es
change c Event.delete ev es = remove ev.order_ref es
change c Event.replace ev es = replace c ev es
change c Event.trade ev es = es
change c Event.system_event ev es = es
change c Event.unknown ev es = es
change c Event.l2_set_level ev es = es
change c Event.l2_event_header ev es = es
