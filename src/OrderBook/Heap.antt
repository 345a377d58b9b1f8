-- ===== src/OrderBook/Heap.antt =====
-- The order-by-order book of src/order_book.cpp as a whole: what ties the index, the nodes of the
-- pool and the levels to one list of live orders, oldest first.
pub mod Lists
pub mod Find
pub mod Frame
pub mod Join
pub mod Place
pub mod Leave
pub mod Depart
pub mod Remove
pub mod Shrink
use burst_resilient_feed_han.Base.{
  ℕ, ◌+◌, ◌^◌, ◌<◌, ◌≤◌, ◌≡◌, Option, none, some, List, [], ◌∷◌, ◌==◌, if◌then◌else◌, length,
}
use burst_resilient_feed_han.OrderBook.Types.{Order, PriceLevel, OrderBook}
use burst_resilient_feed_han.OrderBook.Links.Chain.{Distinct}
use burst_resilient_feed_han.OrderBook.Links.Fifo.{IsFifo, Entry, entry}
use burst_resilient_feed_han.OrderBook.Pool.FreeList.{IsPool}

-- The live orders at the level `i`, in their order.
abbrev pub orders_at : (ℕ → Order) → ℕ → List ℕ → List ℕ
orders_at node i [] = []
orders_at node i (o ∷ l) =
    let rest = orders_at node i l in if (node o).level_idx == i then o ∷ rest else rest

abbrev pub total : (ℕ → Order) → List ℕ → ℕ
total node [] = 0
total node (o ∷ l) = (node o).size + total node l

abbrev pub refs : (ℕ → Order) → List ℕ → List ℕ
refs node [] = []
refs node (o ∷ l) = (node o).order_ref ∷ refs node l

-- The node of the live order with this reference.
abbrev pub find_ref : (ℕ → Order) → ℕ → List ℕ → Option ℕ
find_ref node r [] = none
find_ref node r (o ∷ l) =
    let rest = find_ref node r l in if (node o).order_ref == r then some o else rest

-- Each size fits the 32 bits of an event's.
abbrev pub AllSmall : (ℕ → Order) → List ℕ → Type 0
AllSmall node [] = Unit {0}
AllSmall node (o ∷ l) = ((node o).size < 2 ^ 32) × AllSmall node l

-- What a client knows of the live orders.
abbrev pub entries : (ℕ → Order) → List ℕ → List Entry
entries node [] = []
entries node (o ∷ l) = entry (node o) ∷ entries node l

-- A level that holds the orders `q`: its queue, its size and its count.
pub record IsLevel (node : ℕ → Order) (lvl : PriceLevel) (q : List ℕ) : Type 0 where
  pub fifo : IsFifo node lvl q
  pub aggregated : lvl.aggregate_size ≡ total node q
  pub counted : lvl.order_count ≡ length q

-- The book holds the live orders `live`, and `n` more can be counted.
pub record IsBook (n : ℕ) (b : OrderBook) (live free : List ℕ) : Type 0 where
  pub pool_ok : IsPool b.pool live free
  pub distinct : Distinct live
  pub distinct_refs : Distinct (refs b.pool.node live)
  pub indexed : (r : ℕ) → b.index r ≡ find_ref b.pool.node r live
  pub level_ok : (i : ℕ) → IsLevel b.pool.node (b.levels i) (orders_at b.pool.node i live)
  pub small : AllSmall b.pool.node live
  pub counted : b.live_orders ≡ length live
  pub countable : length live + n < 2 ^ 32
  pub numbered : b.num_levels ≤ 2 ^ 32
